-- ===== src/Drive/Store.antt =====
-- Writes and reads that `request_receiver` of src/virtual_drive.h serves.
use coursework_file_system.Prelude.{
  ℕ, ◌+◌, ◌*◌, ◌^◌, ◌<◌, ◌≤◌, ◌≡◌, ◌≢◌, refl, ◌∙◌, length, take_all, arith, ==_self, leb-true, ◌⊎◌,
  inl, inr,
}
use coursework_file_system.Bytes.{Bytes}
use coursework_file_system.Memory.{
  slice, splice, read_range, memcpy, length-splice, slice-splice_at, slice-splice_before,
  slice-splice_after,
}
use coursework_file_system.Run.{done}
use coursework_file_system.RamDisk.Refine.{sector_end}
use coursework_file_system.Drive.{
  Drive, Receiver, cylinder_no, travel, serve_io, read_sector_at, write_sector_at, sector_content,
  acknowledged, file_offset, sent, received,
}

-- The address lies inside the mapped file.
abbrev pub Inside : Drive → ℕ → Type 0
Inside d addr = addr * d.bytes_per_sector + d.bytes_per_sector ≤ length d.file_data

module _ (r : Receiver) (sound : length r.drive.file_data < 2 ^ 64) where
  offset_lem :
      (addr : ℕ) → Inside r.drive addr → file_offset r.drive addr ≡ addr * r.drive.bytes_per_sector
  offset_lem addr inside = omega (arith, sound, inside)

  -- A read inside the file returns the bytes of the sector, and moves the head.
  read-done :
      (tid addr : ℕ)
      → Inside r.drive addr
      → serve_io (read_sector_at tid addr) r
        ≡ done
            (
              sector_content tid (
                  slice r.drive.file_data
                    (addr * r.drive.bytes_per_sector)
                    r.drive.bytes_per_sector),
              travel r.drive r.prev_cylinder_no (cylinder_no r.drive addr),
            )
            (record r { prev_cylinder_no = cylinder_no r.drive addr })
  unfolding serve_io read_range sent
  read-done tid addr inside =
      rw
        (
          offset_lem addr inside,
          leb-true (addr * r.drive.bytes_per_sector + r.drive.bytes_per_sector)
              (length r.drive.file_data) inside,
        )
        refl

  -- The receiver after a write.
  abbrev pub after : ℕ → Bytes → Receiver
  after addr bytes =
      let d = r.drive in
      record {
        drive = record d { file_data = splice d.file_data (addr * d.bytes_per_sector) bytes };
        prev_cylinder_no = cylinder_no d addr;
      }

  write-done :
      (tid addr : ℕ) (bytes : Bytes)
      → Inside r.drive addr
      → length bytes ≡ r.drive.bytes_per_sector
      → serve_io (write_sector_at tid addr bytes) r
        ≡ done
            (acknowledged tid, travel r.drive r.prev_cylinder_no (cylinder_no r.drive addr))
            (after addr bytes)
  unfolding serve_io memcpy received
  write-done tid addr bytes inside len =
      rw
        (
          offset_lem addr inside,
          take_all r.drive.bytes_per_sector bytes (omega (arith, len)),
          len,
          leb-true (addr * r.drive.bytes_per_sector + r.drive.bytes_per_sector)
              (length r.drive.file_data) inside,
        )
        refl

  other_sector :
      (addr other : ℕ) (bytes : Bytes)
      → addr ≢ other
      → length bytes ≡ r.drive.bytes_per_sector
      → slice
          (splice r.drive.file_data (addr * r.drive.bytes_per_sector) bytes)
          (other * r.drive.bytes_per_sector)
          r.drive.bytes_per_sector
        ≡ slice r.drive.file_data (other * r.drive.bytes_per_sector) r.drive.bytes_per_sector
  other_sector addr other bytes ne len = elim (order addr other ne) [
    | inl lt ↦
        slice-splice_after r.drive.file_data (addr * r.drive.bytes_per_sector) bytes
          (other * r.drive.bytes_per_sector) r.drive.bytes_per_sector
          (omega (arith, len, sector_end addr other r.drive.bytes_per_sector lt))
    | inr gt ↦
        slice-splice_before r.drive.file_data (addr * r.drive.bytes_per_sector) bytes
          (other * r.drive.bytes_per_sector) r.drive.bytes_per_sector
          (sector_end other addr r.drive.bytes_per_sector gt)
  ]
    where
      order : (a b : ℕ) → a ≢ b → (a < b) ⊎ (b < a)
      order a b h = omega (arith, h)

module _ (r : Receiver) (sound : length r.drive.file_data < 2 ^ 64) where
  -- On a mapped file of fewer than 2 ^ 64 bytes, a write of a sector inside it is acknowledged. A
  -- read of that sector that follows returns what was written, without a wait; a read of any other
  -- sector inside the file returns what it held before the write.
  pub serve_io-write :
      (tid addr : ℕ) (bytes : Bytes)
      → Inside r.drive addr
      → length bytes ≡ r.drive.bytes_per_sector
      → (r' : Receiver) × (wait : ℕ) × (serve_io (write_sector_at tid addr bytes) r
          ≡ done (acknowledged tid, wait) r')
        × ((tid' : ℕ)
            → serve_io (read_sector_at tid' addr) r' ≡ done (sector_content tid' bytes, 0) r')
        × ((tid' other : ℕ)
            → addr ≢ other
            → Inside r.drive other
            → (wait' : ℕ) × (r'' : Receiver) × (serve_io (read_sector_at tid' other) r'
                ≡ done
                    (
                      sector_content tid' (
                          slice r.drive.file_data
                            (other * r.drive.bytes_per_sector)
                            r.drive.bytes_per_sector),
                      wait',
                    )
                    r''))
  serve_io-write tid addr bytes inside len =
      let r' = after r sound addr bytes in
      let size = length-splice r.drive.file_data (addr * r.drive.bytes_per_sector) bytes in
      let sound' : length r'.drive.file_data < 2 ^ 64 = omega (arith, size, sound) in
      (
        r',
        travel r.drive r.prev_cylinder_no (cylinder_no r.drive addr),
        write-done r sound tid addr bytes inside len,
        λ tid'.
            read-done r' sound' tid' addr (omega (arith, size, inside))
            ∙ rw
                (
                  ==_self (cylinder_no r.drive addr),
                  slice-splice_at r.drive.file_data (addr * r.drive.bytes_per_sector) bytes
                      r.drive.bytes_per_sector len inside,
                )
                refl,
        λ tid' other ne inside'. (
          travel r.drive (cylinder_no r.drive addr) (cylinder_no r.drive other),
          record r' { prev_cylinder_no = cylinder_no r.drive other },
          read-done r' sound' tid' other (omega (arith, size, inside'))
              ∙ rw (other_sector r sound addr other bytes ne len) refl,
        ),
      )
