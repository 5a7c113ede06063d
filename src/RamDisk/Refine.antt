-- ===== src/RamDisk/Refine.antt =====
-- `ram_disk` of src/ram_disk.h keeps the contract of `storage_interface`.
use coursework_file_system.Prelude.{
  ◌==◌, true, false, ℕ, ◌∙◌, ◌+◌, ◌*◌, ◌%◌, ◌^◌, ◌<◌, ◌≤◌, ◌≡◌, ◌≢◌, ap, fun_ext, arith, length,
  take, length-take, length-replicate, inl, inr, ◌⊎◌,
}
use coursework_file_system.Bytes.{Bytes}
use coursework_file_system.Memory.{
  slice, splice, slice-splice_at, slice-splice_before, slice-splice_after,
}
use coursework_file_system.Run.{Run, done, thrown, undefined}
use coursework_file_system.Disk.{Disk, sectors, update, read_sector, write_sector}
use coursework_file_system.RamDisk
use coursework_file_system.RamDisk.{RamDisk, create, read, write, get_description}

-- The geometry fits 64 bits, and the array holds it.
pub record IsSized (r : RamDisk) : Type 0 where
  pub sector_pos : 0 < r.bytes_per_sector
  pub no_overflow : r.cylinders * r.sectors_per_cylinder * r.bytes_per_sector < 2 ^ 64
  pub size : length r.storage ≡ r.cylinders * r.sectors_per_cylinder * r.bytes_per_sector

-- The disk that a `ram_disk` stands for.
unfoldable pub view : RamDisk → Disk
unfolding get_description
view r = record {
  description = get_description r;
  sector = λ addr. slice r.storage (addr * r.bytes_per_sector) r.bytes_per_sector;
}

abbrev pub view_run : {A : Type 0} → Run RamDisk A → Run Disk A
view_run (done a r) = done a (view r)
view_run (thrown e r) = thrown e (view r)
view_run undefined = undefined

pub sector_end : (a n b : ℕ) → a < n → a * b + b ≤ n * b
sector_end a n b h = grind arith

count-le : (n b : ℕ) → 0 < b → n ≤ n * b
count-le n b h = grind arith

-- A new `ram_disk` is well-formed if its size fits 64 bits.
pub create-IsSized : (c s b : ℕ) → 0 < b → c * s * b < 2 ^ 64 → IsSized (create c s b)
unfolding create
create-IsSized c s b pos fits = record {
  sector_pos = pos;
  no_overflow = fits;
  size = length-replicate (c * s * b % 2 ^ 64) 0 ∙ omega arith;
}

module _ {r : RamDisk} (z : IsSized r) where
  sector_count : sectors (get_description r) ≡ r.cylinders * r.sectors_per_cylinder
  unfolding get_description
  sector_count =
      let count = r.cylinders * r.sectors_per_cylinder in
      omega (arith, z.no_overflow, count-le count r.bytes_per_sector z.sector_pos)

  sector_range :
      (addr : ℕ)
      → addr < r.cylinders * r.sectors_per_cylinder
      → addr * r.bytes_per_sector + r.bytes_per_sector ≤ length r.storage
  sector_range addr h =
      let count = r.cylinders * r.sectors_per_cylinder in
      omega (arith, z.size, sector_end addr count r.bytes_per_sector h)

  offset_lem :
      (addr : ℕ)
      → addr < r.cylinders * r.sectors_per_cylinder
      → RamDisk.offset r addr ≡ addr * r.bytes_per_sector
  offset_lem addr h = omega (arith, z.no_overflow, z.size, sector_range addr h)

  length-sector :
      (bytes : Bytes)
      → r.bytes_per_sector ≤ length bytes
      → length (take r.bytes_per_sector bytes) ≡ r.bytes_per_sector
  length-sector bytes h = omega (arith, length-take r.bytes_per_sector bytes)

  -- The sectors after a write.
  sector-splice :
      (addr : ℕ) (bytes : Bytes)
      → addr < r.cylinders * r.sectors_per_cylinder
      → length bytes ≡ r.bytes_per_sector
      → (λ i.
          slice
            (splice r.storage (addr * r.bytes_per_sector) bytes)
            (i * r.bytes_per_sector)
            r.bytes_per_sector)
        ≡ update (λ i. slice r.storage (i * r.bytes_per_sector) r.bytes_per_sector) addr bytes
  sector-splice addr bytes h len = fun_ext λ i. elim (order i addr) [
    | inl lt ↦
        rw (ne i addr (omega arith))
          (slice-splice_before r.storage (addr * b) bytes (i * b) b (sector_end i addr b lt))
    | inr (inl e) ↦
        rw (e, same addr) (slice-splice_at r.storage (addr * b) bytes b len (sector_range addr h))
    | inr (inr gt) ↦ rw (ne i addr (omega arith)) (
        slice-splice_after r.storage (addr * b) bytes (i * b) b
          (omega (arith, sector_end addr i b gt)))
  ]
    where
      b : ℕ
      b = r.bytes_per_sector

      ne : (i k : ℕ) → i ≢ k → (i == k) ≡ false
      ne i k h = ground arith

      same : (i : ℕ) → (i == i) ≡ true
      same i = ground arith

      order : (i k : ℕ) → (i < k) ⊎ ((i ≡ k) ⊎ (k < i))
      order i k = omega arith

  view-written :
      (addr : ℕ) (bytes : Bytes)
      → addr < r.cylinders * r.sectors_per_cylinder
      → length bytes ≡ r.bytes_per_sector
      → view (record r { storage = splice r.storage (RamDisk.offset r addr) bytes })
        ≡ record { description = get_description r; sector = update (view r).sector addr bytes }
  unfolding view
  view-written addr bytes h len = rw (offset_lem addr h) (
      ap {B = Disk} (λ f. record { description = get_description r; sector = f })
        (sector-splice addr bytes h len))

  -- Reading a sector of a well-formed `ram_disk` is reading that sector of its disk.
  pub read_refines : (addr : ℕ) → view_run (read addr r) ≡ read_sector addr (view r)
  unfolding read read_sector view
  read_refines addr = ground (arith, sector_count, sector_range addr, offset_lem addr)

  -- Writing a sector of a well-formed `ram_disk` is writing that sector of its disk.
  pub write_refines :
      (addr : ℕ) (bytes : Bytes) → view_run (write addr bytes r) ≡ write_sector addr bytes (view r)
  unfolding write write_sector view
  write_refines addr bytes = ground (
    arith,
    sector_count,
    sector_range addr,
    offset_lem addr,
    length-sector bytes,
    view-written addr (take r.bytes_per_sector bytes),
  )
