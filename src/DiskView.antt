-- ===== src/DiskView.antt =====
-- `disk_view` of src/disk_view.h: a sector read as a struct of 256 bytes, and a struct written to
-- a sector. On a disk whose sectors are not 256 bytes long a read runs over the struct, or leaves
-- a part of it indeterminate; both count as undefined behaviour.
use coursework_file_system.Prelude.{ℕ, ◌<◌, ◌≡◌, arith, length, ◌==◌, if◌then◌else◌, sym, ◌∙◌}
use coursework_file_system.Bytes.{Bytes}
use coursework_file_system.Run.{done, Cmd, pure, fault, ◌>>=◌}
use coursework_file_system.Disk.{
  Disk, sectors, update, read_sector, write_sector, write_sector-done,
}

abbrev pub block_size : ℕ
block_size = 0x100

bytes_per_sector : Cmd Disk ℕ
bytes_per_sector d = done d.description.bytes_per_sector d

-- `storage_proxy::operator T`; `decode` is the struct's layout.
unfoldable pub read_as : {A : Type 0} → (Bytes → A) → ℕ → Cmd Disk A
unfolding bytes_per_sector
read_as decode addr = do
  bytes ← read_sector addr
  size ← bytes_per_sector
  if size == block_size then pure (decode bytes) else fault

-- `storage_proxy::operator=`
unfoldable pub write_as : {A : Type 0} → (A → Bytes) → ℕ → A → Cmd Disk (Unit {0})
write_as encode addr value = write_sector addr (encode value)

-- `read_raw` and `write_raw` through a `char` buffer of 256 bytes.
unfoldable pub read_raw : ℕ → Cmd Disk Bytes
unfolding read_as
read_raw = read_as (λ bytes. bytes)

unfoldable pub write_raw : ℕ → Bytes → Cmd Disk (Unit {0})
write_raw = write_sector

-- The disk after a write of 256 bytes.
abbrev pub stored : Disk → ℕ → Bytes → Disk
stored d addr bytes = record d { sector = update d.sector addr bytes }

module _ (d : Disk) (ready : d.description.bytes_per_sector ≡ block_size) (addr : ℕ)
    (valid : addr < sectors d.description) where
  pub read_as-done :
      {A : Type 0} (decode : Bytes → A) → read_as decode addr d ≡ done (decode (d.sector addr)) d
  unfolding read_as read_sector
  read_as-done decode = ground arith

  pub read_raw-done : read_raw addr d ≡ done (d.sector addr) d
  unfolding read_raw
  read_raw-done = read_as-done (λ bytes. bytes)

  pub write_raw-done :
      (bytes : Bytes)
      → length bytes ≡ block_size
      → write_raw addr bytes d ≡ done tt (stored d addr bytes)
  unfolding write_raw
  write_raw-done bytes h = write_sector-done d addr bytes valid (h ∙ sym ready)

  pub write_as-done :
      {A : Type 0} (encode : A → Bytes) (value : A)
      → length (encode value) ≡ block_size
      → write_as encode addr value d ≡ done tt (stored d addr (encode value))
  unfolding write_as
  write_as-done encode value h = unfold write_raw in write_raw-done (encode value) h
