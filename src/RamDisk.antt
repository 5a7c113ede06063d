-- ===== src/RamDisk.antt =====
-- `ram_disk` of src/ram_disk.h: all sectors in one array of bytes.
pub mod Refine
use coursework_file_system.Prelude.{
  ℕ, ◌*◌, ◌%◌, ◌^◌, Bool, Option, none, some, length, take, replicate, ltb, leb, if◌then◌else◌,
}
use coursework_file_system.Bytes.{Bytes}
use coursework_file_system.Memory.{read_range, memcpy}
use coursework_file_system.Run.{Run, done, thrown, undefined, Cmd, disk_addr_invalid}
use coursework_file_system.Disk.{Description}

pub record RamDisk : Type 0 where
  pub cylinders : ℕ
  pub sectors_per_cylinder : ℕ
  pub bytes_per_sector : ℕ
  pub storage : Bytes

-- The constructor: `new char[...]`, cleared by `memset`.
unfoldable pub create : ℕ → ℕ → ℕ → RamDisk
create cylinders sectors_per_cylinder bytes_per_sector = record {
  cylinders = cylinders;
  sectors_per_cylinder = sectors_per_cylinder;
  bytes_per_sector = bytes_per_sector;
  storage = replicate (cylinders * sectors_per_cylinder * bytes_per_sector % 2 ^ 64) 0;
}

abbrev pub is_valid_addr : RamDisk → ℕ → Bool
is_valid_addr r addr = ltb addr (r.cylinders * r.sectors_per_cylinder % 2 ^ 64)

-- `addr * bytes_per_sector_`, a `uint64_t`.
abbrev pub offset : RamDisk → ℕ → ℕ
offset r addr = addr * r.bytes_per_sector % 2 ^ 64

copied_out : RamDisk → Option Bytes → Run RamDisk Bytes
copied_out r none = undefined
copied_out r (some bytes) = done bytes r

unfoldable pub read : ℕ → Cmd RamDisk Bytes
unfolding read_range copied_out
read addr r =
    if is_valid_addr r addr
    then copied_out r (read_range r.storage (offset r addr) r.bytes_per_sector)
    else thrown disk_addr_invalid r

copied_in : RamDisk → Option Bytes → Run RamDisk (Unit {0})
copied_in r none = undefined
copied_in r (some storage) = done tt (record r { storage = storage })

-- `memcpy` reads a whole sector of the caller's buffer.
unfoldable pub write : ℕ → Bytes → Cmd RamDisk (Unit {0})
unfolding memcpy copied_in
write addr bytes r =
    if is_valid_addr r addr
    then if leb r.bytes_per_sector (length bytes)
      then copied_in r (memcpy r.storage (offset r addr) (take r.bytes_per_sector bytes))
      else undefined
    else thrown disk_addr_invalid r

unfoldable pub get_description : RamDisk → Description
get_description r = record {
  cylinders = r.cylinders;
  sectors_per_cylinder = r.sectors_per_cylinder;
  bytes_per_sector = r.bytes_per_sector;
}
