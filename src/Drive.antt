-- ===== src/Drive.antt =====
-- `virtual_drive` of src/virtual_drive.h: the checks of its constructor, and one round of
-- `request_receiver`. The mapped file is a list of bytes, which the constructor's system calls
-- (open, lseek, write, mmap) give with the length asked for; their failures are in Drive/Launch. The
-- head's travel is a wait in microseconds.
pub mod Checks
pub mod Store
pub mod Launch
use Prim.Native.Nat.{bit_and}
use coursework_file_system.Prelude.{
  ℕ, ◌+◌, ◌-◌, ◌*◌, ◌/◌, ◌%◌, ◌^◌, Bool, true, false, not, ◌||◌, take, Option, none, some, List, [],
  ◌∷◌, ltb, leb, length, ◌==◌, if◌then◌else◌,
}
use coursework_file_system.Bytes.{Bytes}
use coursework_file_system.Memory.{read_range, memcpy}
use coursework_file_system.Run.{
  Run, done, thrown, undefined, Cmd, ErrorCode, virtual_drive_invalid_args,
}
use coursework_file_system.Disk.{Description}
use coursework_file_system.Misc.{power_of_2}

pub record Drive : Type 0 where
  pub cylinders : ℕ
  pub sectors_per_cylinder : ℕ
  pub bytes_per_sector : ℕ
  pub disk_size : ℕ
  pub addr_size : ℕ
  pub sector_addr_bits : ℕ
  pub sector_addr_bitmask : ℕ
  pub sim_move_cost : ℕ
  pub file_data : Bytes
  pub receiver_loop : Bool

-- `disk_size_`; where the product wraps in between makes no difference.
abbrev pub product : ℕ → ℕ → ℕ → ℕ
product b s c = b * s * c % 2 ^ 64

abbrev pub is_none : Option ℕ → Bool
is_none none = true
is_none (some _) = false

abbrev pub exponent : Option ℕ → ℕ
exponent none = 0
exponent (some k) = k

-- What the constructor's checks refuse: cylinders, sectors per cylinder, bytes per sector.
unfoldable pub refused : ℕ → ℕ → ℕ → Bool
refused c s b =
    is_none (power_of_2 b) || (is_none (power_of_2 s) || not (product b s c / b / s == c))

-- The constructor, on the content that the file has once it has `disk_size` bytes.
unfoldable pub open_drive : ℕ → ℕ → ℕ → ℕ → (ℕ → Bytes) → Run (Unit {0}) Drive
unfolding refused
open_drive c s b cost content =
    if refused c s b
    then thrown virtual_drive_invalid_args tt
    else done
        (record {
          cylinders = c;
          sectors_per_cylinder = s;
          bytes_per_sector = b;
          disk_size = product b s c;
          addr_size = s * c % 2 ^ 64;
          sector_addr_bits = exponent (power_of_2 s);
          sector_addr_bitmask = s - 1;
          sim_move_cost = cost;
          file_data = content (product b s c);
          receiver_loop = true;
        })
        tt

abbrev pub cylinder_no : Drive → ℕ → ℕ
cylinder_no d addr = addr / 2 ^ d.sector_addr_bits

abbrev pub sector_no : Drive → ℕ → ℕ
sector_no d addr = bit_and addr d.sector_addr_bitmask

-- A request with its transaction number, and what follows it on the connection: for a write as many
-- bytes as a sector has.
pub data IoRequest : Type 0 where
  read_sector_at : ℕ → ℕ → IoRequest
  write_sector_at : ℕ → ℕ → Bytes → IoRequest
  describe shut_down unknown_io : ℕ → IoRequest

-- A reply: the transaction number, and what the instruction adds to it.
pub data IoReply : Type 0 where
  sector_content : ℕ → Bytes → IoReply
  acknowledged : ℕ → IoReply
  described : ℕ → Description → IoReply
  silent : IoReply

abbrev pub dist : ℕ → ℕ → ℕ
dist a b = if ltb b a then a - b else b - a

-- The `usleep` in front of an access, whose argument has 32 bits.
abbrev pub travel : Drive → ℕ → ℕ → ℕ
travel d prev next = if prev == next then 0 else dist prev next * d.sim_move_cost % 2 ^ 32

-- The drive and `prev_cylinder_no`.
pub record Receiver : Type 0 where
  pub drive : Drive
  pub prev_cylinder_no : ℕ

-- The reply and the wait in front of it.
abbrev pub Answer : Type 0
Answer = IoReply × ℕ

abbrev pub file_offset : Drive → ℕ → ℕ
file_offset d addr = addr * d.bytes_per_sector % 2 ^ 64

unfoldable pub sent : ℕ → ℕ → ℕ → Option Bytes → Cmd Receiver Answer
sent tid next wait none r = undefined
sent tid next wait (some bytes) r =
    done (sector_content tid bytes, wait) (record r { prev_cylinder_no = next })

unfoldable pub received : ℕ → ℕ → ℕ → Option Bytes → Cmd Receiver Answer
received tid next wait none r = undefined
received tid next wait (some file) r =
    let d = r.drive in
    done (acknowledged tid, wait)
      (record { drive = record d { file_data = file }; prev_cylinder_no = next })

-- The `switch` of `request_receiver`. An address past the end of the file is not checked.
unfoldable pub serve_io : IoRequest → Cmd Receiver Answer
unfolding sent received
serve_io (read_sector_at tid addr) r =
    let d = r.drive in
    let next = cylinder_no d addr in
    sent tid next (travel d r.prev_cylinder_no next)
      (read_range d.file_data (file_offset d addr) d.bytes_per_sector) r
serve_io (write_sector_at tid addr bytes) r =
    let d = r.drive in
    let next = cylinder_no d addr in
    received tid next (travel d r.prev_cylinder_no next)
      (memcpy d.file_data (file_offset d addr) (take d.bytes_per_sector bytes)) r
serve_io (describe tid) r =
    let d = r.drive in
    let description : Description = record {
      cylinders = d.cylinders;
      sectors_per_cylinder = d.sectors_per_cylinder;
      bytes_per_sector = d.bytes_per_sector;
    } in
    done (described tid description, 0) r
serve_io (shut_down tid) r =
    let d = r.drive in
    done (acknowledged tid, 0) (record r { drive = record d { receiver_loop = false } })
serve_io (unknown_io tid) r = done (silent, 0) r
