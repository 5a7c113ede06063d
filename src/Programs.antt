-- ===== src/Programs.antt =====
-- The arguments of the programs: `main` of step1/disk.cpp, step1/client.cpp, step2/fs.cpp,
-- step2/client.cpp and step3/fs.cpp, up to the point where the program's parts are constructed.
pub mod Ports
use coursework_file_system.Prelude.{
  ℕ, ◌+◌, ◌-◌, ◌*◌, ◌^◌, ◌%◌, Bool, true, false, not, ◌&&◌, ◌||◌, Option, none, some, List, [], ◌∷◌,
  ◌++◌, ◌==◌, if◌then◌else◌, ltb, leb, length, drop,
}
use coursework_file_system.Bytes.{Bytes}
use coursework_file_system.Misc.{is_uint}
use coursework_file_system.CString.{same_text}
use coursework_file_system.Shell.{chars}

-- How `main` goes on: it prints the usage, or complains, and returns 1; an exception that nothing
-- catches ends it; or it constructs its parts with these values.
pub data Start (A : Type 0) : Type 0 where
  usage crash : Start A
  invalid_port : ℕ → Start A
  malformed : Bytes → Start A
  launch : A → Start A

abbrev pub decimal : Bytes → ℕ → ℕ
decimal [] n = n
decimal (c ∷ s) n = decimal s (n * 10 + (c - 48))

-- `std::stoull` on a text that passes `is_uint`. It throws on the empty text and on overflow.
unfoldable pub stoull : Bytes → Option ℕ
stoull [] = none
stoull (c ∷ s) = if ltb (decimal (c ∷ s) 0) (2 ^ 64) then some (decimal (c ∷ s) 0) else none

abbrev pub is_port : ℕ → Bool
is_port n = not (ltb n 1000 || ltb 65535 n)

abbrev pub port_of : Option ℕ → Start ℕ
port_of none = crash
port_of (some n) = if is_port n then launch (n % 2 ^ 16) else invalid_port n

-- The programs with one argument, a port.
unfoldable pub one_port : List Bytes → Start ℕ
one_port (program ∷ port ∷ []) = if is_uint port then port_of (stoull port) else usage
one_port _ = usage

-- step1/client.cpp
abbrev pub raw_client_args : List Bytes → Start ℕ
raw_client_args = one_port

-- step2/fs.cpp
abbrev pub fs_args : List Bytes → Start ℕ
fs_args = one_port

-- step2/client.cpp
abbrev pub fs_client_args : List Bytes → Start ℕ
fs_client_args = one_port

abbrev pub ports_of : Option ℕ → Option ℕ → Start (ℕ × ℕ)
ports_of none fs = crash
ports_of (some disk) none = crash
ports_of (some disk) (some fs) =
    if is_port fs
    then if is_port disk then launch (disk % 2 ^ 16, fs % 2 ^ 16) else invalid_port disk
    else invalid_port fs

-- step3/fs.cpp: the port of the disk and its own.
unfoldable pub two_ports : List Bytes → Start (ℕ × ℕ)
two_ports (program ∷ disk ∷ fs ∷ []) =
    if is_uint disk && is_uint fs then ports_of (stoull disk) (stoull fs) else usage
two_ports _ = usage

-- The variables of step1/disk.cpp.
pub record Options : Type 0 where
  pub cylinders : ℕ
  pub sectors_per_cylinder : ℕ
  pub bytes_per_sector : ℕ
  pub delay_us : ℕ
  pub port : ℕ
  pub filename : Bytes

abbrev pub defaults : Options
defaults = record {
  cylinders = 0;
  sectors_per_cylinder = 0;
  bytes_per_sector = 256;
  delay_us = 0;
  port = 0;
  filename = [];
}

pub data Flag : Type 0 where
  flag_c flag_s flag_b flag_d flag_p : Flag

abbrev pub flag_of : Bytes → Option Flag
flag_of arg =
    if same_text arg (chars "-c")
    then some flag_c
    else if same_text arg (chars "-s")
    then some flag_s
    else if same_text arg (chars "-b")
    then some flag_b
    else if same_text arg (chars "-d")
    then some flag_d
    else if same_text arg (chars "-p")
    then some flag_p
    else none

-- What a flag does with its number.
abbrev pub set_flag : Flag → ℕ → Options → Start Options
set_flag flag_c n o = launch (record o { cylinders = n })
set_flag flag_s n o = launch (record o { sectors_per_cylinder = n })
set_flag flag_b n o = launch (record o { bytes_per_sector = n })
set_flag flag_d n o = launch (record o { delay_us = n })
set_flag flag_p n o = if is_port n then launch (record o { port = n % 2 ^ 16 }) else invalid_port n

-- `arg[0] != '-'`
abbrev pub is_name : Bytes → Bool
is_name [] = true
is_name (c ∷ s) = not (c == b'-')

abbrev pub has_suffix : Bytes → Bool
has_suffix name = leb 4 (length name) && same_text (drop (length name - 4) name) (chars ".raw")

abbrev pub is_empty : Bytes → Bool
is_empty [] = true
is_empty (c ∷ s) = false

abbrev pub checked : Options → Start Options
checked o =
    if o.cylinders == 0 || (o.sectors_per_cylinder == 0 || (o.port == 0 || is_empty o.filename))
    then usage
    else if has_suffix o.filename
    then launch o
    else launch (record o { filename = o.filename ++ chars ".raw" })

-- The flag of an argument that a number follows.
abbrev pub flag_before : Bytes → Bytes → Option Flag
flag_before arg next = if is_uint next then flag_of arg else none

-- The loop over the arguments, and the checks behind it.
unfoldable pub disk_args : List Bytes → Options → Start Options
disk_args [] o = checked o
disk_args (arg ∷ []) o =
    if is_name arg then checked (record o { filename = arg }) else malformed arg
disk_args (arg ∷ next ∷ rest) o = elim (flag_before arg next) [
  | none ↦ elim (is_name arg) [
    | true ↦ disk_args (next ∷ rest) (record o { filename = arg })
    | false ↦ malformed arg
  ]
  | some flag ↦ elim (stoull next) [
    | none ↦ crash
    | some n ↦ elim (set_flag flag n o) [
      | usage ↦ usage
      | crash ↦ crash
      | invalid_port p ↦ invalid_port p
      | malformed a ↦ malformed a
      | launch o' ↦ disk_args rest o'
    ]
  ]
]
