-- ===== src/RawShell.antt =====
-- `raw_shell` of src/raw_shell.h on the disk of Disk: one round of `run`, from the line that the
-- user types to what is printed. How a stream reads and prints a `uint64_t` is a parameter, as is
-- the line that `operator<<` of src/utils/except.h prints. `shutdown` of the disk has no effect on
-- its sectors.
pub mod Store
use coursework_file_system.Prelude.{
  ℕ, suc, ◌+◌, ◌*◌, ◌%◌, ◌^◌, Bool, true, false, ◌&&◌, ◌||◌, Option, none, some, List, [], ◌∷◌,
  ◌++◌, ◌==◌, if◌then◌else◌, ltb, take, replicate,
}
use coursework_file_system.Bytes.{Bytes}
use coursework_file_system.Run.{
  ErrorCode, Run, done, thrown, undefined, Cmd, pure, within, ◌>>=◌, ◌>>◌,
}
use coursework_file_system.Memory.{memcpy, read_range}
use coursework_file_system.CString.{same_text}
use coursework_file_system.Disk.{Disk, read_sector, write_sector}
use coursework_file_system.Shell.{chars, escape, bold, red, styled, read_word}

-- What a line asks for.
pub data Line : Type 0 where
  blank info refused goodbye : Line
  read_at : ℕ → ℕ → Line
  write_at : ℕ → ℕ → Bytes → Line
  unknown_command : Bytes → Line

-- `data.erase(0, data.find_first_not_of(" \t\r\n"))`
unfoldable pub trimmed : Bytes → Bytes
trimmed [] = []
trimmed (c ∷ s) =
    let rest = trimmed s in if c == 32 || (c == 9 || (c == 13 || c == 10)) then rest else c ∷ s

module _ (read_number : Bytes → Option (ℕ × Bytes)) where
  -- `iss >> c >> s`, and what follows.
  abbrev pub two_numbers : Bytes → Option (ℕ × ℕ × Bytes)
  two_numbers text = elim (read_number text) [
    | none ↦ none
    | some p ↦ elim (read_number p.1) [ none ↦ none | some q ↦ some (p.0, q.0, q.1) ]
  ]

  abbrev pub line_of : Bytes → Bytes → Line
  line_of cmd rest =
      if same_text cmd (chars "I")
      then info
      else if same_text cmd (chars "R")
      then elim (two_numbers rest) [ none ↦ refused | some (c, s, data_) ↦ read_at c s ]
      else if same_text cmd (chars "W")
      then elim (two_numbers rest) [
        | none ↦ refused
        | some (c, s, data_) ↦ write_at c s (trimmed data_)
      ]
      else if same_text cmd (chars "E")
      then goodbye
      else unknown_command cmd

  unfoldable pub parse_raw_line : Bytes → Line
  unfolding read_word same_text
  parse_raw_line [] = blank
  parse_raw_line (c ∷ line) = elim (read_word (c ∷ line)) [
    | none ↦ line_of [] []
    | some p ↦ line_of p.0 p.1
  ]

-- The members, with the disk and what is printed.
pub record RawShell : Type 0 where
  pub disk : Disk
  pub cylinders : ℕ
  pub sectors_per_cylinder : ℕ
  pub bytes_per_sector : ℕ
  pub buf : Bytes
  pub output : Bytes

-- The constructor.
abbrev pub opened : Disk → RawShell
opened d =
    let g = d.description in
    record {
      disk = d;
      cylinders = g.cylinders;
      sectors_per_cylinder = g.sectors_per_cylinder;
      bytes_per_sector = g.bytes_per_sector;
      buf = replicate (g.bytes_per_sector + 1) 0;
      output = [];
    }

abbrev pub styled_yes : Bytes
unfolding styled
styled_yes = styled (chars "Yes") (escape "[32m") bold

abbrev pub styled_no : Bytes
unfolding styled
styled_no = styled (chars "No") red bold

abbrev pub print_raw : Bytes → Cmd RawShell (Unit {0})
print_raw t r = done tt (record r { output = r.output ++ (t ++ (10 ∷ [])) })

abbrev pub on_raw_disk : {A : Type 0} → Cmd Disk A → Cmd RawShell A
on_raw_disk m r = within (λ s d. record s { disk = d }) r (m r.disk)

-- `c < cylinders_ && s < sectors_per_cylinder_`
abbrev pub is_inside : RawShell → ℕ → ℕ → Bool
is_inside r c s = ltb c r.cylinders && ltb s r.sectors_per_cylinder

abbrev pub sector_addr : RawShell → ℕ → ℕ → ℕ
sector_addr r c s = (c * r.sectors_per_cylinder + s) % 2 ^ 64

-- Bytes that go to the front of `buf_`, or past its end.
abbrev pub fill : Option Bytes → Cmd RawShell (Unit {0})
fill none r = undefined
fill (some bytes) r = done tt (record r { buf = bytes })

abbrev pub print_found : Option Bytes → Cmd RawShell (Unit {0})
print_found none r = undefined
print_found (some bytes) r = print_raw (styled_yes ++ (32 ∷ bytes)) r

-- Past the checks of "R" and "W".
unfoldable pub read_inside : ℕ → ℕ → Cmd RawShell (Unit {0})
unfolding read_sector memcpy read_range
read_inside c s = do
  bytes ← λ r. on_raw_disk (read_sector (sector_addr r c s)) r
  λ r. fill (memcpy r.buf 0 bytes) r
  λ r. print_found (read_range r.buf 0 r.bytes_per_sector) r

unfoldable pub write_inside : ℕ → ℕ → Bytes → Cmd RawShell (Unit {0})
unfolding write_sector memcpy
write_inside c s data_ = do
  λ r. fill (memcpy (replicate (r.bytes_per_sector + 1) 0) 0 (take r.bytes_per_sector data_)) r
  λ r. on_raw_disk (write_sector (sector_addr r c s) r.buf) r
  print_raw styled_yes

module _ (shown : ErrorCode → Bytes) where
  -- The handler of `except`; the loop goes on.
  unfoldable pub reported : Run RawShell (Unit {0}) → Run RawShell (Unit {0})
  unfolding styled
  reported (done a r) = done a r
  reported (thrown e r) =
      done tt (record r { output = r.output ++ (styled (chars "[ERROR] ") red [] ++ shown e) })
  reported undefined = undefined

module _ (digits : ℕ → Bytes) (shown : ErrorCode → Bytes) where
  -- The cases of a line, but for the `break` of "E".
  unfoldable pub execute : Line → Cmd RawShell (Unit {0})
  unfolding read_inside write_inside reported
  execute blank r = done tt r
  execute info r = print_raw (digits r.cylinders ++ (32 ∷ digits r.sectors_per_cylinder)) r
  execute (read_at c s) r =
      reported shown (if is_inside r c s then read_inside c s r else print_raw styled_no r)
  execute (write_at c s data_) r =
      reported shown (if is_inside r c s then write_inside c s data_ r else print_raw styled_no r)
  execute refused r = print_raw styled_no r
  execute goodbye r = print_raw (chars "Goodbye!") r
  execute (unknown_command cmd) r = print_raw (chars "Unknown command: " ++ cmd) r
