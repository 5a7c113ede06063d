-- ===== src/Tests/RawWitness.antt =====
-- The theorem on src/raw_shell.h for a disk of eight sectors of three bytes, and lines that are
-- typed.
use coursework_file_system.Prelude.{
  ℕ, ◌<◌, ◌≡◌, refl, [], ◌∷◌, ◌++◌, ◌&&◌, ◌==◌, if◌then◌else◌, replicate, arith,
}
use coursework_file_system.Bytes.{Bytes}
use coursework_file_system.Run.{ErrorCode, done}
use coursework_file_system.Disk.{Disk}
use coursework_file_system.Shell.{chars}
use coursework_file_system.RawShell.{
  RawShell, read_at, write_at, refused, unknown_command, opened, styled_yes, execute,
  parse_raw_line, trimmed,
}
use coursework_file_system.RawShell.Store.{Ready, padded, execute-write_at}
use coursework_file_system.Tests.ShellWitness.{read_number, digits}

abbrev ones : Disk
ones = record {
  description = record { cylinders = 4; sectors_per_cylinder = 2; bytes_per_sector = 3 };
  sector = λ a. replicate 3 1;
}

abbrev raw : RawShell
raw = opened ones

raw-Ready : Ready raw
raw-Ready = record {
  cylinders = refl;
  sectors_per_cylinder = refl;
  bytes_per_sector = refl;
  room = refl;
  size = omega arith;
  sized = λ a h. refl;
}

abbrev message : ErrorCode → Bytes
message e = b'!' ∷ []

execute-write_at_example :
    (r1 : RawShell) × (execute digits message (write_at 3 1 (7 ∷ [])) raw ≡ done tt r1)
    × (r1.output ≡ styled_yes ++ (10 ∷ []))
    × ((c' s' : ℕ)
        → c' < 4
        → s' < 2
        → (r2 : RawShell) × (execute digits message (read_at c' s') r1 ≡ done tt r2)
          × (r2.output
              ≡ r1.output
                ++ ((styled_yes
                      ++ (32 ∷ (if c' == 3 && s' == 1 then padded 3 (7 ∷ []) else 1 ∷ 1 ∷ 1 ∷ [])))
                    ++ (10 ∷ []))))
execute-write_at_example =
    execute-write_at raw raw-Ready 3 1 (omega arith) (omega arith) digits message (7 ∷ [])

typed_write : parse_raw_line read_number (chars "W 0 1  ab c ") ≡ write_at 0 1 (chars "ab c ")
unfolding parse_raw_line trimmed
typed_write = refl

typed_nothing : parse_raw_line read_number (chars "W 0 1") ≡ write_at 0 1 []
unfolding parse_raw_line trimmed
typed_nothing = refl

typed_letter : parse_raw_line read_number (chars "W a") ≡ refused
unfolding parse_raw_line trimmed
typed_letter = refl

typed_word : parse_raw_line read_number (chars " aaa") ≡ unknown_command (chars "aaa")
unfolding parse_raw_line trimmed
typed_word = refl
