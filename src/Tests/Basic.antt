-- ===== src/Tests/Basic.antt =====
-- A session on a small disk.
use coursework_file_system.Prelude.{true, false, List, [], ◌∷◌, replicate}
use coursework_file_system.Bytes.{Bytes}
use coursework_file_system.Run.{Run, done, ◌>>=◌, ◌>>◌, and_then, thrown, undefined}
use coursework_file_system.Node.{fresh_header}
use coursework_file_system.Disk.{Disk}
use coursework_file_system.Fs.{FileSystem, Env, open_disk}
use coursework_file_system.Fs.Folder.{create, list, open_file}
use coursework_file_system.Fs.File.{read_all, write_all}

-- Memory that happens to be zero.
abbrev pub zero_env : Env
zero_env = record {
  node_memory = record {
    magic = 0;
    attrib_bits = 0;
    access_bits = 0;
    owner_id = 0;
    size_blocks = 0;
    size_offset = 0;
    timestamp = 0;
    name = replicate 72 0;
    header = fresh_header 0;
    data_words = replicate 16 0;
  };
  root_memory = record {
    header = fresh_header 0;
    free_blocks = 0;
    max_cont_blocks = 0;
    tree_words = replicate 26 0;
  };
  now = 7;
}

-- A disk of 64 cleared sectors.
abbrev pub zero_disk : Disk
zero_disk = record {
  description = record { cylinders = 1; sectors_per_cylinder = 64; bytes_per_sector = 256 };
  sector = λ addr. replicate 256 0;
}

session : Run FileSystem (List Bytes)
session =
    and_then (open_disk zero_env zero_disk)
      λ _. do create zero_env 0 (b'a' ∷ b'b' ∷ []) false; create zero_env 0 (b'd' ∷ []) true; list 0

abbrev value : {A : Type 0} → A → Run FileSystem A → A
value a (done b s) = b
value a (thrown e s) = a
value a undefined = a

session_value : List Bytes
session_value = value [] session

text_value : Bytes
text_value = value [] (
    and_then (open_disk zero_env zero_disk) λ _. do
      create zero_env 0 (b'a' ∷ b'b' ∷ []) false
      f ← open_file 0 (b'a' ∷ b'b' ∷ [])
      write_all (replicate 256 9) f (replicate 600 b'x')
      write_all (replicate 256 9) f (replicate 260 b'y')
      read_all f)
