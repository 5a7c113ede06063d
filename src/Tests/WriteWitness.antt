-- ===== src/Tests/WriteWitness.antt =====
-- The theorems on src/fs_server.h that write to a file, on a formatted disk of 64 sectors.
use coursework_file_system.Prelude.{
  ◌<◌, ◌≤◌, ◌≡◌, refl, true, false, [], ◌∷◌, replicate, length, arith,
}
use coursework_file_system.Bytes.{Bytes}
use coursework_file_system.Run.{done}
use coursework_file_system.CString.{c_str, same_text, has_char}
use coursework_file_system.CString.Laws.{c_str-IsText}
use coursework_file_system.Node.{DirectoryNode, default_folder, name_length_max}
use coursework_file_system.Disk.{Disk}
use coursework_file_system.Fs.{is_name_valid}
use coursework_file_system.Fs.Mounted.{mounted}
use coursework_file_system.Fs.Handle.{Handle}
use coursework_file_system.Fs.Folder.{append_pointer, create}
use coursework_file_system.Fs.Folder.Create.{Created, create-HasRoom}
use coursework_file_system.Fs.Folder.Search.{search}
use coursework_file_system.Protocol.{reply_ok}
use coursework_file_system.Server.{Session, reply, text, serve, mk, cat, write}
use coursework_file_system.Server.Write.{serve_cat-write}
use coursework_file_system.Server.Fresh.{
  serve-IsFormatted, HasRoom-IsFormatted, FileAt-Created, OwnBlocks-Created, found,
}
use coursework_file_system.Tests.Basic.{zero_env}
use coursework_file_system.Tests.Disks.{env_fits, empty_disk, empty_disk-IsFormatted}

abbrev stack : Bytes
stack = replicate 0x100 0

abbrev hello : Bytes
hello = replicate 300 b'h'

abbrev ab : Bytes
ab = b'a' ∷ b'b' ∷ []

abbrev root_node : DirectoryNode
root_node = default_folder zero_env.node_memory 7

abbrev root_handle : Handle
root_handle = record { addr = 0; abandoned = false }

abbrev session : Session
session = record { fs = mounted empty_disk 64 []; current_folder = root_handle; path = b'/' ∷ [] }

ab-short : length (c_str ab) < name_length_max
unfolding c_str
ab-short = omega arith

ab-valid : is_name_valid (c_str ab) ≡ true
unfolding c_str is_name_valid same_text has_char
ab-valid = refl

hello-length : (0 < length (c_str hello)) × (length (c_str hello) ≤ 2048)
unfolding c_str
hello-length = (omega arith, omega arith)

serve-IsFormatted_example :
    (s1 : Session) × (s2 : Session) × (s3 : Session) × (serve zero_env stack (mk false ab) session
      ≡ done (reply reply_ok ∷ []) s1)
    × (serve zero_env stack (write ab hello) s1 ≡ done (reply reply_ok ∷ []) s2)
    × (serve zero_env stack (cat ab) s2 ≡ done (reply reply_ok ∷ text (c_str hello) ∷ []) s3)
serve-IsFormatted_example =
    serve-IsFormatted zero_env env_fits empty_disk empty_disk-IsFormatted (omega arith) 64 [] stack
      (b'/' ∷ []) ab hello ab-valid ab-short refl hello-length.0 hello-length.1

-- The file "ab" that `create` puts into the sector 3.
made :
    (d' : Disk) × (child : DirectoryNode) × (create zero_env 0
        (c_str ab)
        false
        (mounted empty_disk 64 [])
      ≡ done tt (mounted d' 64 []))
    × Created empty_disk d' 3 61 0 root_node [] (c_str ab) false child
unfolding search
made =
    create-HasRoom empty_disk 64 [] 3 61 0 root_node [] zero_env (c_str ab) false
      (HasRoom-IsFormatted zero_env env_fits empty_disk empty_disk-IsFormatted (omega arith))
      env_fits (c_str-IsText ab) ab-valid ab-short refl

serve_cat-write_example :
    (s1 : Session) × (s2 : Session) × (serve zero_env stack
        (write ab hello)
        (record { fs = mounted made.0 64 []; current_folder = root_handle; path = b'/' ∷ [] })
      ≡ done (reply reply_ok ∷ []) s1)
    × (serve zero_env stack (cat ab) s1 ≡ done (reply reply_ok ∷ text (c_str hello) ∷ []) s2)
serve_cat-write_example =
    serve_cat-write made.0 64 [] 4 60 3 (append_pointer root_node 3) made.1 ((3, made.1) ∷ [])
      (λ i. i) root_handle made.3.folder
      (OwnBlocks-Created zero_env env_fits empty_disk empty_disk-IsFormatted (omega arith) made.3)
      zero_env stack (b'/' ∷ []) ab hello 0
      (FileAt-Created zero_env env_fits empty_disk empty_disk-IsFormatted (omega arith) made.3)
      (found zero_env env_fits empty_disk empty_disk-IsFormatted (omega arith) made.3) refl
      hello-length.0 hello-length.1 (omega (arith, hello-length.1, made.3.empty))
      (rw made.3.description (omega (arith, hello-length.1, made.3.empty)))
