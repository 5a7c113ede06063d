-- ===== src/Tests/ServerWitness.antt =====
-- The theorems on the handles of src/fs.h, on its files and on src/fs_server.h, at concrete disks.
use coursework_file_system.Prelude.{ℕ, ◌≡◌, refl, false, some, [], ◌∷◌, replicate, arith}
use coursework_file_system.Bytes.{Bytes}
use coursework_file_system.Run.{done, fs_name_invalid, fs_name_not_exist}
use coursework_file_system.CString.{c_str, same_text, has_char}
use coursework_file_system.Node.{DirectoryNode, folder_bit, default_folder}
use coursework_file_system.Disk.{Disk}
use coursework_file_system.Fs.{is_name_valid}
use coursework_file_system.Fs.Mounted.{mounted}
use coursework_file_system.Fs.Handle.{Handle, construction, destroy, construct}
use coursework_file_system.Fs.Handle.Count.{
  IsCounted, Steps-IsCounted, constructs, destroys, stop, go, uses,
}
use coursework_file_system.Fs.Folder.{is_child}
use coursework_file_system.Fs.Folder.Layout.{FolderAt}
use coursework_file_system.Fs.Folder.Search.{search}
use coursework_file_system.Fs.Folder.Refuse.{create_refusal, remove_refusal}
use coursework_file_system.Fs.File.{read_all, write_all}
use coursework_file_system.Fs.File.Layout.{FileHolds}
use coursework_file_system.Fs.File.Read.{read_all-FileHolds}
use coursework_file_system.Fs.File.RoundTrip.{Written, write_all-FileAt}
use coursework_file_system.Protocol.{reply_ok}
use coursework_file_system.Table.{lookup}
use coursework_file_system.Server.{Session, reply, text, cat}
use coursework_file_system.Server.Path.{
  moved_along, step_along, moved_along-path_text, IsWalk, path_body, step,
}
use coursework_file_system.Server.Cat.{serve_cat-FileHolds}
use coursework_file_system.Node.{default_file, DirectoryFits}
use coursework_file_system.Node.Codec.{encode_directory}
use coursework_file_system.DiskView.{stored}
use coursework_file_system.Fs.Mounted.{Holds}
use coursework_file_system.Shell.{Shell, receive}
use coursework_file_system.Shell.Agree.{Leaves, arrived, receive-serve}
use coursework_file_system.Tests.Basic.{zero_env, zero_disk}
use coursework_file_system.Tests.Disks.{empty_disk, file_node, file_disk, file_disk-FileAt}

abbrev stack : Bytes
stack = replicate 0x100 0

abbrev hello : Bytes
hello = replicate 300 b'h'

abbrev ab : Bytes
ab = b'a' ∷ b'b' ∷ []

abbrev root_node : DirectoryNode
root_node = default_folder zero_env.node_memory 7

-- The file of 300 characters that `write_all` leaves.
written :
    (d' : Disk) × (node' : DirectoryNode) × (ext' : ℕ → ℕ) × (write_all stack 2 hello
        (mounted file_disk 64 [])
      ≡ done tt (mounted d' 64 []))
    × Written file_disk d' 3 61 2 file_node node' (λ i. i) ext' hello
written =
    write_all-FileAt file_disk 64 [] 3 61 2 file_node (λ i. i) stack hello file_disk-FileAt refl
      (omega arith) (omega arith) (omega arith) (omega arith)

read_all-FileHolds_example :
    read_all 2 (mounted written.0 64 []) ≡ done hello (mounted written.0 64 [])
read_all-FileHolds_example = read_all-FileHolds written.0 64 [] 2 written.1 hello written.4.content

slash-invalid : create_refusal root_node [] (b'a' ∷ b'/' ∷ []) ≡ some fs_name_invalid
unfolding create_refusal is_name_valid same_text has_char
slash-invalid = refl

ab-missing : remove_refusal [] [] ab false ≡ some fs_name_not_exist
unfolding remove_refusal search
ab-missing = refl

abbrev root_handle : Handle
root_handle = record { addr = 0; abandoned = false }

abbrev session : Session
session = record { fs = mounted empty_disk 64 []; current_folder = root_handle; path = b'/' ∷ [] }

none-IsCounted : IsCounted [] []
unfolding uses lookup
none-IsCounted = (omega arith, λ a. refl)

route_slashless : IsWalk ((b'a' ∷ []) ∷ (b'.' ∷ b'.' ∷ []) ∷ (b'b' ∷ []) ∷ [])
unfolding has_char
route_slashless = (refl, (refl, (refl, tt)))

moved_along-path_text_example :
    moved_along ((b'a' ∷ []) ∷ (b'.' ∷ b'.' ∷ []) ∷ (b'b' ∷ []) ∷ []) (b'/' ∷ [])
    ≡ b'/' ∷ b'b' ∷ b'/' ∷ []
unfolding path_body step_along step same_text
moved_along-path_text_example =
    moved_along-path_text ((b'a' ∷ []) ∷ (b'.' ∷ b'.' ∷ []) ∷ (b'b' ∷ []) ∷ []) [] route_slashless
      tt

Steps-IsCounted_example : IsCounted [] (destroy root_handle (construction 0 []))
unfolding construct
Steps-IsCounted_example =
    Steps-IsCounted
      (go [] (root_handle ∷ []) [] [] (construction 0 []) (destroy root_handle (construction 0 []))
        (constructs [] [] 0 false (omega arith))
        (go (root_handle ∷ []) [] [] (construction 0 []) (destroy root_handle (construction 0 []))
          (destroy root_handle (construction 0 [])) (destroys [] (construction 0 []) root_handle)
          (stop [] (destroy root_handle (construction 0 [])))))
      none-IsCounted

-- A file "" with the content "x" in the sectors 2 and 3, in the root folder.
abbrev x_node : DirectoryNode
x_node =
    let header = file_node.header in
    record file_node {
      size_blocks = 1;
      size_offset = 1;
      header = record header { entries = 1 };
      data_words = 3 ∷ replicate 15 0;
    }

abbrev x_root : DirectoryNode
x_root =
    let header = root_node.header in
    record root_node { header = record header { entries = 1 }; data_words = 2 ∷ replicate 15 0 }

abbrev x_disk : Disk
x_disk =
    stored (stored (stored zero_disk 0 (encode_directory x_root)) 2 (encode_directory x_node)) 3
      (b'x' ∷ replicate 255 0)

x_node-DirectoryFits : DirectoryFits x_node
unfolding default_file
x_node-DirectoryFits = ground arith

x_root-DirectoryFits : DirectoryFits x_root
unfolding default_folder
x_root-DirectoryFits = ground arith

x_node-Holds : Holds x_disk 2 x_node
x_node-Holds = record {
  ready = refl;
  valid = omega arith;
  bytes = refl;
  fits = x_node-DirectoryFits;
}

x_root-FolderAt : FolderAt x_disk 4 0 x_root ((2, x_node) ∷ [])
unfolding default_folder
x_root-FolderAt = record {
  holds = record { ready = refl; valid = omega arith; bytes = refl; fits = x_root-DirectoryFits };
  below = omega arith;
  not_root = omega arith;
  count = refl;
  small = omega arith;
  children = (refl, x_node-Holds, tt);
  apart = ((omega arith, omega arith, omega arith), tt);
}

x_node-FileHolds : FileHolds x_disk 2 x_node (b'x' ∷ [])
unfolding default_file
x_node-FileHolds = record {
  holds = x_node-Holds;
  entries = refl;
  size_blocks = refl;
  size_offset = refl;
  nonempty = omega arith;
  small = omega arith;
  full = λ i h. absurd (omega arith);
  last = (3, record { pointer = refl; valid = omega arith; size = refl }, refl);
}

x_node-found : search (is_child false []) ((2, x_node) ∷ []) 0 ≡ some (0, 2)
unfolding search default_file folder_bit c_str same_text
x_node-found = refl

abbrev shell : Shell
shell = record { path_prompt = b'/' ∷ []; inbox = []; output = [] }

receive-serve_example :
    Leaves
      (reply 0x31 ∷ [])
      (receive (cat []) (arrived shell (reply reply_ok ∷ text (b'x' ∷ []) ∷ reply 0x31 ∷ [])))
unfolding c_str
receive-serve_example =
    receive-serve zero_env stack (cat [])
      (record { fs = mounted x_disk 64 []; current_folder = root_handle; path = b'/' ∷ [] })
      (record {
        fs =
            mounted x_disk 64
              (destroy (record { addr = 2; abandoned = false }) (construction 2 []));
        current_folder = root_handle;
        path = b'/' ∷ [];
      })
      (reply reply_ok ∷ text (b'x' ∷ []) ∷ []) shell (reply 0x31 ∷ [])
      (serve_cat-FileHolds x_disk 64 [] 4 x_root ((2, x_node) ∷ []) root_handle x_root-FolderAt
        zero_env stack (b'/' ∷ []) [] (b'x' ∷ []) 0 2 x_node x_node-found x_node-FileHolds)
      (λ e. cc) tt
