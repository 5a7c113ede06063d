-- ===== src/Tests/FsWitness.antt =====
-- The theorems on the file system of src/fs.h and on src/fs_server.h, at concrete disks.
use coursework_file_system.Prelude.{ℕ, ◌≡◌, ◌≢◌, refl, true, false, some, [], ◌∷◌, replicate, arith}
use coursework_file_system.Bytes.{Bytes}
use coursework_file_system.Run.{done, thrown, fs_name_invalid, fs_name_not_exist}
use coursework_file_system.CString.{same_text, has_char}
use coursework_file_system.CString.Laws.{IsText, same_text_self}
use coursework_file_system.Node.{DirectoryNode, default_folder}
use coursework_file_system.Disk.{Disk}
use coursework_file_system.Allocator.Free.{Free}
use coursework_file_system.Fs.{FileSystem, alloc_root, is_name_valid, format, open_disk}
use coursework_file_system.Fs.Mounted.{mounted}
use coursework_file_system.Fs.Format.{
  IsFormatted, format-IsFormatted, has_magic, open_disk-IsFormatted,
}
use coursework_file_system.Fs.Folder.{
  create, remove, open_folder, append_pointer, is_child, remove_pointer,
}
use coursework_file_system.Fs.Folder.Layout.{FolderAt}
use coursework_file_system.Fs.Folder.Search.{search, handle_on, open_folder-FolderAt}
use coursework_file_system.Fs.Folder.Create.{HasRoom, Created, create-HasRoom}
use coursework_file_system.Fs.Folder.Gap.{remove_at}
use coursework_file_system.Fs.Folder.Remove.{remove-FolderAt}
use coursework_file_system.Fs.Folder.Refuse.{
  create_refusal, remove_refusal, create-refusal, remove-refusal,
}
use coursework_file_system.Fs.File.{read_all, write_all}
use coursework_file_system.Fs.File.RoundTrip.{Written, write_all-FileAt, read_all-write_all}
use coursework_file_system.Table.{lookup}
use coursework_file_system.Tests.Basic.{zero_env, zero_disk}
use coursework_file_system.Tests.Disks.{
  env_fits, root_fits, empty_disk, empty_disk-IsFormatted, empty_disk-Free, file_node, file_disk,
  file_disk-FileAt,
}

abbrev stack : Bytes
stack = replicate 0x100 0

abbrev hello : Bytes
hello = replicate 300 b'h'

abbrev root_node : DirectoryNode
root_node = default_folder zero_env.node_memory 7

read_all-write_all_example :
    (fs : FileSystem) × (write_all stack 2 hello (mounted file_disk 64 []) ≡ done tt fs)
    × (read_all 2 fs ≡ done hello fs)
read_all-write_all_example =
    read_all-write_all file_disk 64 [] 3 61 2 file_node (λ i. i) stack hello file_disk-FileAt refl
      (omega arith) (omega arith) (omega arith) (omega arith)

write_all-FileAt_example :
    (d' : Disk) × (node' : DirectoryNode) × (ext' : ℕ → ℕ) × (write_all stack 2 hello
        (mounted file_disk 64 [])
      ≡ done tt (mounted d' 64 []))
    × Written file_disk d' 3 61 2 file_node node' (λ i. i) ext' hello
write_all-FileAt_example =
    write_all-FileAt file_disk 64 [] 3 61 2 file_node (λ i. i) stack hello file_disk-FileAt refl
      (omega arith) (omega arith) (omega arith) (omega arith)

abbrev ab : Bytes
ab = b'a' ∷ b'b' ∷ []

has_room : HasRoom empty_disk 3 61 0 root_node []
unfolding default_folder
has_room = record {
  at = empty_disk-IsFormatted.root;
  free = empty_disk-Free;
  more = omega arith;
  on_disk = omega arith;
  reserved = omega arith;
  below_capacity = omega arith;
  room = omega arith;
}

ab-IsText : IsText ab
ab-IsText = ground arith

ab-valid : is_name_valid ab ≡ true
unfolding is_name_valid same_text has_char
ab-valid = refl

create-HasRoom_example :
    (d' : Disk) × (child : DirectoryNode) × (create zero_env 0 ab false (mounted empty_disk 64 [])
      ≡ done tt (mounted d' 64 []))
    × Created empty_disk d' 3 61 0 root_node [] ab false child
unfolding search
create-HasRoom_example =
    create-HasRoom empty_disk 64 [] 3 61 0 root_node [] zero_env ab false has_room env_fits
      ab-IsText ab-valid (omega arith) refl

-- The disk after `create` of the file "ab".
made :
    (d' : Disk) × (child : DirectoryNode) × (create zero_env 0 ab false (mounted empty_disk 64 [])
      ≡ done tt (mounted d' 64 []))
    × Created empty_disk d' 3 61 0 root_node [] ab false child
unfolding search
made =
    create-HasRoom empty_disk 64 [] 3 61 0 root_node [] zero_env ab false has_room env_fits
      ab-IsText ab-valid (omega arith) refl

abbrev made_disk : Disk
made_disk = made.0

abbrev child : DirectoryNode
child = made.1

abbrev made_node : DirectoryNode
made_node = append_pointer root_node 3

made-Created : Created empty_disk made_disk 3 61 0 root_node [] ab false child
made-Created = made.3

made-found : search (is_child false ab) ((3, child) ∷ []) 0 ≡ some (0, 3)
unfolding search
made-found = rw (made-Created.typed, made-Created.named, same_text_self ab) refl

open_folder-FolderAt_example :
    open_folder 0 (b'.' ∷ b'.' ∷ []) (mounted made_disk 64 []) ≡ handle_on made_disk 64 [] 0
unfolding same_text
open_folder-FolderAt_example =
    open_folder-FolderAt made_disk 64 [] 4 0 made_node ((3, child) ∷ []) made-Created.folder
      (b'.' ∷ b'.' ∷ [])

remove-FolderAt_example :
    (d' : Disk) × (remove 0 ab false (mounted made_disk 64 []) ≡ done tt (mounted d' 64 []))
    × FolderAt d' 4 0 (remove_pointer made_node 0) (remove_at 0 ((3, child) ∷ []))
    × Free d' alloc_root 4 60
    × ((a : ℕ) → a ≢ 0 → d'.sector a ≡ made_disk.sector a)
    × (d'.description ≡ made_disk.description)
unfolding lookup
remove-FolderAt_example =
    remove-FolderAt made_disk 64 [] 4 60 0 made_node ((3, child) ∷ []) ab false 0 3
      made-Created.folder made-Created.free made-found refl

slash-invalid : create_refusal root_node [] (b'a' ∷ b'/' ∷ []) ≡ some fs_name_invalid
unfolding create_refusal is_name_valid same_text has_char
slash-invalid = refl

ab-missing : remove_refusal [] [] ab false ≡ some fs_name_not_exist
unfolding remove_refusal search
ab-missing = refl

create-refusal_example :
    create zero_env 0 (b'a' ∷ b'/' ∷ []) true (mounted empty_disk 64 [])
    ≡ thrown fs_name_invalid (mounted empty_disk 64 [])
create-refusal_example =
    create-refusal empty_disk 64 [] 3 0 root_node [] empty_disk-IsFormatted.root zero_env
      (b'a' ∷ b'/' ∷ []) true fs_name_invalid slash-invalid

remove-refusal_example :
    remove 0 ab false (mounted empty_disk 64 [])
    ≡ thrown fs_name_not_exist (mounted empty_disk 64 [])
remove-refusal_example =
    remove-refusal empty_disk 64 [] 3 0 root_node [] empty_disk-IsFormatted.root ab false
      fs_name_not_exist ab-missing

format-IsFormatted_example :
    (d' : Disk) × (format zero_env (mounted zero_disk 64 []) ≡ done tt (mounted d' 64 []))
    × IsFormatted zero_env d'
    × (d'.description ≡ zero_disk.description)
format-IsFormatted_example =
    format-IsFormatted zero_env env_fits root_fits zero_disk refl (omega arith) []

open_disk-IsFormatted_example :
    (has_magic zero_disk ≡ true → open_disk zero_env zero_disk ≡ done tt (mounted zero_disk 64 []))
    × (has_magic zero_disk ≡ false
        → (d' : Disk) × (open_disk zero_env zero_disk ≡ done tt (mounted d' 64 []))
          × IsFormatted zero_env d')
open_disk-IsFormatted_example =
    open_disk-IsFormatted zero_env env_fits root_fits zero_disk refl (omega arith)
