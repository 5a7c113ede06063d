-- ===== src/Fs/Folder/Refuse.antt =====
-- The errors of `create` and `remove` of src/fs.h: which one is thrown, and that nothing has
-- changed then.
use coursework_file_system.Prelude.{
  ℕ, ◌%◌, ◌^◌, ◌≡◌, Bool, true, false, not, Option, none, some, List, length, leb, ◌==◌,
  if◌then◌else◌, arith,
}
use coursework_file_system.Bytes.{Bytes}
use coursework_file_system.Run.{
  ErrorCode, thrown, fs_name_invalid, fs_name_too_long, fs_capacity_exceeded, fs_name_already_exist,
  fs_name_not_exist, fs_busy_handle,
}
use coursework_file_system.Table.{lookup}
use coursework_file_system.Node.{DirectoryNode, name_length_max}
use coursework_file_system.Disk.{Disk}
use coursework_file_system.Fs.{Env, is_name_valid}
use coursework_file_system.Fs.Mounted.{mounted, read_node-done}
use coursework_file_system.Fs.Folder.{create, create_new, remove, remove_found, is_child}
use coursework_file_system.Fs.Folder.Layout.{Nodes, FolderAt}
use coursework_file_system.Fs.Folder.Search.{search, scan-FolderAt}
use coursework_file_system.Fs.Folder.Create.{has_name}

abbrev pub is_some {ℓ} : {A : Type ℓ} → Option A → Bool
is_some none = false
is_some (some _) = true

-- The reason for which `create` refuses a name, the first that applies.
unfoldable pub create_refusal : DirectoryNode → Nodes → Bytes → Option ErrorCode
create_refusal node cs name =
    if not (is_name_valid name)
    then some fs_name_invalid
    else if leb name_length_max (length name)
    then some fs_name_too_long
    else if node.header.entries == node.header.entries_capacity
    then some fs_capacity_exceeded
    else if is_some (search (has_name name) cs 0)
    then some fs_name_already_exist
    else none

-- The reason for which `remove` refuses; a child is in use when the table has its address modulo
-- 2 ^ 32.
abbrev pub busy_refusal : List (ℕ × ℕ) → Option (ℕ × ℕ) → Option ErrorCode
busy_refusal counts none = some fs_name_not_exist
busy_refusal counts (some (i, p)) =
    if is_some (lookup (p % 2 ^ 32) counts) then some fs_busy_handle else none

unfoldable pub remove_refusal : List (ℕ × ℕ) → Nodes → Bytes → Bool → Option ErrorCode
remove_refusal counts cs name is_folder =
    busy_refusal counts (search (is_child is_folder name) cs 0)

remove_found-refusal :
    (d : Disk) (max : ℕ) (counts : List (ℕ × ℕ)) (addr : ℕ) (node : DirectoryNode)
    (found : Option (ℕ × ℕ)) (e : ErrorCode)
    → busy_refusal counts found ≡ some e
    → remove_found addr node found (mounted d max counts) ≡ thrown e (mounted d max counts)
unfolding remove_found
remove_found-refusal d max counts addr node none e h = ground arith
remove_found-refusal d max counts addr node (some (i, p)) e h = ground arith

module _ (d : Disk) (max : ℕ) (counts : List (ℕ × ℕ)) (first addr : ℕ) (node : DirectoryNode)
    (cs : Nodes) (at : FolderAt d first addr node cs) where
  -- In a folder as `FolderAt` says, where `create_refusal` gives an error `create` throws it and
  -- changes nothing.
  pub create-refusal :
      (env : Env) (name : Bytes) (is_folder : Bool) (e : ErrorCode)
      → create_refusal node cs name ≡ some e
      → create env addr name is_folder (mounted d max counts) ≡ thrown e (mounted d max counts)
  unfolding create create_refusal create_new
  create-refusal env name is_folder e h = ground (
    arith,
    read_node-done d max counts at.holds,
    scan-FolderAt d max counts first addr node cs at (has_name name),
  )

  -- In a folder as `FolderAt` says, where `remove_refusal` gives an error `remove` throws it and
  -- changes nothing.
  pub remove-refusal :
      (name : Bytes) (is_folder : Bool) (e : ErrorCode)
      → remove_refusal counts cs name is_folder ≡ some e
      → remove addr name is_folder (mounted d max counts) ≡ thrown e (mounted d max counts)
  unfolding remove remove_refusal
  remove-refusal name is_folder e h =
      rw
        (
          read_node-done d max counts at.holds,
          scan-FolderAt d max counts first addr node cs at (is_child is_folder name),
        )
        (remove_found-refusal d max counts addr node (search (is_child is_folder name) cs 0) e h)
