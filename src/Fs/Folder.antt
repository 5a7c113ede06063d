-- ===== src/Fs/Folder.antt =====
-- `fs_folder_handle` of src/fs.h. A member takes the address of the folder that the handle names.
-- A result of type handle is its address, and its construction is counted.
-- The source writes `node.parent_addr`, which `directory_node` does not have; the only
-- `parent_addr` of the struct is that of its header, and it stands for that here.
pub mod Layout
pub mod Search
pub mod Child
pub mod Create
pub mod Refuse
pub mod Gap
pub mod Remove
pub mod Rewrite
use coursework_file_system.Prelude.{
  ℕ, zero, suc, ◌+◌, ◌-◌, ◌%◌, ◌^◌, Bool, true, false, not, ◌&&◌, Option, none, some, List, [], ◌∷◌,
  ◌++◌, length, take, drop, leb, ◌==◌, if◌then◌else◌,
}
use coursework_file_system.Bytes.{Bytes}
use coursework_file_system.Run.{
  Run, done, thrown, Cmd, pure, throw, fault, ◌>>=◌, ◌>>◌, fs_busy_handle, fs_capacity_exceeded,
  fs_name_not_exist, fs_name_already_exist, fs_name_too_long, fs_name_invalid,
}
use coursework_file_system.Table.{lookup}
use coursework_file_system.CString.{c_str, same_text, strcpy}
use coursework_file_system.Node.{
  DirectoryNode, folder_bit, file_pointer, set_file_pointer, name_length_max, default_folder,
  default_file,
}
use coursework_file_system.Allocator.{new_block, delete_block}
use coursework_file_system.Fs.{
  FileSystem, Env, file_root, read_node, write_node, on_allocator, is_name_valid,
}
use coursework_file_system.Fs.Handle.{construction}

-- `node.file_pointer(i)` out of bounds is undefined.
abbrev pub defined : {A : Type 0} → Option A → Cmd FileSystem A
defined none = fault
defined (some a) = pure a

-- `return {fs_, addr}`
unfoldable pub new_handle : ℕ → Cmd FileSystem ℕ
new_handle addr fs =
    done addr (record fs { handle_instance_count = construction addr fs.handle_instance_count })

abbrev pub same_type : Bool → Bool → Bool
same_type true b = b
same_type false b = not b

-- The child that the loops of `open`, `open_folder` and `remove` look for.
abbrev pub is_child : Bool → Bytes → DirectoryNode → Bool
is_child folder name child =
    same_type folder (folder_bit child) && same_text (c_str child.name) name

-- `for (uint32_t i = …; i < node.header.entries; ++i)`: the first index from `i` on whose child
-- passes the test; the number is that of the rounds left.
unfoldable pub find_child :
    (DirectoryNode → Bool) → DirectoryNode → ℕ → ℕ → Cmd FileSystem (Option (ℕ × ℕ))
find_child test node zero i = pure none
find_child test node (suc k) i = do
  addr ← defined (file_pointer node i)
  child ← read_node addr
  if test child then pure (some (i, addr)) else find_child test node k (i + 1)

-- The handle of a found child, or the error.
opened : Option (ℕ × ℕ) → Cmd FileSystem ℕ
unfolding new_handle
opened none = throw fs_name_not_exist
opened (some (i, addr)) = new_handle addr

-- `open`
unfoldable pub open_file : ℕ → Bytes → Cmd FileSystem ℕ
unfolding find_child opened
open_file addr name = do
  node ← read_node addr
  found ← find_child (is_child false name) node node.header.entries 0
  opened found

-- `open_folder`
unfoldable pub open_folder : ℕ → Bytes → Cmd FileSystem ℕ
unfolding find_child opened new_handle
open_folder addr name = if same_text name (b'.' ∷ []) then new_handle addr else do
  node ← read_node addr
  if same_text name (b'.' ∷ b'.' ∷ [])
      then new_handle (if addr == file_root then addr else node.header.parent_addr)
      else do found ← find_child (is_child true name) node node.header.entries 0; opened found

-- The new child, with the name and the parent that `create` gives it.
unfoldable pub named : DirectoryNode → ℕ → Option Bytes → Cmd FileSystem DirectoryNode
named node parent none = fault
named node parent (some name) =
    let header = node.header in
    pure (record node { name = name; header = record header { parent_addr = parent } })

abbrev pub fresh_node : Env → Bool → DirectoryNode
fresh_node env true = default_folder env.node_memory env.now
fresh_node env false = default_file env.node_memory env.now

-- `node.file_pointer(entries) = addr; ++node.header.entries;`
abbrev pub append_pointer : DirectoryNode → ℕ → DirectoryNode
append_pointer node addr =
    let header = node.header in
    let grown = set_file_pointer node header.entries addr in
    record grown { header = record header { entries = (header.entries + 1) % 2 ^ 16 } }

-- The part of `create` behind its checks.
add_child : Env → ℕ → DirectoryNode → Bytes → Bool → Cmd FileSystem (Unit {0})
unfolding named
add_child env addr node name is_folder = do
  let new_node = fresh_node env is_folder
  new_node ← named new_node addr (strcpy new_node.name name)
  new_addr ← on_allocator new_block
  defined (file_pointer node node.header.entries)
  write_node new_addr new_node
  write_node addr (append_pointer node new_addr)

-- The duplicate check and what follows.
create_new : Env → ℕ → DirectoryNode → Bytes → Bool → Option (ℕ × ℕ) → Cmd FileSystem (Unit {0})
unfolding add_child
create_new env addr node name is_folder none = add_child env addr node name is_folder
create_new env addr node name is_folder (some _) = throw fs_name_already_exist

-- `create`
unfoldable pub create : Env → ℕ → Bytes → Bool → Cmd FileSystem (Unit {0})
unfolding find_child create_new
create env addr name is_folder =
    if not (is_name_valid name)
    then throw fs_name_invalid
    else if leb name_length_max (length name)
    then throw fs_name_too_long
    else do
      node ← read_node addr
      if node.header.entries == node.header.entries_capacity then throw fs_capacity_exceeded else do
        found ← find_child (λ child. same_text (c_str child.name) name) node node.header.entries 0
        create_new env addr node name is_folder found

-- The 16 pointers after the `memmove` that closes the gap at `index`, with `entries` in use.
abbrev pub close_gap : List ℕ → ℕ → ℕ → List ℕ
close_gap words index entries =
    let count = entries - 1 - index in
    take index words ++ (take count (drop (index + 1) words) ++ drop (index + count) words)

abbrev pub remove_pointer : DirectoryNode → ℕ → DirectoryNode
remove_pointer node index =
    let header = node.header in
    record node {
      data_words = close_gap node.data_words index header.entries;
      header = record header { entries = header.entries - 1 };
    }

is_busy : ℕ → Cmd FileSystem Bool
is_busy addr fs =
    done (elim (lookup addr fs.handle_instance_count) [ none ↦ false | some _ ↦ true ]) fs

-- `remove` behind its search; `recycle_addr` is a `uint32_t`. The `memmove` stays inside the node
-- up to 16 entries.
remove_found : ℕ → DirectoryNode → Option (ℕ × ℕ) → Cmd FileSystem (Unit {0})
unfolding is_busy
remove_found addr node none = throw fs_name_not_exist
remove_found addr node (some (index, child)) = do
  let recycle_addr = child % 2 ^ 32
  busy ← is_busy recycle_addr
  if busy
      then throw fs_busy_handle
      else if leb node.header.entries 16
      then on_allocator (delete_block recycle_addr) >> write_node addr (remove_pointer node index)
      else fault

-- `remove`
unfoldable pub remove : ℕ → Bytes → Bool → Cmd FileSystem (Unit {0})
unfolding find_child remove_found
remove addr name is_folder = do
  node ← read_node addr
  found ← find_child (is_child is_folder name) node node.header.entries 0
  remove_found addr node found

-- A line of `list`: a folder's name ends in a slash.
unfoldable pub entry_text : DirectoryNode → Bytes
entry_text child = if folder_bit child then c_str child.name ++ (b'/' ∷ []) else c_str child.name

unfoldable pub list_from : DirectoryNode → ℕ → ℕ → Cmd FileSystem (List Bytes)
list_from node zero i = pure []
list_from node (suc k) i = do
  addr ← defined (file_pointer node i)
  child ← read_node addr
  rest ← list_from node k (i + 1)
  pure (entry_text child ∷ rest)

-- `list`
unfoldable pub list : ℕ → Cmd FileSystem (List Bytes)
unfolding list_from
list addr = do node ← read_node addr; list_from node node.header.entries 0
