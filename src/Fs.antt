-- ===== src/Fs.antt =====
-- `file_system` of src/fs.h: its state, how its members reach the disk and the allocator, the
-- constructor and `format`. `data_mutex_` makes each operation one step. The disk is shared with
-- the allocator, and stands in the allocator's state.
pub mod Mounted
pub mod Format
pub mod Volume
pub mod Handle
pub mod Folder
pub mod File
use coursework_file_system.Prelude.{
  ℕ, ◌+◌, ◌-◌, ◌%◌, ◌^◌, Bool, true, false, not, ◌&&◌, ◌||◌, Option, none, some, List, [], ◌∷◌,
  ◌==◌, if◌then◌else◌,
}
use coursework_file_system.Bytes.{Bytes}
use coursework_file_system.Run.{Run, done, Cmd, pure, ◌>>=◌, ◌>>◌, within}
use coursework_file_system.CString.{same_text, has_char}
use coursework_file_system.Node.{
  DirectoryNode, AllocatorNode, Extent, magic_number, default_folder, default_root,
}
use coursework_file_system.Node.Codec.{
  encode_directory, decode_directory, encode_allocator, decode_allocator,
}
use coursework_file_system.Disk.{Disk, sectors}
use coursework_file_system.DiskView.{read_as, write_as, read_raw, write_raw}
use coursework_file_system.Allocator.{Allocator, new_block}

pub record FileSystem : Type 0 where
  pub allocator : Allocator
  pub max_blocks : ℕ
  pub handle_instance_count : List (ℕ × ℕ)

-- Fixed sectors: FILE_ROOT, ALLOC_ROOT; RESERVED_BLOCKS is the first that is free.
abbrev pub file_root : ℕ
file_root = 0

abbrev pub alloc_root : ℕ
alloc_root = 1

abbrev pub reserved_blocks : ℕ
reserved_blocks = 3

unfoldable pub on_allocator : {A : Type 0} → Cmd Allocator A → Cmd FileSystem A
on_allocator m fs = within (λ s a. record s { allocator = a }) fs (m fs.allocator)

unfoldable pub on_disk : {A : Type 0} → Cmd Disk A → Cmd FileSystem A
on_disk m fs =
    let put = λ (s : FileSystem) (d : Disk).
      let a = s.allocator in record s { allocator = record a { disk = d } } in
    within put fs (m fs.allocator.disk)

-- `directory_node node = disk_[addr]` and `disk_[addr] = node`
unfoldable pub read_node : ℕ → Cmd FileSystem DirectoryNode
unfolding on_disk
read_node addr = on_disk (read_as decode_directory addr)

unfoldable pub write_node : ℕ → DirectoryNode → Cmd FileSystem (Unit {0})
unfolding on_disk
write_node addr node = on_disk (write_as encode_directory addr node)

-- `is_name_valid`
unfoldable pub is_name_valid : Bytes → Bool
unfolding same_text has_char
is_name_valid [] = false
is_name_valid (c ∷ s) =
    not (same_text (c ∷ s) (b'.' ∷ []))
    && (not (same_text (c ∷ s) (b'.' ∷ b'.' ∷ [])) && not (has_char b'/' (c ∷ s)))

-- The stack memory that `default_folder`, `default_file` and `default_root` fill in, and the time.
pub record Env : Type 0 where
  pub node_memory : DirectoryNode
  pub root_memory : AllocatorNode
  pub now : ℕ

-- `max_blocks_ - RESERVED_BLOCKS` wraps on a disk of fewer than three sectors.
unfoldable pub format : Env → Cmd FileSystem (Unit {0})
unfolding on_disk write_node
format env fs =
    (do
      write_node file_root (default_folder env.node_memory env.now)
      let extent : Extent = record {
        disk_block_no = reserved_blocks;
        len = (fs.max_blocks + 2 ^ 64 - reserved_blocks) % 2 ^ 64;
      }
      on_disk (write_as encode_allocator alloc_root (default_root env.root_memory extent)))
      fs

-- The object before the constructor's body runs.
abbrev pub fresh : Disk → FileSystem
fresh d = record {
  allocator = record { disk = d; alloc_root = alloc_root; node_cache = []; node_dirty = [] };
  max_blocks = sectors d.description;
  handle_instance_count = [];
}

unfoldable pub check_magic : Env → Cmd FileSystem (Unit {0})
unfolding on_disk read_node format
check_magic env = do
  folder ← read_node file_root
  root ← on_disk (read_as decode_allocator alloc_root)
  if not (folder.magic == magic_number) || not (root.header.magic == magic_number)
      then format env
      else pure tt

-- The constructor: a disk without the magic numbers is formatted.
unfoldable pub open_disk : Env → Disk → Run FileSystem (Unit {0})
unfolding check_magic
open_disk env d = check_magic env (fresh d)
