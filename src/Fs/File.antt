-- ===== src/Fs/File.antt =====
-- `fs_file_handle` of src/fs.h: `read_all` and `write_all`.
pub mod Layout
pub mod Read
pub mod Grow
pub mod Fill
pub mod Write
pub mod RoundTrip
use coursework_file_system.Prelude.{
  ℕ, zero, suc, ◌+◌, ◌-◌, ◌*◌, ◌/◌, ◌%◌, ◌^◌, Option, none, some, List, [], ◌∷◌, ◌++◌, length, take,
  drop, replicate, leb, ltb, ◌==◌, if◌then◌else◌,
}
use coursework_file_system.Bytes.{Bytes}
use coursework_file_system.Memory.{memcpy, read_range}
use coursework_file_system.Run.{Run, done, Cmd, pure, fault, ◌>>=◌, ◌>>◌}
use coursework_file_system.Node.{DirectoryNode, extent_addr, set_extent_addr, set_extent_len}
use coursework_file_system.DiskView.{read_raw, write_raw}
use coursework_file_system.Allocator.{new_block}
use coursework_file_system.Fs.{FileSystem, read_node, write_node, on_disk, on_allocator}
use coursework_file_system.Fs.Folder.{defined}

-- Where `char buf[256]` takes its first content from.
abbrev pub Stack : Type 0
Stack = Bytes

-- `for (i = …; i < entries - 1; ++i) disk_[extent(i).disk_addr].read_raw(ret.data() + i * 0x100)`
-- with the number of rounds left.
unfoldable pub read_blocks : DirectoryNode → ℕ → ℕ → Bytes → Cmd FileSystem Bytes
unfolding on_disk memcpy
read_blocks node zero i ret = pure ret
read_blocks node (suc k) i ret = do
  addr ← defined (extent_addr node i)
  block ← on_disk (read_raw addr)
  ret ← defined (memcpy ret (i * 0x100) block)
  read_blocks node k (i + 1) ret

-- `ret.resize((node.size_blocks - 1) * 0x100 + node.size_offset)` in `uint32_t`.
abbrev pub stored_size : DirectoryNode → ℕ
stored_size node = ((node.size_blocks + 2 ^ 32 - 1) * 0x100 + node.size_offset) % 2 ^ 32

-- `node.header.entries - 1` is an `int` that the comparison with a `uint32_t` takes modulo 2 ^ 32.
abbrev pub rounds : DirectoryNode → ℕ
rounds node = (node.header.entries + 2 ^ 32 - 1) % 2 ^ 32

read_tail : DirectoryNode → Bytes → Cmd FileSystem Bytes
unfolding on_disk memcpy read_range
read_tail node ret = do
  addr ← defined (extent_addr node (node.header.entries - 1))
  buf ← on_disk (read_raw addr)
  tail ← defined (read_range buf 0 node.size_offset)
  defined (memcpy ret ((node.header.entries - 1) * 0x100) tail)

-- `read_all`. A file without extents but with a size would index below the first extent.
unfoldable pub read_all : ℕ → Cmd FileSystem Bytes
unfolding read_blocks read_tail
read_all addr = do
  node ← read_node addr
  if node.size_blocks == 0 then pure [] else if node.header.entries == 0 then fault else do
    ret ← read_blocks node (rounds node) 0 (replicate (stored_size node) 0)
    read_tail node ret

-- `new_blocks` and `new_offset` of a text of `n` characters.
abbrev pub blocks_for : ℕ → ℕ
blocks_for n = (n + 0xFF) / 0x100

abbrev pub offset_for : ℕ → ℕ
offset_for n = (n + 0xFF) % 0x100 + 1

-- `extent(i)` is written in bounds up to 8 extents.
assign_extent : DirectoryNode → ℕ → ℕ → Cmd FileSystem DirectoryNode
assign_extent node i addr =
    if ltb i 8 then pure (set_extent_len (set_extent_addr node i addr) i 1) else fault

-- `for (i = node.header.entries; i < new_blocks; ++i)`, with the number of rounds left.
unfoldable pub add_extents : DirectoryNode → ℕ → ℕ → Cmd FileSystem DirectoryNode
unfolding assign_extent
add_extents node zero i = pure node
add_extents node (suc k) i = do
  addr ← on_allocator new_block
  node ← assign_extent node i addr
  add_extents node k (i + 1)

-- The loop that writes all blocks but the last. `text` is the C string with its NUL.
unfoldable pub write_blocks : DirectoryNode → Bytes → ℕ → ℕ → Cmd FileSystem (Unit {0})
unfolding on_disk read_range
write_blocks node text zero i = pure tt
write_blocks node text (suc k) i = do
  addr ← defined (extent_addr node i)
  block ← defined (read_range text (i * 0x100) 0x100)
  on_disk (write_raw addr block)
  write_blocks node text k (i + 1)

unfoldable pub write_tail : Stack → DirectoryNode → Bytes → ℕ → ℕ → Cmd FileSystem (Unit {0})
unfolding on_disk memcpy read_range
write_tail stack node text blocks offset = do
  tail ← defined (read_range text ((blocks - 1) * 0x100) offset)
  buf ← defined (memcpy stack 0 tail)
  addr ← defined (extent_addr node (blocks - 1))
  on_disk (write_raw addr buf)

-- The node with its new sizes; `entries` is a `uint16_t`, `size_blocks` a `uint32_t`.
abbrev pub resized : DirectoryNode → ℕ → ℕ → DirectoryNode
resized node blocks offset =
    let header = node.header in
    record node {
      header = record header { entries = blocks % 2 ^ 16 };
      size_blocks = blocks % 2 ^ 32;
      size_offset = offset;
    }

-- `write_all` of the C string `bytes`. For the empty text the loop's bound wraps to 2 ^ 32 - 1,
-- and its first round reads past the end of the text.
unfoldable pub write_all : Stack → ℕ → Bytes → Cmd FileSystem (Unit {0})
unfolding add_extents write_blocks write_tail
write_all stack addr bytes = do
  node ← read_node addr
  let blocks = blocks_for (length bytes)
  let offset = offset_for (length bytes)
  node ← add_extents node (blocks - node.header.entries) node.header.entries
  let node = resized node blocks offset
  let text = bytes ++ (0 ∷ [])
  write_blocks node text (rounds node) 0
  write_tail stack node text blocks offset
  write_node addr node
