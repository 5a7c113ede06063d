-- ===== src/Fs/Mounted.antt =====
-- The file system of src/fs.h between two operations: the allocator's cache is empty. What its
-- basic steps do to the disk.
use coursework_file_system.Prelude.{ℕ, ◌≡◌, ◌<◌, ◌∙◌, List, length, ==_self}
use coursework_file_system.Bytes.{Bytes}
use coursework_file_system.Run.{done}
use coursework_file_system.Node.{DirectoryNode, DirectoryFits}
use coursework_file_system.Node.Codec.{
  encode_directory, decode_directory, decode_directory-encode_directory, length-encode_directory,
}
use coursework_file_system.Disk.{Disk, sectors}
use coursework_file_system.DiskView.{
  block_size, stored, read_raw, write_raw, read_as-done, write_as-done, read_raw-done,
  write_raw-done,
}
use coursework_file_system.Allocator.{new_block}
use coursework_file_system.Allocator.Leaf.{idle}
use coursework_file_system.Fs.{FileSystem, alloc_root, on_disk, on_allocator, read_node, write_node}

abbrev pub mounted : Disk → ℕ → List (ℕ × ℕ) → FileSystem
mounted d max counts = record {
  allocator = idle d alloc_root;
  max_blocks = max;
  handle_instance_count = counts;
}

-- Sector `addr` holds the directory node `node`.
pub record Holds (d : Disk) (addr : ℕ) (node : DirectoryNode) : Type 0 where
  pub ready : d.description.bytes_per_sector ≡ block_size
  pub valid : addr < sectors d.description
  pub bytes : d.sector addr ≡ encode_directory node
  pub fits : DirectoryFits node

-- A sector that a change of the disk spares holds what it held.
pub Holds-frame :
    {d d' : Disk} {addr : ℕ} {node : DirectoryNode}
    → Holds d addr node
    → d'.description ≡ d.description
    → d'.sector addr ≡ d.sector addr
    → Holds d' addr node
Holds-frame h same kept = record {
  ready = rw same h.ready;
  valid = rw same h.valid;
  bytes = kept ∙ h.bytes;
  fits = h.fits;
}

pub Holds-stored :
    (d : Disk) (addr : ℕ) (node : DirectoryNode)
    → d.description.bytes_per_sector ≡ block_size
    → addr < sectors d.description
    → DirectoryFits node
    → Holds (stored d addr (encode_directory node)) addr node
Holds-stored d addr node ready valid fits = record {
  ready = ready;
  valid = valid;
  bytes = rw (==_self addr);
  fits = fits;
}

module _ (d : Disk) (max : ℕ) (counts : List (ℕ × ℕ)) where
  pub read_node-done :
      {addr : ℕ} {node : DirectoryNode}
      → Holds d addr node
      → read_node addr (mounted d max counts) ≡ done node (mounted d max counts)
  unfolding read_node
  read_node-done {addr} {node} h = rw (
    read_as-done d h.ready addr h.valid decode_directory,
    h.bytes,
    decode_directory-encode_directory node h.fits,
  )

  pub write_node-done :
      (addr : ℕ) (node : DirectoryNode)
      → d.description.bytes_per_sector ≡ block_size
      → addr < sectors d.description
      → DirectoryFits node
      → write_node addr node (mounted d max counts)
        ≡ done tt (mounted (stored d addr (encode_directory node)) max counts)
  unfolding write_node
  write_node-done addr node ready valid fits =
      rw
        (write_as-done d ready addr valid encode_directory node (length-encode_directory node fits))

  pub read_block-done :
      (addr : ℕ)
      → d.description.bytes_per_sector ≡ block_size
      → addr < sectors d.description
      → on_disk (read_raw addr) (mounted d max counts) ≡ done (d.sector addr) (mounted d max counts)
  unfolding on_disk
  read_block-done addr ready valid = rw (read_raw-done d ready addr valid)

  pub write_block-done :
      (addr : ℕ) (bytes : Bytes)
      → d.description.bytes_per_sector ≡ block_size
      → addr < sectors d.description
      → length bytes ≡ block_size
      → on_disk (write_raw addr bytes) (mounted d max counts)
        ≡ done tt (mounted (stored d addr bytes) max counts)
  unfolding on_disk
  write_block-done addr bytes ready valid len = rw (write_raw-done d ready addr valid bytes len)

  pub new_block-mounted :
      (d' : Disk) (block : ℕ)
      → new_block (idle d alloc_root) ≡ done block (idle d' alloc_root)
      → on_allocator new_block (mounted d max counts) ≡ done block (mounted d' max counts)
  unfolding on_allocator
  new_block-mounted d' block call = rw call
