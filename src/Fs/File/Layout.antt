-- ===== src/Fs/File/Layout.antt =====
-- How a file of src/fs.h lies on the disk.
use coursework_file_system.Prelude.{ℕ, ◌-◌, ◌*◌, ◌<◌, ◌≤◌, ◌≡◌, some, length, take}
use coursework_file_system.Bytes.{Bytes}
use coursework_file_system.Memory.{slice}
use coursework_file_system.Node.{DirectoryNode, extent_addr}
use coursework_file_system.Disk.{Disk, sectors}
use coursework_file_system.DiskView.{block_size}
use coursework_file_system.Fs.Mounted.{Holds}
use coursework_file_system.Fs.File.{blocks_for, offset_for}

-- Extent `i` of `node` is the sector `e` of the disk.
pub record Block (d : Disk) (node : DirectoryNode) (i e : ℕ) : Type 0 where
  pub pointer : extent_addr node i ≡ some e
  pub valid : e < sectors d.description
  pub size : length (d.sector e) ≡ block_size

-- The node at `addr` is that of a file with the content `bytes`, of 1 to 2048 bytes: the blocks in
-- front of the last are full, and the last one begins with the rest.
pub record FileHolds (d : Disk) (addr : ℕ) (node : DirectoryNode) (bytes : Bytes) : Type 0 where
  pub holds : Holds d addr node
  pub entries : node.header.entries ≡ blocks_for (length bytes)
  pub size_blocks : node.size_blocks ≡ blocks_for (length bytes)
  pub size_offset : node.size_offset ≡ offset_for (length bytes)
  pub nonempty : 0 < length bytes
  pub small : length bytes ≤ 2048
  pub full :
      (i : ℕ)
      → i < blocks_for (length bytes) - 1
      → (e : ℕ) × Block d node i e × (d.sector e ≡ slice bytes (i * 0x100) 0x100)
  pub last :
      (e : ℕ) × Block d node (blocks_for (length bytes) - 1) e
      × (take (offset_for (length bytes)) (d.sector e)
          ≡ slice bytes ((blocks_for (length bytes) - 1) * 0x100) (offset_for (length bytes)))
