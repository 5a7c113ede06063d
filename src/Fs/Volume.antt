-- ===== src/Fs/Volume.antt =====
-- The whole volume of src/fs.h: which sectors hold the node of a folder or of a file, and what makes
-- these lie well on the disk next to each other. A removed entry keeps its sectors, as the
-- allocator takes nothing back, and so it stays here.
pub mod Frame
pub mod Create
pub mod Remove
pub mod Write
pub mod Format
pub mod Operations
use coursework_file_system.Prelude.{
  ℕ, suc, refl, ap, length, ◌+◌, ◌<◌, ◌≤◌, ◌≡◌, ◌≢◌, ◌⊎◌, Bool, true, false, Option, none, some,
  List, [], ◌∷◌, map, All,
}
use coursework_file_system.Bytes.{Bytes}
use coursework_file_system.Node.{DirectoryNode, folder_bit}
use coursework_file_system.Disk.{Disk, sectors}
use coursework_file_system.Allocator.Free.{Free}
use coursework_file_system.Fs.{alloc_root, file_root, reserved_blocks}
use coursework_file_system.Fs.Mounted.{Holds}
use coursework_file_system.Fs.Folder.Layout.{Nodes, FolderAt}
use coursework_file_system.Fs.File.Grow.{Extents}
use coursework_file_system.Fs.File.Layout.{FileHolds}

-- A folder with the addresses of its children, or a file with its extents and its content.
pub data Item : Type 0 where
  folder : List ℕ → Item
  file : (ℕ → ℕ) → Bytes → Item

-- The node and the item at each address that is in use.
pub record Volume : Type 0 where
  pub nodes : ℕ → DirectoryNode
  pub items : ℕ → Option Item

abbrev pub view : (ℕ → DirectoryNode) → List ℕ → Nodes
view nodes ps = map (λ p. (p, nodes p)) ps

pub length-view : (nodes : ℕ → DirectoryNode) (ps : List ℕ) → length (view nodes ps) ≡ length ps
length-view nodes [] = refl
length-view nodes (p ∷ ps) = ap suc (length-view nodes ps)

abbrev pub Known : Volume → ℕ → Type 0
Known v a = (it : Item) × (v.items a ≡ some it)

-- A folder whose children are known, and whose parent is a folder.
pub record IsFolder (d : Disk) (first : ℕ) (v : Volume) (a : ℕ) (ps : List ℕ) : Type 0 where
  pub at : FolderAt d first a (v.nodes a) (view v.nodes ps)
  pub typed : folder_bit (v.nodes a) ≡ true
  pub capacity : (v.nodes a).header.entries_capacity ≡ 16
  pub known : All (Known v) ps
  pub parent : (qs : List ℕ) × (v.items (v.nodes a).header.parent_addr ≡ some (folder qs))

-- The content of a file that lies on the disk; a new file has no blocks.
abbrev pub Content : Disk → ℕ → DirectoryNode → Bytes → Type 0
Content d a node bytes =
    ((bytes ≡ []) × (node.header.entries ≡ 0) × (node.size_blocks ≡ 0)) ⊎ FileHolds d a node bytes

-- A file, by its node, none of whose extents is a node.
pub record IsFile (d : Disk) (first : ℕ) (items : ℕ → Option Item) (a : ℕ) (node : DirectoryNode)
    (ext : ℕ → ℕ) (bytes : Bytes) : Type 0 where
  pub holds : Holds d a node
  pub below : a < first
  pub not_root : a ≢ alloc_root
  pub typed : folder_bit node ≡ false
  pub in_node : node.header.entries ≤ 8
  pub extents : Extents d first a node.header.entries node ext
  pub content : Content d a node bytes
  pub unowned : (i : ℕ) → i < node.header.entries → items (ext i) ≡ none

-- No two files share a block, and the blocks behind all that is in use are free.
pub record Sound (d : Disk) (first count : ℕ) (v : Volume) : Type 0 where
  pub folders : (a : ℕ) (ps : List ℕ) → v.items a ≡ some (folder ps) → IsFolder d first v a ps
  pub files :
      (a : ℕ) (ext : ℕ → ℕ) (bytes : Bytes)
      → v.items a ≡ some (file ext bytes)
      → IsFile d first v.items a (v.nodes a) ext bytes
  pub separate :
      (a b : ℕ) (ext ext' : ℕ → ℕ) (bytes bytes' : Bytes)
      → v.items a ≡ some (file ext bytes)
      → v.items b ≡ some (file ext' bytes')
      → a ≢ b
      → (i j : ℕ) → i < (v.nodes a).header.entries
      → j < (v.nodes b).header.entries
      → ext i ≢ ext' j
  pub free : Free d alloc_root first count
  pub full : first + count ≡ sectors d.description
  pub reserved : reserved_blocks ≤ first
  pub root : (ps : List ℕ) × (v.items file_root ≡ some (folder ps))
