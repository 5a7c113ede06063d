-- ===== src/Fs/Folder/Layout.antt =====
-- How a folder of src/fs.h lies on the disk: its node, the nodes of its children in the order of
-- their pointers, and what keeps them apart.
use coursework_file_system.Prelude.{
  ℕ, ◌+◌, ◌<◌, ◌≤◌, ◌≡◌, ◌≢◌, some, List, [], ◌∷◌, length, All, arith, ◌∙◌,
}
use coursework_file_system.Node.{DirectoryNode, file_pointer}
use coursework_file_system.Disk.{Disk}
use coursework_file_system.Fs.{alloc_root}
use coursework_file_system.Fs.Mounted.{Holds, Holds-frame}

-- The children's addresses and nodes.
abbrev pub Nodes : Type 0
Nodes = List (ℕ × DirectoryNode)

-- From index `i` on the pointers of `node` lead to the nodes of the list.
abbrev pub Children : Disk → DirectoryNode → ℕ → Nodes → Type 0
Children d node i [] = Unit {0}
Children d node i ((p, child) ∷ cs) =
    (file_pointer node i ≡ some p) × Holds d p child × Children d node (i + 1) cs

-- A child lies below `first`, where the free blocks begin, and is neither the folder itself nor
-- the allocator's root.
abbrev pub Apart : ℕ → ℕ → ℕ × DirectoryNode → Type 0
Apart first addr (p, child) = (p < first) × (p ≢ addr) × (p ≢ alloc_root)

pub record FolderAt (d : Disk) (first addr : ℕ) (node : DirectoryNode) (cs : Nodes) : Type 0 where
  pub holds : Holds d addr node
  pub below : addr < first
  pub not_root : addr ≢ alloc_root
  pub count : node.header.entries ≡ length cs
  pub small : length cs ≤ 16
  pub children : Children d node 0 cs
  pub apart : All (Apart first addr) cs

-- The children stay where a change of the disk and of the folder's node spares them.
pub Children-frame :
    (d d' : Disk) (node node' : DirectoryNode) (i : ℕ) (cs : Nodes)
    → d'.description ≡ d.description
    → All (λ c. d'.sector c.0 ≡ d.sector c.0) cs
    → ((j : ℕ) → i ≤ j → j < i + length cs → file_pointer node' j ≡ file_pointer node j)
    → Children d node i cs
    → Children d' node' i cs
Children-frame d d' node node' i [] same kept pointers h = tt
Children-frame d d' node node' i ((p, child) ∷ cs) same kept pointers h = (
  pointers i (omega arith) (omega arith) ∙ h.0,
  Holds-frame h.1 same kept.0,
  Children-frame d d' node node' (i + 1) cs same kept.1
      (λ j lo hi. pointers j (omega arith) (omega arith)) h.2,
)
