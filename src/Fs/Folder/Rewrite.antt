-- ===== src/Fs/Folder/Rewrite.antt =====
-- A folder of src/fs.h after one of its files has been written.
use coursework_file_system.Prelude.{
  ℕ, suc, ◌+◌, ◌<◌, ◌≤◌, ◌≡◌, ◌≢◌, refl, sym, ap, ◌∙◌, Bool, Option, some, [], ◌∷◌, length, All,
  All-mono, arith, ℕ_discrete, ==_self, ==_ne, ◌==◌, if◌then◌else◌,
}
use coursework_file_system.Node.{DirectoryNode}
use coursework_file_system.Node.Codec.{decode_directory, decode_directory-encode_directory}
use coursework_file_system.Disk.{Disk}
use coursework_file_system.Fs.{alloc_root}
use coursework_file_system.Fs.Mounted.{Holds, Holds-frame}
use coursework_file_system.Fs.Folder.Layout.{Nodes, Children, Apart, FolderAt}
use coursework_file_system.Fs.Folder.Search.{search}

-- The children with the node `new` at the address `p`.
abbrev pub replaced : ℕ → DirectoryNode → Nodes → Nodes
replaced p new [] = []
replaced p new ((q, child) ∷ cs) = (q, if q == p then new else child) ∷ replaced p new cs

-- Two nodes of one sector are the same.
pub Holds-unique :
    {d : Disk} {p : ℕ} {node node' : DirectoryNode}
    → Holds d p node
    → Holds d p node'
    → node ≡ node'
Holds-unique {node} {node'} h h' =
    sym (decode_directory-encode_directory node h.fits)
    ∙ ap decode_directory (sym h.bytes ∙ h'.bytes)
    ∙ decode_directory-encode_directory node' h'.fits

length-replaced :
    (p : ℕ) (new : DirectoryNode) (cs : Nodes) → length (replaced p new cs) ≡ length cs
length-replaced p new [] = refl
length-replaced p new (c ∷ cs) = ap suc (length-replaced p new cs)

All-replaced :
    (P : ℕ → Type 0) (p : ℕ) (new : DirectoryNode) (cs : Nodes)
    → All (λ c. P c.0) cs
    → All (λ c. P c.0) (replaced p new cs)
All-replaced P p new [] h = tt
All-replaced P p new (c ∷ cs) h = (h.0, All-replaced P p new cs h.1)

module _ (d : Disk) (p : ℕ) (file new : DirectoryNode) (old : Holds d p file) where
  -- A test that cannot tell the new node from the old one finds the same child.
  pub search-replaced :
      (test : DirectoryNode → Bool) (folder : DirectoryNode) (i k : ℕ) (cs : Nodes)
      → test new ≡ test file
      → Children d folder i cs
      → search test (replaced p new cs) k ≡ search test cs k
  unfolding search
  search-replaced test folder i k [] same children = refl
  search-replaced test folder i k ((q, child) ∷ cs) same children = elim (ℕ_discrete q p) [
    | yes e ↦
        let there : Holds d p child = rw e at children.1 in
        let equal : test new ≡ test child = same ∙ ap test (Holds-unique old there) in
        rw (e, ==_self p, equal, search-replaced test folder (i + 1) (k + 1) cs same children.2)
          refl
    | no ne ↦ rw (==_ne q p ne, search-replaced test folder (i + 1) (k + 1) cs same children.2) refl
  ]

module _ (d d' : Disk) (p : ℕ) (new : DirectoryNode) (same : d'.description ≡ d.description)
    (here : Holds d' p new) where
  Children-replaced :
      (folder : DirectoryNode) (i : ℕ) (cs : Nodes)
      → All (λ c. c.0 ≢ p → d'.sector c.0 ≡ d.sector c.0) cs
      → Children d folder i cs
      → Children d' folder i (replaced p new cs)
  Children-replaced folder i [] kept children = tt
  Children-replaced folder i ((q, child) ∷ cs) kept children = elim (ℕ_discrete q p) [
    | yes e ↦
        rw (e, ==_self p)
          (
            children.0 ∙ ap {B = Option ℕ} (λ a. some a) e,
            here,
            Children-replaced folder (i + 1) cs kept.1 children.2,
          )
    | no ne ↦ rw (==_ne q p ne) (
      children.0,
      Holds-frame children.1 same (kept.0 ne),
      Children-replaced folder (i + 1) cs kept.1 children.2,
    )
  ]

  -- The folder, with that node for the child at `p`, where the other sectors of the folder are
  -- spared.
  pub FolderAt-replaced :
      {first first' addr : ℕ} {folder : DirectoryNode} {cs : Nodes}
      → FolderAt d first addr folder cs
      → first ≤ first'
      → d'.sector addr ≡ d.sector addr
      → All (λ c. c.0 ≢ p → d'.sector c.0 ≡ d.sector c.0) cs
      → FolderAt d' first' addr folder (replaced p new cs)
  FolderAt-replaced {first} {first'} {addr} {folder} {cs} at le self kept = record {
    holds = Holds-frame at.holds same self;
    below = omega (arith, at.below, le);
    not_root = at.not_root;
    count = at.count ∙ sym (length-replaced p new cs);
    small = omega (arith, at.small, length-replaced p new cs);
    children = Children-replaced folder 0 cs kept at.children;
    apart =
        All-replaced (λ q. (q < first') × (q ≢ addr) × (q ≢ alloc_root)) p new cs
          (All-mono (Apart first addr) (λ c. (c.0 < first') × (c.0 ≢ addr) × (c.0 ≢ alloc_root)) cs
            (λ c h. (omega (arith, h.0, le), h.1, h.2)) at.apart);
  }
