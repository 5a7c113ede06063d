-- ===== src/Fs/Volume/Frame.antt =====
-- What a change of one node of the volume leaves of the others.
use coursework_file_system.Prelude.{
  ℕ, ◌-◌, ◌<◌, ◌≤◌, ◌≡◌, ◌≢◌, inl, inr, refl, sym, ap, ◌∙◌, subst, Option, none, some, List, [],
  ◌∷◌, length, take, All, arith,
}
use coursework_file_system.Bytes.{Bytes}
use coursework_file_system.Node.{DirectoryNode, extent_addr}
use coursework_file_system.Disk.{Disk, sectors, update, update_ne}
use coursework_file_system.Fs.{alloc_root}
use coursework_file_system.Fs.Mounted.{Holds, Holds-frame}
use coursework_file_system.Fs.Folder.Layout.{Apart, FolderAt}
use coursework_file_system.Fs.Folder.Rewrite.{replaced, FolderAt-replaced}
use coursework_file_system.Fs.File.{blocks_for}
use coursework_file_system.Fs.File.Grow.{Extents}
use coursework_file_system.Fs.File.Layout.{Block, FileHolds}
use coursework_file_system.Fs.Volume.{Item, folder, file, Volume, view, Known, IsFile, Sound}

pub view-update_ne :
    (nodes : ℕ → DirectoryNode) (a : ℕ) (new : DirectoryNode) (ps : List ℕ)
    → All (λ p. p ≢ a) ps
    → view (update nodes a new) ps ≡ view nodes ps
view-update_ne nodes a new [] h = refl
view-update_ne nodes a new (p ∷ ps) h =
    rw (update_ne nodes a new p h.0, view-update_ne nodes a new ps h.1) refl

view-replaced :
    (nodes : ℕ → DirectoryNode) (a : ℕ) (new : DirectoryNode) (ps : List ℕ)
    → replaced a new (view nodes ps) ≡ view (update nodes a new) ps
view-replaced nodes a new [] = refl
view-replaced nodes a new (p ∷ ps) =
    ap (λ l. (p, update nodes a new p) ∷ l) (view-replaced nodes a new ps)

pub All-view :
    (P : ℕ × DirectoryNode → Type 0) (Q R : ℕ → Type 0) (nodes : ℕ → DirectoryNode) (ps : List ℕ)
    → ((p : ℕ) → P (p, nodes p) → Q p → R p)
    → All P (view nodes ps)
    → All Q ps
    → All R ps
All-view P Q R nodes [] f p q = tt
All-view P Q R nodes (x ∷ ps) f p q = (f x p.0 q.0, All-view P Q R nodes ps f p.1 q.1)

pub All-to_view :
    (P : ℕ → Type 0) (nodes : ℕ → DirectoryNode) (ps : List ℕ)
    → All P ps
    → All (λ c. P c.0) (view nodes ps)
All-to_view P nodes [] h = tt
All-to_view P nodes (x ∷ ps) h = (h.0, All-to_view P nodes ps h.1)

some-injective : {a b : ℕ} → some a ≡ some b → a ≡ b
some-injective h = cc

module _ (d d' : Disk) (same : d'.description ≡ d.description) where
  pub Extents-frame :
      {first first' addr m : ℕ} {node : DirectoryNode} {ext : ℕ → ℕ}
      → Extents d first addr m node ext
      → first ≤ first'
      → Extents d' first' addr m node ext
  Extents-frame {ext = ext} x le = record {
    pointer = x.pointer;
    below = λ i h. omega (arith, x.below i h, le);
    valid = λ i h. subst (λ g. ext i < sectors g) (sym same) (x.valid i h);
    distinct = x.distinct;
    not_self = x.not_self;
    not_root = x.not_root;
  }

  module _ (node : DirectoryNode) (first addr : ℕ) (ext : ℕ → ℕ)
      (x : Extents d first addr node.header.entries node ext)
      (kept : (i : ℕ) → i < node.header.entries → d'.sector (ext i) ≡ d.sector (ext i)) where
    sector-Block :
        (i e : ℕ) → i < node.header.entries → extent_addr node i ≡ some e → d'.sector e ≡ d.sector e
    sector-Block i e lt p =
        subst (λ s. d'.sector s ≡ d.sector s) (some-injective (sym (x.pointer i lt) ∙ p))
          (kept i lt)

    Block-frame : (i e : ℕ) → i < node.header.entries → Block d node i e → Block d' node i e
    Block-frame i e lt b = record {
      pointer = b.pointer;
      valid = subst (λ g. e < sectors g) (sym same) b.valid;
      size = ap length (sector-Block i e lt b.pointer) ∙ b.size;
    }

    pub FileHolds-frame :
        (a : ℕ) (bytes : Bytes)
        → d'.sector a ≡ d.sector a
        → FileHolds d a node bytes
        → FileHolds d' a node bytes
    FileHolds-frame a bytes self f = record {
      holds = Holds-frame f.holds same self;
      entries = f.entries;
      size_blocks = f.size_blocks;
      size_offset = f.size_offset;
      nonempty = f.nonempty;
      small = f.small;
      full = λ i h.
          let (e, b, here) = f.full i h in
          let lt : i < node.header.entries = omega (arith, f.entries, h) in
          (e, Block-frame i e lt b, sector-Block i e lt b.pointer ∙ here);
      last =
          let (e, b, here) = f.last in
          let lt : blocks_for (length bytes) - 1 < node.header.entries =
            omega (arith, f.entries, f.nonempty) in
          (
            e,
            Block-frame (blocks_for (length bytes) - 1) e lt b,
            ap (take _) (sector-Block _ e lt b.pointer) ∙ here,
          );
    }

-- The sector is no block of the file at `a`, if there is one.
abbrev pub Foreign : Volume → ℕ → ℕ → Type 0
Foreign v a s =
    (ext : ℕ → ℕ) (bytes : Bytes)
    → v.items a ≡ some (file ext bytes)
    → (i : ℕ) → i < (v.nodes a).header.entries
    → s ≢ ext i

-- A change of the node at `a` that leaves alone what is in use and is not its own.
pub record Change (d d' : Disk) (first first' : ℕ) (v : Volume) (a : ℕ) (new : DirectoryNode)
    : Type 0 where
  pub description : d'.description ≡ d.description
  pub more : first ≤ first'
  pub here : Holds d' a new
  pub kept : (s : ℕ) → s < first → s ≢ alloc_root → s ≢ a → Foreign v a s → d'.sector s ≡ d.sector s

module _ (d d' : Disk) (first first' count : ℕ) (v : Volume) (sound : Sound d first count v) (a : ℕ)
    (new : DirectoryNode) (c : Change d d' first first' v a new) where
  -- A node that is in use is no block of a file.
  kept-Known : (b : ℕ) → b < first → b ≢ alloc_root → b ≢ a → Known v b → d'.sector b ≡ d.sector b
  kept-Known b low root ne (it, known) = c.kept b low root ne (λ ext bytes at i lt e.
      some-ne-none it (sym known ∙ ap v.items e ∙ (sound.files a ext bytes at).unowned i lt))
    where
      some-ne-none : (it : Item) → some it ≢ none
      some-ne-none it e = cc

  -- The other folders, of whose children the one at `a` has its new node.
  pub FolderAt-Change :
      (b : ℕ) (ps : List ℕ)
      → b ≢ a
      → v.items b ≡ some (folder ps)
      → FolderAt d' first' b (v.nodes b) (view (update v.nodes a new) ps)
  FolderAt-Change b ps ne item =
      let f = sound.folders b ps item in
      subst (FolderAt d' first' b (v.nodes b)) (view-replaced v.nodes a new ps) (
        FolderAt-replaced d d' a new c.description c.here f.at c.more
          (kept-Known b f.at.below f.at.not_root ne (folder ps, item))
          (All-to_view (λ p. p ≢ a → d'.sector p ≡ d.sector p) v.nodes ps
            (All-view (Apart first b) (Known v) (λ p. p ≢ a → d'.sector p ≡ d.sector p) v.nodes ps
              (λ p h known other. kept-Known p h.0 h.2 other known) f.at.apart f.known)))

  kept_block :
      (b : ℕ) (ext : ℕ → ℕ) (bytes : Bytes)
      → b ≢ a
      → Known v a
      → v.items b ≡ some (file ext bytes)
      → (i : ℕ) → i < (v.nodes b).header.entries
      → d'.sector (ext i) ≡ d.sector (ext i)
  kept_block b ext bytes ne (it, known) item i lt =
      let f = sound.files b ext bytes item in
      c.kept (ext i) (f.extents.below i lt) (f.extents.not_root i lt)
        (λ e. some-ne-none it (sym known ∙ ap v.items (sym e) ∙ f.unowned i lt))
        (λ ext' bytes' at j lt'. sound.separate b a ext ext' bytes bytes' item at ne i j lt lt')
    where
      some-ne-none : (it : Item) → some it ≢ none
      some-ne-none it e = cc

  -- The other files, where none of their extents has become a node.
  pub IsFile-Change :
      (items : ℕ → Option Item) (b : ℕ) (ext : ℕ → ℕ) (bytes : Bytes)
      → b ≢ a
      → Known v a
      → v.items b ≡ some (file ext bytes)
      → ((i : ℕ) → i < (v.nodes b).header.entries → items (ext i) ≡ none)
      → IsFile d' first' items b (v.nodes b) ext bytes
  IsFile-Change items b ext bytes ne known item unowned =
      let f = sound.files b ext bytes item in
      let self = kept-Known b f.below f.not_root ne (file ext bytes, item) in
      record {
        holds = Holds-frame f.holds c.description self;
        below = omega (arith, f.below, c.more);
        not_root = f.not_root;
        typed = f.typed;
        in_node = f.in_node;
        extents = Extents-frame d d' c.description f.extents c.more;
        content = elim f.content [
          | inl new ↦ inl new
          | inr old ↦ inr (
              FileHolds-frame d d' c.description (v.nodes b) first b ext f.extents
                (kept_block b ext bytes ne known item) b bytes self old)
        ];
        unowned = unowned;
      }
