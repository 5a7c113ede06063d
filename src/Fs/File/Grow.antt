-- ===== src/Fs/File/Grow.antt =====
-- The first loop of `write_all` of src/fs.h, which gives a file the extents that its new content
-- needs.
use coursework_file_system.Prelude.{
  ℕ, zero, suc, ◌+◌, ◌-◌, ◌*◌, ◌<◌, ◌≤◌, ◌≡◌, ◌≢◌, refl, subst₂, ap, sym, ◌∙◌, Option, some, none,
  List, length, set, length-set, get_elem?, get_elem?-set_self, get_elem?-set_ne, All-set, arith,
  ==_self, ==_ne, ℕ_discrete, lt→ltb,
}
use coursework_file_system.Run.{done}
use coursework_file_system.Node.{
  DirectoryNode, DirectoryFits, IsWord, extent_addr, set_extent_addr, set_extent_len, with_len,
}
use coursework_file_system.Disk.{Disk, sectors, update}
use coursework_file_system.Allocator.Free.{Free, Free-eq, SameBut, SameBut-trans, new_block-Free}
use coursework_file_system.Fs.{alloc_root}
use coursework_file_system.Fs.Mounted.{mounted, new_block-mounted}
use coursework_file_system.Fs.File.{assign_extent, add_extents}

-- The first `m` extents of `node` are the sectors `ext 0`, `ext 1`, …: they lie on the disk below
-- the free blocks, are all different, and are neither the node's own sector nor the allocator's.
pub record Extents (d : Disk) (first addr m : ℕ) (node : DirectoryNode) (ext : ℕ → ℕ) : Type 0 where
  pub pointer : (i : ℕ) → i < m → extent_addr node i ≡ some (ext i)
  pub below : (i : ℕ) → i < m → ext i < first
  pub valid : (i : ℕ) → i < m → ext i < sectors d.description
  pub distinct : (i j : ℕ) → i < m → j < m → i ≢ j → ext i ≢ ext j
  pub not_self : (i : ℕ) → i < m → ext i ≢ addr
  pub not_root : (i : ℕ) → i < m → ext i ≢ alloc_root

-- The node with a new extent at `i`.
abbrev pub with_extent : DirectoryNode → ℕ → ℕ → DirectoryNode
with_extent node i addr = set_extent_len (set_extent_addr node i addr) i 1

with_len-IsWord : (w : Option ℕ) → IsWord (with_len w 1)
with_len-IsWord none = omega arith
with_len-IsWord (some w) = omega arith

with_extent-DirectoryFits :
    (node : DirectoryNode) (i addr : ℕ)
    → DirectoryFits node
    → IsWord addr
    → DirectoryFits (with_extent node i addr)
with_extent-DirectoryFits node i addr f word =
    let words = set node.data_words (2 * i) addr in
    let w = with_len (get_elem? words (2 * i + 1)) 1 in
    ground (
      arith,
      length-set node.data_words (2 * i) addr,
      length-set words (2 * i + 1) w,
      All-set IsWord node.data_words (2 * i) addr f.in_words word,
      All-set IsWord words (2 * i + 1) w
          (All-set IsWord node.data_words (2 * i) addr f.in_words word)
          (with_len-IsWord (get_elem? words (2 * i + 1))),
    )

extent_addr-with_extent_self :
    (node : DirectoryNode) (i addr : ℕ)
    → 2 * i < length node.data_words
    → extent_addr (with_extent node i addr) i ≡ some addr
extent_addr-with_extent_self node i addr h =
    get_elem?-set_ne (set node.data_words (2 * i) addr) _ (omega arith)
    ∙ get_elem?-set_self node.data_words (2 * i) addr h

extent_addr-with_extent_ne :
    (node : DirectoryNode) (i j addr : ℕ)
    → i ≢ j
    → extent_addr (with_extent node i addr) j ≡ extent_addr node j
extent_addr-with_extent_ne node i j addr ne =
    get_elem?-set_ne (set node.data_words (2 * i) addr) _ (omega arith)
    ∙ get_elem?-set_ne node.data_words addr (omega arith)

-- The free block `first` becomes extent `m`.
Extents-with_extent :
    (d d' : Disk) (first addr m : ℕ) (node : DirectoryNode) (ext : ℕ → ℕ)
    → Extents d first addr m node ext
    → d'.description ≡ d.description
    → 2 * m < length node.data_words
    → first < sectors d.description
    → addr < first
    → alloc_root < first
    → Extents d' (first + 1) addr (m + 1) (with_extent node m first) (update ext m first)
Extents-with_extent d d' first addr m node ext x same room valid self root = record {
  pointer = λ i h. elim (ℕ_discrete i m) [
    | yes e ↦ rw (e, ==_self m) (extent_addr-with_extent_self node m first room)
    | no ne ↦
        rw (==_ne i m ne)
          (extent_addr-with_extent_ne node m i first (λ e. ne (sym e)) ∙ x.pointer i (omega arith))
  ];
  below = λ i h. ground (arith, x.below i);
  valid = λ i h. rw same (ground (arith, x.valid i));
  distinct = λ i j hi hj ne. ground (arith, x.distinct i j, x.below i, x.below j);
  not_self = λ i h. ground (arith, x.not_self i);
  not_root = λ i h. ground (arith, x.not_root i);
}

Extents-eq :
    {d : Disk} {first first' addr m m' : ℕ} {node : DirectoryNode} {ext : ℕ → ℕ}
    → Extents d first addr m node ext
    → first ≡ first'
    → m ≡ m'
    → Extents d first' addr m' node ext
Extents-eq {d} {addr} {node} {ext} x p q = subst₂ (λ f m. Extents d f addr m node ext) p q x

-- Fewer extents, on a disk of the same geometry, in a node with the same words.
pub Extents-frame :
    {d d' : Disk} {first addr m : ℕ} {node node' : DirectoryNode} {ext : ℕ → ℕ} (n : ℕ)
    → Extents d first addr m node ext
    → d'.description ≡ d.description
    → node'.data_words ≡ node.data_words
    → n ≤ m
    → Extents d' first addr n node' ext
Extents-frame n x same words le = record {
  pointer = λ i h. ap (λ w. get_elem? w (2 * i)) words ∙ x.pointer i (omega arith);
  below = λ i h. x.below i (omega arith);
  valid = λ i h. rw same (x.valid i (omega arith));
  distinct = λ i j hi hj. x.distinct i j (omega arith) (omega arith);
  not_self = λ i h. x.not_self i (omega arith);
  not_root = λ i h. x.not_root i (omega arith);
}

-- What the loop has done when it ends with the node `node'` and the disk `d'`: `m + k` extents, the
-- first `m` as before and the others from the pool, `k` blocks fewer in the pool, the same header,
-- name and attributes, and no sector written but the allocator's.
pub record Grown (d d' : Disk) (first count addr m k : ℕ) (node node' : DirectoryNode)
    (ext ext' : ℕ → ℕ) : Type 0 where
  pub extents : Extents d' (first + k) addr (m + k) node' ext'
  pub old : (i : ℕ) → i < m → ext' i ≡ ext i
  pub new : (i : ℕ) → m ≤ i → i < m + k → first ≤ ext' i
  pub fits : DirectoryFits node'
  pub header : node'.header ≡ node.header
  pub name : node'.name ≡ node.name
  pub attrib_bits : node'.attrib_bits ≡ node.attrib_bits
  pub free : Free d' alloc_root (first + k) (count - k)
  pub same : SameBut alloc_root d d'

Grown-zero :
    {d : Disk} {first count addr m : ℕ} {node : DirectoryNode} {ext : ℕ → ℕ}
    → Extents d first addr m node ext
    → DirectoryFits node
    → Free d alloc_root first count
    → Grown d d first count addr m 0 node node ext ext
Grown-zero {first} {count} {addr} {m} {node} x f free = record {
  extents = Extents-eq x (omega arith) (omega arith);
  old = λ i h. refl;
  new = λ i lo hi. absurd (omega arith);
  fits = f;
  header = refl;
  name = refl;
  attrib_bits = refl;
  free = Free-eq free (omega arith) (omega arith);
  same = record { description = refl; sector = λ a ne. refl };
}

Grown-suc :
    {d d1 d' : Disk} {first count addr m k : ℕ} {node node' : DirectoryNode} {ext ext' : ℕ → ℕ}
    → SameBut alloc_root d d1
    → Grown d1 d'
        (first + 1)
        (count - 1)
        addr
        (m + 1)
        k
        (with_extent node m first)
        node'
        (update ext m first)
        ext'
    → Grown d d' first count addr m (suc k) node node' ext ext'
Grown-suc {first} {count} {m} {k} {ext} {ext'} same g = record {
  extents = Extents-eq g.extents (omega arith) (omega arith);
  old = λ i h. g.old i (omega arith) ∙ rw (==_ne i m (omega arith)) refl;
  new = λ i lo hi. elim (ℕ_discrete i m) [
    | yes e ↦
        let here : update ext m first i ≡ first = rw (e, ==_self m) refl in
        omega (arith, g.old i (omega arith), here)
    | no ne ↦ omega (arith, g.new i (omega arith) (omega arith))
  ];
  fits = g.fits;
  header = g.header;
  name = g.name;
  attrib_bits = g.attrib_bits;
  free = Free-eq g.free (omega arith) (omega arith);
  same = SameBut-trans same g.same;
}

-- While blocks are free and the node has room, the loop ends with `k` more extents.
pub add_extents-Grown :
    (k : ℕ) (d : Disk) (max : ℕ) (counts : List (ℕ × ℕ)) (first count addr m : ℕ)
    (node : DirectoryNode) (ext : ℕ → ℕ)
    → Extents d first addr m node ext
    → DirectoryFits node
    → Free d alloc_root first count
    → k < count
    → m + k ≤ 8
    → first + k ≤ sectors d.description
    → addr < first
    → alloc_root < first
    → (d' : Disk) × (node' : DirectoryNode) × (ext' : ℕ → ℕ) × (add_extents node k m
          (mounted d max counts)
        ≡ done node' (mounted d' max counts))
      × Grown d d' first count addr m k node node' ext ext'
unfolding add_extents assign_extent
add_extents-Grown zero d max counts first count addr m node ext x f free lt room disk self root =
    (d, node, ext, refl, Grown-zero x f free)
add_extents-Grown (suc k) d max counts first count addr m node ext x f free lt room disk self root =
    let (d1, call, free1, same) = new_block-Free d alloc_root first count free (omega arith) in
    let node1 = with_extent node m first in
    let x1 =
      Extents-with_extent d d1 first addr m node ext x same.description (omega (arith, f.words))
        (omega arith) self root in
    let f1 = with_extent-DirectoryFits node m first f (omega (arith, free.in_range, lt)) in
    let (d2, node2, ext2, run, g) =
      add_extents-Grown k d1 max counts (first + 1) (count - 1) addr (m + 1) node1
        (update ext m first) x1 f1 free1 (omega arith) (omega arith)
        (rw same.description (omega arith)) (omega arith) (omega arith) in
    (
      d2,
      node2,
      ext2,
      rw (new_block-mounted d max counts d1 first call, lt→ltb m 8 (omega arith)) run,
      Grown-suc same g,
    )
