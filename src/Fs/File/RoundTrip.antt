-- ===== src/Fs/File/RoundTrip.antt =====
-- `write_all` and then `read_all` of src/fs.h.
use coursework_file_system.Prelude.{
  dec_lt, ℕ, ◌+◌, ◌-◌, ◌<◌, ◌≤◌, ◌≡◌, ◌≢◌, ◌⊎◌, inl, inr, ◌∙◌, List, length, arith, ==_ne,
}
use coursework_file_system.Bytes.{Bytes}
use coursework_file_system.Run.{done}
use coursework_file_system.Node.{DirectoryNode}
use coursework_file_system.Disk.{Disk, sectors}
use coursework_file_system.DiskView.{block_size}
use coursework_file_system.Allocator.Free.{Free}
use coursework_file_system.Fs.{FileSystem, alloc_root}
use coursework_file_system.Fs.Mounted.{mounted, Holds, read_node-done}
use coursework_file_system.Fs.File.{Stack, blocks_for, write_all, read_all}
use coursework_file_system.Fs.File.Layout.{FileHolds}
use coursework_file_system.Fs.File.Read.{read_all-FileHolds}
use coursework_file_system.Fs.File.Grow.{Extents, add_extents-Grown}
use coursework_file_system.Fs.File.Write.{
  same_description, final, rewritten, poured_ne, FileHolds-rewritten, write_all-rest,
  Extents-rewritten, Free-rewritten,
}

-- A file's node, its extents, and the pool of free blocks.
pub record FileAt (d : Disk) (first count addr : ℕ) (node : DirectoryNode) (ext : ℕ → ℕ)
    : Type 0 where
  pub holds : Holds d addr node
  pub extents : Extents d first addr node.header.entries node ext
  pub in_node : node.header.entries ≤ 8
  pub below : addr < first
  pub not_root : addr ≢ alloc_root
  pub free : Free d alloc_root first count
  pub reserved : alloc_root < first

-- The number of extents that a text of `n` bytes adds to a file.
abbrev pub added : DirectoryNode → ℕ → ℕ
added node n = blocks_for n - node.header.entries

-- What a successful `write_all` leaves: the file with the new content, the blocks that it took
-- off the pool, and every sector as it was but the file's and the allocator's.
pub record Written (d d' : Disk) (first count addr : ℕ) (node node' : DirectoryNode)
    (ext ext' : ℕ → ℕ) (bytes : Bytes) : Type 0 where
  pub content : FileHolds d' addr node' bytes
  pub name : node'.name ≡ node.name
  pub attrib_bits : node'.attrib_bits ≡ node.attrib_bits
  pub description : d'.description ≡ d.description
  pub origin :
      (i : ℕ)
      → i < node'.header.entries
      → ((j : ℕ) × (j < node.header.entries) × (ext' i ≡ ext j)) ⊎ (first ≤ ext' i)
  pub file :
      FileAt d'
        (first + added node (length bytes))
        (count - added node (length bytes))
        addr
        node'
        ext'
  pub others :
      (a : ℕ)
      → a ≢ alloc_root
      → a ≢ addr
      → ((i : ℕ) → i < blocks_for (length bytes) → a ≢ ext' i)
      → d'.sector a ≡ d.sector a
  pub spared :
      (a : ℕ)
      → a < first
      → a ≢ alloc_root
      → a ≢ addr
      → ((i : ℕ) → i < node.header.entries → a ≢ ext i)
      → d'.sector a ≡ d.sector a

-- A sector below the pool that is none of the old extents is none of the new.
apart_of :
    {first m : ℕ} (k : ℕ) {ext ext' : ℕ → ℕ}
    → ((i : ℕ) → i < m → ext' i ≡ ext i)
    → ((i : ℕ) → m ≤ i → i < m + k → first ≤ ext' i)
    → (a : ℕ) → a < first
    → ((i : ℕ) → i < m → a ≢ ext i)
    → (i : ℕ) → i < m + k
    → a ≢ ext' i
apart_of {m} k old new a low ne i h = elim (dec_lt i m) [
  | yes lt ↦ λ e. ne i lt (e ∙ old i lt)
  | no ge ↦ λ e. omega (arith, new i (omega arith) h, low, e)
]

-- A new extent is an old one or comes from the pool.
origin_of :
    {first m : ℕ} (k : ℕ) {ext ext' : ℕ → ℕ}
    → ((i : ℕ) → i < m → ext' i ≡ ext i)
    → ((i : ℕ) → m ≤ i → i < m + k → first ≤ ext' i)
    → (i : ℕ) → i < m + k
    → ((j : ℕ) × (j < m) × (ext' i ≡ ext j)) ⊎ (first ≤ ext' i)
origin_of {m} k old new i h = elim (dec_lt i m) [
  | yes lt ↦ inl (i, lt, old i lt)
  | no ge ↦ inr (new i (omega arith) h)
]

-- On a file as `FileAt` says, `write_all` of a text of 1 to 2048 characters succeeds if the pool
-- keeps a free block behind those that the file grows by and the disk has the blocks; it stores
-- exactly that text, and touches no sector but the file's own and the allocator's root. The buffer
-- has 256 bytes.
pub write_all-FileAt :
    (d : Disk) (max : ℕ) (counts : List (ℕ × ℕ)) (first count addr : ℕ) (node : DirectoryNode)
    (ext : ℕ → ℕ) (stack : Stack) (bytes : Bytes)
    → FileAt d first count addr node ext
    → length stack ≡ 0x100
    → 0 < length bytes
    → length bytes ≤ 2048
    → added node (length bytes) < count
    → first + added node (length bytes) ≤ sectors d.description
    → (d' : Disk) × (node' : DirectoryNode) × (ext' : ℕ → ℕ) × (write_all stack addr bytes
          (mounted d max counts)
        ≡ done tt (mounted d' max counts))
      × Written d d' first count addr node node' ext ext' bytes
unfolding write_all
write_all-FileAt d max counts first count addr node ext stack bytes at buffer nonempty small more
      room =
    let k = added node (length bytes) in
    let (d1, node1, ext1, run, g) =
      add_extents-Grown k d max counts first count addr node.header.entries node ext at.extents
        at.holds.fits at.free more (omega (arith, at.in_node, small)) room at.below at.reserved in
    let m = node.header.entries + k in
    let first1 = first + k in
    let enough : blocks_for (length bytes) ≤ m = omega arith in
    let ready : d1.description.bytes_per_sector ≡ block_size =
      rw g.same.description at.holds.ready in
    let valid : addr < sectors d1.description = rw g.same.description at.holds.valid in
    let content =
      FileHolds-rewritten d1 first1 addr m node1 ext1 g.extents stack buffer bytes nonempty enough
        ready valid g.fits small in
    let final_node = final node1 bytes in
    let others : (a : ℕ)
        → a ≢ alloc_root
        → a ≢ addr
        → ((i : ℕ) → i < blocks_for (length bytes) → a ≢ ext1 i)
        → (rewritten d1 ext1 stack bytes addr node1).sector a ≡ d.sector a =
      λ a root self ne. rw (==_ne a addr self) (
        poured_ne d1 first1 addr m node1 ext1 g.extents stack buffer bytes nonempty enough a ne
        ∙ g.same.sector a root) in
    (
      rewritten d1 ext1 stack bytes addr node1,
      final_node,
      ext1,
      rw (read_node-done d max counts at.holds, run)
          (write_all-rest d1 first1 addr m node1 ext1 g.extents stack buffer bytes nonempty enough
            ready valid g.fits small max counts),
      record {
        content = content;
        file = record {
          holds = content.holds;
          extents =
              Extents-rewritten d1 first1 addr m node1 ext1 g.extents stack buffer bytes nonempty
                enough ready valid g.fits small;
          in_node = omega (arith, small);
          below = omega (arith, at.below);
          not_root = at.not_root;
          free =
              Free-rewritten d1 first1 addr m node1 ext1 g.extents stack buffer bytes nonempty
                enough ready valid g.fits small (count - k) at.not_root g.free;
          reserved = omega (arith, at.reserved);
        };
        others = others;
        spared = λ a low root self ne.
            others a root self (λ i h. apart_of k g.old g.new a low ne i (omega (arith, h)));
        origin = λ i h. origin_of k g.old g.new i (omega (arith, h, small));
        name = g.name;
        attrib_bits = g.attrib_bits;
        description =
            same_description d1 first1 addr m node1 ext1 g.extents stack buffer bytes nonempty
              enough ready valid g.fits small
            ∙ g.same.description;
      },
    )

-- `write_all` of a text of 1 to 2048 characters to a file that lies on the disk as `FileAt` says,
-- with a pool that keeps a free block behind those that the file grows by, and a disk that has
-- those blocks, succeeds, and `read_all` then returns exactly that text and changes nothing. The
-- buffer has 256 bytes.
pub read_all-write_all :
    (d : Disk) (max : ℕ) (counts : List (ℕ × ℕ)) (first count addr : ℕ) (node : DirectoryNode)
    (ext : ℕ → ℕ) (stack : Stack) (bytes : Bytes)
    → FileAt d first count addr node ext
    → length stack ≡ 0x100
    → 0 < length bytes
    → length bytes ≤ 2048
    → added node (length bytes) < count
    → first + added node (length bytes) ≤ sectors d.description
    → (fs : FileSystem) × (write_all stack addr bytes (mounted d max counts) ≡ done tt fs)
      × (read_all addr fs ≡ done bytes fs)
read_all-write_all d max counts first count addr node ext stack bytes at buffer nonempty small more
      room =
    let (d', node', ext', run, w) =
      write_all-FileAt d max counts first count addr node ext stack bytes at buffer nonempty small
        more room in
    (mounted d' max counts, run, read_all-FileHolds d' max counts addr node' bytes w.content)
