-- ===== src/Allocator/Leaf.antt =====
-- `new_block` of src/fs_allocator.h on a root node that is a leaf, as `file_system::format` leaves
-- it: what each part of the call does to the cache and to the disk.
use coursework_file_system.Prelude.{
  ℕ, suc, ◌^◌, ◌<◌, ◌≡◌, ◌≢◌, refl, true, false, [], ◌∷◌, set, arith, length-set, All-set, ◌∙◌,
  ==_ne, ==_self,
}
use coursework_file_system.Bytes.{Bytes}
use coursework_file_system.Run.{done}
use coursework_file_system.Table.{lookup, insert}
use coursework_file_system.Node.{AllocatorNode, AllocatorFits, Extent, IsWord}
use coursework_file_system.Node.Codec.{
  encode_allocator, decode_allocator, decode_allocator-encode_allocator, length-encode_allocator,
}
use coursework_file_system.Disk.{Disk, sectors}
use coursework_file_system.DiskView.{block_size, stored, read_as-done, write_as-done}
use coursework_file_system.Allocator.{
  Allocator, on_disk, fetch_node, descend, max_depth, extent, set_extent, shrink, take_first,
  new_block_i, sync, cache_node, mark_node, load_node, new_block, set_dirty,
}

-- The root sector holds the leaf `node`.
pub record AtRest (d : Disk) (root : ℕ) (node : AllocatorNode) : Type 0 where
  pub ready : d.description.bytes_per_sector ≡ block_size
  pub valid : root < sectors d.description
  pub holds : d.sector root ≡ encode_allocator node
  pub fits : AllocatorFits node
  pub leaf : node.header.tree_depth ≡ 0
  pub has_entry : node.header.entries ≢ 0

-- The allocator between two calls: nothing is cached.
abbrev pub idle : Disk → ℕ → Allocator
idle d root = record { disk = d; alloc_root = root; node_cache = []; node_dirty = [] }

max_depth_lem : max_depth ≡ suc 65535
unfolding max_depth
max_depth_lem = refl

descend-leaf :
    (fuel addr : ℕ) (node : AllocatorNode) (a : Allocator)
    → node.header.tree_depth ≡ 0
    → descend (suc fuel) addr node a ≡ done (addr, node) a
unfolding descend
descend-leaf fuel addr node a leaf = rw leaf

abbrev pub ExtentFits : Extent → Type 0
ExtentFits e = (e.disk_block_no < 2 ^ 64) × (e.len < 2 ^ 64)

pub set_extent-AllocatorFits :
    (node : AllocatorNode) (e : Extent)
    → AllocatorFits node
    → ExtentFits e
    → AllocatorFits (set_extent node 0 e)
set_extent-AllocatorFits node e f (lo, hi) = record {
  header = f.header;
  free_blocks = f.free_blocks;
  max_cont_blocks = f.max_cont_blocks;
  words =
      length-set (set node.tree_words 0 e.disk_block_no) 1 e.len
      ∙ length-set node.tree_words 0 e.disk_block_no
      ∙ f.words;
  in_words =
      All-set IsWord (set node.tree_words 0 e.disk_block_no) 1 e.len
        (All-set IsWord node.tree_words 0 e.disk_block_no f.in_words lo) hi;
}

-- A write to another sector, or of another leaf to the root, leaves the allocator at rest.
pub AtRest-stored :
    (d : Disk) (root : ℕ) (node changed : AllocatorNode)
    → AtRest d root node
    → AllocatorFits changed
    → changed.header ≡ node.header
    → AtRest (stored d root (encode_allocator changed)) root changed
AtRest-stored d root node changed rest fits same = record {
  ready = rest.ready;
  valid = rest.valid;
  holds = rw (==_self root);
  fits = fits;
  leaf = rw same rest.leaf;
  has_entry = rw same rest.has_entry;
}

pub AtRest-stored_ne :
    (d : Disk) (root : ℕ) (node : AllocatorNode) (addr : ℕ) (bytes : Bytes)
    → AtRest d root node
    → root ≢ addr
    → AtRest (stored d addr bytes) root node
AtRest-stored_ne d root node addr bytes rest ne = record {
  ready = rest.ready;
  valid = rest.valid;
  holds = rw (==_ne root addr ne) rest.holds;
  fits = rest.fits;
  leaf = rest.leaf;
  has_entry = rest.has_entry;
}

pub AtRest-frame :
    {d d' : Disk} {root : ℕ} {node : AllocatorNode}
    → AtRest d root node
    → d'.description ≡ d.description
    → d'.sector root ≡ d.sector root
    → AtRest d' root node
AtRest-frame rest same kept = record {
  ready = rw same rest.ready;
  valid = rw same rest.valid;
  holds = kept ∙ rest.holds;
  fits = rest.fits;
  leaf = rest.leaf;
  has_entry = rest.has_entry;
}

-- The root leaf after its first block is taken.
abbrev pub taken : AllocatorNode → AllocatorNode
taken node = set_extent node 0 (shrink (extent node 0))

pub taken-AllocatorFits : (node : AllocatorNode) → AllocatorFits node → AllocatorFits (taken node)
taken-AllocatorFits node f =
    set_extent-AllocatorFits node (shrink (extent node 0)) f (omega arith, omega arith)

module _ (d : Disk) (root : ℕ) (node : AllocatorNode) (rest : AtRest d root node) where
  abbrev fetched : Allocator
  fetched = record {
    disk = d;
    alloc_root = root;
    node_cache = (root, node) ∷ [];
    node_dirty = (root, false) ∷ [];
  }

  fetch-root : fetch_node root (idle d root) ≡ done node fetched
  unfolding fetch_node load_node on_disk cache_node mark_node lookup insert
  fetch-root = rw (
    read_as-done d rest.ready root rest.valid decode_allocator,
    rest.holds,
    decode_allocator-encode_allocator node rest.fits,
  )

  descend-root : descend max_depth root node fetched ≡ done (root, node) fetched
  descend-root = rw max_depth_lem (descend-leaf 65535 root node fetched rest.leaf)

  new_block_i-root : new_block_i (idle d root) ≡ take_first root node fetched
  unfolding new_block_i
  new_block_i-root = rw (fetch-root, descend-root)

  take_first-more :
      (extent node 0).len ≢ 1
      → take_first root node fetched
        ≡ done (extent node 0).disk_block_no (record fetched {
          node_cache = (root, set_extent node 0 (shrink (extent node 0))) ∷ [];
          node_dirty = (root, true) ∷ [];
        })
  unfolding take_first cache_node set_dirty lookup insert
  take_first-more more =
      rw
        (==_ne node.header.entries 0 rest.has_entry, ==_ne (extent node 0).len 1 more, ==_self root)

  sync-dirty :
      (changed : AllocatorNode)
      → AllocatorFits changed
      → sync (record fetched { node_cache = (root, changed) ∷ []; node_dirty = (root, true) ∷ [] })
        ≡ done tt (idle (stored d root (encode_allocator changed)) root)
  unfolding sync on_disk lookup
  sync-dirty changed fits = rw (
    ==_self root,
    write_as-done d rest.ready root rest.valid encode_allocator changed
        (length-encode_allocator changed fits),
  )

  take_first-last :
      (extent node 0).len ≡ 1
      → take_first root node fetched
        ≡ done
            (extent node 0).disk_block_no
            (record fetched { node_cache = (root, node) ∷ []; node_dirty = (root, true) ∷ [] })
  unfolding take_first set_dirty insert
  take_first-last last = rw (==_ne node.header.entries 0 rest.has_entry, last, ==_self root)

  -- A call takes the first block of the extent, and rewrites the root sector only.
  pub new_block-done :
      (extent node 0).len ≢ 1
      → new_block (idle d root)
        ≡ done
            (extent node 0).disk_block_no
            (idle (stored d root (encode_allocator (taken node))) root)
  unfolding new_block
  new_block-done more =
      rw (new_block_i-root, take_first-more more)
        (rw (sync-dirty (taken node) (taken-AllocatorFits node rest.fits)))

  -- At a length of one the block is handed out, and the extent stays as it is.
  pub new_block-last :
      (extent node 0).len ≡ 1
      → new_block (idle d root)
        ≡ done (extent node 0).disk_block_no (idle (stored d root (encode_allocator node)) root)
  unfolding new_block
  new_block-last last = rw (new_block_i-root, take_first-last last) (rw (sync-dirty node rest.fits))
