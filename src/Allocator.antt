-- ===== src/Allocator.antt =====
-- `fs_allocator` of src/fs_allocator.h. The mutex makes each public member one step. The disk is
-- the one that the allocator reaches through its `disk_view`. `delete_block` and `delete_extent`
-- have empty bodies in the source, and so has `node_remove_entry`; `parent_map_` is never used.
pub mod Leaf
pub mod Free
pub mod Exhausted
use coursework_file_system.Prelude.{
  ℕ, zero, suc, ◌+◌, ◌-◌, ◌*◌, ◌%◌, ◌^◌, Bool, true, false, Option, none, some, List, [], ◌∷◌, set,
  get_or, ltb, ◌==◌, if◌then◌else◌,
}
use coursework_file_system.Run.{Run, done, undefined, Cmd, pure, fault, ◌>>=◌, ◌>>◌, within}
use coursework_file_system.Table.{lookup, insert}
use coursework_file_system.Node.{AllocatorNode, Extent}
use coursework_file_system.Node.Codec.{encode_allocator, decode_allocator}
use coursework_file_system.Disk.{Disk}
use coursework_file_system.DiskView.{read_as, write_as}

pub record Allocator : Type 0 where
  pub disk : Disk
  pub alloc_root : ℕ
  pub node_cache : List (ℕ × AllocatorNode)
  pub node_dirty : List (ℕ × Bool)

unfoldable pub on_disk : {A : Type 0} → Cmd Disk A → Cmd Allocator A
on_disk m a = within (λ s d. record s { disk = d }) a (m a.disk)

cache_node : ℕ → AllocatorNode → Cmd Allocator (Unit {0})
cache_node addr node a = done tt (record a { node_cache = insert addr node a.node_cache })

mark_node : ℕ → Bool → Cmd Allocator (Unit {0})
mark_node addr dirty a = done tt (record a { node_dirty = insert addr dirty a.node_dirty })

load_node : ℕ → Cmd Allocator AllocatorNode
unfolding on_disk cache_node mark_node
load_node addr = do
  node ← on_disk (read_as decode_allocator addr)
  cache_node addr node
  mark_node addr false
  pure node

-- `fetch_node`: from the cache, or from the disk into the cache.
unfoldable pub fetch_node : ℕ → Cmd Allocator AllocatorNode
unfolding load_node
fetch_node addr a = elim (lookup addr a.node_cache) [
  | none ↦ load_node addr a
  | some node ↦ done node a
]

unfoldable pub set_dirty : ℕ → Cmd Allocator (Unit {0})
unfolding mark_node
set_dirty addr = mark_node addr true

-- `node_dirty_[addr]`, false where there is no entry.
abbrev pub is_dirty : Option Bool → Bool
is_dirty none = false
is_dirty (some b) = b

sync_nodes : List (ℕ × AllocatorNode) → Cmd Allocator (Unit {0})
sync_nodes [] = pure tt
sync_nodes ((addr, node) ∷ rest) = λ a.
    let keep = sync_nodes rest a in
    let write = (on_disk (write_as encode_allocator addr node) >> sync_nodes rest) a in
    if is_dirty (lookup addr a.node_dirty) then write else keep

clear_cache : Cmd Allocator (Unit {0})
clear_cache a = done tt (record a { node_cache = []; node_dirty = [] })

-- `sync`: the dirty nodes to the disk, and an empty cache.
unfoldable pub sync : Cmd Allocator (Unit {0})
unfolding on_disk sync_nodes clear_cache
sync = (λ a. sync_nodes a.node_cache a) >> clear_cache

-- The entries of `tree_data`, two words each: `extent(i)` is `disk_block_no` and `len`;
-- `extent_index(i)` begins with `node_addr`.
abbrev pub extent : AllocatorNode → ℕ → Extent
extent node i = record {
  disk_block_no = get_or node.tree_words (2 * i) 0;
  len = get_or node.tree_words (2 * i + 1) 0;
}

abbrev pub set_extent : AllocatorNode → ℕ → Extent → AllocatorNode
set_extent node i e =
    let words = set node.tree_words (2 * i) e.disk_block_no in
    record node { tree_words = set words (2 * i + 1) e.len }

abbrev pub index_addr : AllocatorNode → ℕ
index_addr node = get_or node.tree_words 0 0

-- The walk from the root to the leftmost leaf, on fuel. A path that is longer than the fuel
-- counts as one that never ends.
unfoldable pub descend : ℕ → ℕ → AllocatorNode → Cmd Allocator (ℕ × AllocatorNode)
unfolding fetch_node
descend zero addr node = fault
descend (suc fuel) addr node = λ a.
    let down = (do child ← fetch_node (index_addr node); descend fuel (index_addr node) child) a in
    if ltb 0 node.header.tree_depth then down else done (addr, node) a

-- `tree_depth` is a 16-bit number that falls with each step in a well-formed tree.
max_depth : ℕ
max_depth = 2 ^ 16

-- The body of the source's `node_remove_entry` is commented out.
unfoldable pub node_remove_entry : ℕ → ℕ → Cmd Allocator (Unit {0})
node_remove_entry addr index = pure tt

-- `++entry.disk_block_no; --entry.len;` on `uint64_t`.
abbrev pub shrink : Extent → Extent
shrink e = record {
  disk_block_no = (e.disk_block_no + 1) % 2 ^ 64;
  len = (e.len + 2 ^ 64 - 1) % 2 ^ 64;
}

take_first : ℕ → AllocatorNode → Cmd Allocator ℕ
unfolding node_remove_entry cache_node set_dirty
take_first addr node =
    let entry = extent node 0 in
    if node.header.entries == 0 then pure 0 else do
      if entry.len == 1
          then node_remove_entry addr 0
          else cache_node addr (set_extent node 0 (shrink entry))
      set_dirty addr
      pure entry.disk_block_no

-- `new_block_i`
unfoldable pub new_block_i : Cmd Allocator ℕ
unfolding fetch_node descend max_depth take_first
new_block_i a =
    (do
      root ← fetch_node a.alloc_root
      (addr, node) ← descend max_depth a.alloc_root root
      take_first addr node)
      a

-- `new_block`
unfoldable pub new_block : Cmd Allocator ℕ
unfolding new_block_i sync
new_block = do ret ← new_block_i; sync; pure ret

-- `delete_block`: "todo recycle".
unfoldable pub delete_block : ℕ → Cmd Allocator (Unit {0})
delete_block addr = pure tt
