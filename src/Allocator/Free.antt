-- ===== src/Allocator/Free.antt =====
-- The allocator of src/fs_allocator.h as a pool of free blocks: one extent, taken from the front.
use coursework_file_system.Prelude.{
  ℕ, zero, suc, ◌+◌, ◌-◌, ◌%◌, ◌^◌, ◌≤◌, ◌<◌, ◌≡◌, ◌≢◌, refl, List, [], ◌∷◌, set, arith, length-set,
  ==_ne, get_or-set_self, get_or-set_ne, ◌∙◌, ap,
}
use coursework_file_system.Bytes.{Bytes}
use coursework_file_system.Run.{done, Cmd, pure, ◌>>=◌}
use coursework_file_system.Node.{AllocatorNode, AllocatorFits, Extent}
use coursework_file_system.Node.Codec.{encode_allocator}
use coursework_file_system.Disk.{Disk}
use coursework_file_system.DiskView.{stored}
use coursework_file_system.Allocator.{Allocator, extent, new_block, shrink}
use coursework_file_system.Allocator.Leaf.{
  AtRest, AtRest-stored, AtRest-stored_ne, AtRest-frame, idle, taken, taken-AllocatorFits,
  new_block-done,
}

-- The blocks `first`, …, `first + count - 1` are free.
pub record Free (d : Disk) (root first count : ℕ) : Type 0 where
  pub node : AllocatorNode
  pub rest : AtRest d root node
  pub first_free : (extent node 0).disk_block_no ≡ first
  pub count_free : (extent node 0).len ≡ count
  pub some_free : 0 < count
  pub in_range : first + count ≤ 2 ^ 64

pub Free-eq :
    {d : Disk} {root f f' n n' : ℕ} → Free d root f n → f ≡ f' → n ≡ n' → Free d root f' n'
Free-eq free p q = record {
  node = free.node;
  rest = free.rest;
  first_free = free.first_free ∙ p;
  count_free = free.count_free ∙ q;
  some_free = omega (arith, free.some_free);
  in_range = omega (arith, free.in_range);
}

extent-taken :
    (node : AllocatorNode)
    → AllocatorFits node
    → ((extent (taken node) 0).disk_block_no ≡ ((extent node 0).disk_block_no + 1) % 2 ^ 64)
      × ((extent (taken node) 0).len ≡ ((extent node 0).len + 2 ^ 64 - 1) % 2 ^ 64)
extent-taken node f = (
  get_or-set_ne (set words 0 (next.disk_block_no)) 1 0 next.len 0 (omega arith)
      ∙ get_or-set_self words 0 next.disk_block_no 0 (omega (arith, f.words)),
  get_or-set_self (set words 0 next.disk_block_no) 1 next.len 0
      (omega (arith, f.words, length-set words 0 next.disk_block_no)),
)
  where
    words : List ℕ
    words = node.tree_words

    next : Extent
    next = shrink (extent node 0)

-- What a call leaves of the disk: all other sectors, and the geometry.
pub record SameBut (root : ℕ) (d d' : Disk) : Type 0 where
  pub description : d'.description ≡ d.description
  pub sector : (addr : ℕ) → addr ≢ root → d'.sector addr ≡ d.sector addr

pub SameBut-stored : (d : Disk) (root : ℕ) (bytes : Bytes) → SameBut root d (stored d root bytes)
SameBut-stored d root bytes = record {
  description = refl;
  sector = λ addr ne. rw (==_ne addr root ne);
}

pub SameBut-trans :
    {root : ℕ} {a b c : Disk} → SameBut root a b → SameBut root b c → SameBut root a c
SameBut-trans s t = record {
  description = t.description ∙ s.description;
  sector = λ addr ne. t.sector addr ne ∙ s.sector addr ne;
}

module _ (d : Disk) (root first count : ℕ) (free : Free d root first count) where
  Free-taken :
      1 < count
      → Free (stored d root (encode_allocator (taken free.node))) root (first + 1) (count - 1)
  Free-taken more = record {
    node = taken free.node;
    rest =
        AtRest-stored d root free.node (taken free.node) free.rest
          (taken-AllocatorFits free.node free.rest.fits) refl;
    first_free = omega (
      arith,
      (extent-taken free.node free.rest.fits).0,
      free.first_free,
      free.some_free,
      free.in_range,
    );
    count_free =
        omega (arith, (extent-taken free.node free.rest.fits).1, free.count_free, free.in_range);
    some_free = omega arith;
    in_range = omega (arith, free.in_range);
  }

  -- While more than one block is free, `new_block` returns the first free block, takes it off the
  -- pool, empties the cache, and writes no sector but the allocator's root.
  pub new_block-Free :
      1 < count
      → (d' : Disk) × (new_block (idle d root) ≡ done first (idle d' root))
        × Free d' root (first + 1) (count - 1)
        × SameBut root d d'
  new_block-Free more = (
    stored d root (encode_allocator (taken free.node)),
    new_block-done d root free.node free.rest (omega (arith, free.count_free))
        ∙ ap (λ b. done b (idle (stored d root (encode_allocator (taken free.node))) root))
            free.first_free,
    Free-taken more,
    SameBut-stored d root _,
  )

-- `k` calls of `new_block` in a row.
unfoldable pub allocate : ℕ → Cmd Allocator (List ℕ)
allocate zero = pure []
allocate (suc k) = do block ← new_block; blocks ← allocate k; pure (block ∷ blocks)

unfoldable pub blocks_from : ℕ → ℕ → List ℕ
blocks_from first zero = []
blocks_from first (suc k) = first ∷ blocks_from (first + 1) k

-- As long as one block stays free, `k` calls of `new_block` return `k` blocks in a row, hence
-- all different, which are no longer in the pool, and write no sector but the allocator's root.
pub allocate-Free :
    (k : ℕ) (d : Disk) (root first count : ℕ)
    → Free d root first count
    → k < count
    → (d' : Disk) × (allocate k (idle d root) ≡ done (blocks_from first k) (idle d' root))
      × Free d' root (first + k) (count - k)
      × SameBut root d d'
unfolding allocate blocks_from
allocate-Free zero d root first count free lt = (
  d,
  refl,
  Free-eq free (omega arith) (omega arith),
  record { description = refl; sector = λ addr ne. refl },
)
allocate-Free (suc k) d root first count free lt =
    let (d1, call, free1, same1) = new_block-Free d root first count free (omega arith) in
    let (d2, calls, free2, same2) =
      allocate-Free k d1 root (first + 1) (count - 1) free1 (omega arith) in
    (d2, rw (call, calls), Free-eq free2 (omega arith) (omega arith), SameBut-trans same1 same2)

-- A write to another sector leaves the pool as it is.
pub Free-stored_ne :
    (d : Disk) (root first count addr : ℕ) (bytes : Bytes)
    → Free d root first count
    → root ≢ addr
    → Free (stored d addr bytes) root first count
Free-stored_ne d root first count addr bytes free ne = record {
  node = free.node;
  rest = AtRest-stored_ne d root free.node addr bytes free.rest ne;
  first_free = free.first_free;
  count_free = free.count_free;
  some_free = free.some_free;
  in_range = free.in_range;
}

-- The pool lies in the root sector alone.
pub Free-frame :
    {d d' : Disk} {root first count : ℕ}
    → Free d root first count
    → d'.description ≡ d.description
    → d'.sector root ≡ d.sector root
    → Free d' root first count
Free-frame free same kept = record {
  node = free.node;
  rest = AtRest-frame free.rest same kept;
  first_free = free.first_free;
  count_free = free.count_free;
  some_free = free.some_free;
  in_range = free.in_range;
}
