-- ===== src/Allocator/Exhausted.antt =====
-- The end of the pool of src/fs_allocator.h. `node_remove_entry` does nothing, so an extent of one
-- block never becomes empty, and `new_block` never reports that the disk is full.
use coursework_file_system.Prelude.{ℕ, zero, suc, ◌≡◌, ◌∙◌, refl, ap, replicate}
use coursework_file_system.Run.{done}
use coursework_file_system.Node.Codec.{encode_allocator}
use coursework_file_system.Disk.{Disk}
use coursework_file_system.DiskView.{stored}
use coursework_file_system.Allocator.{new_block}
use coursework_file_system.Allocator.Leaf.{AtRest-stored, idle, new_block-last}
use coursework_file_system.Allocator.Free.{Free, SameBut, SameBut-stored, SameBut-trans, allocate}

module _ (d : Disk) (root first : ℕ) (free : Free d root first 1) where
  -- With one block left, `new_block` returns it and leaves it in the pool.
  pub new_block-Exhausted :
      (d' : Disk) × (new_block (idle d root) ≡ done first (idle d' root))
      × Free d' root first 1
      × SameBut root d d'
  new_block-Exhausted = (
    stored d root (encode_allocator free.node),
    new_block-last d root free.node free.rest free.count_free
        ∙ ap (λ b. done b (idle (stored d root (encode_allocator free.node)) root)) free.first_free,
    record {
      node = free.node;
      rest = AtRest-stored d root free.node free.node free.rest free.rest.fits refl;
      first_free = free.first_free;
      count_free = free.count_free;
      some_free = free.some_free;
      in_range = free.in_range;
    },
    SameBut-stored d root _,
  )

-- With one block left, any number of calls of `new_block` all return that same block.
pub allocate-Exhausted :
    (k : ℕ) (d : Disk) (root first : ℕ)
    → Free d root first 1
    → (d' : Disk) × (allocate k (idle d root) ≡ done (replicate k first) (idle d' root))
      × Free d' root first 1
      × SameBut root d d'
unfolding allocate
allocate-Exhausted zero d root first free =
    (d, refl, free, record { description = refl; sector = λ addr ne. refl })
allocate-Exhausted (suc k) d root first free =
    let (d1, call, free1, same1) = new_block-Exhausted d root first free in
    let (d2, calls, free2, same2) = allocate-Exhausted k d1 root first free1 in
    (d2, rw (call, calls), free2, SameBut-trans same1 same2)
