-- ===== src/Fs/File/Fill.antt =====
-- The second loop of `write_all` of src/fs.h: the full blocks of the text go to their sectors.
use coursework_file_system.Prelude.{
  ℕ, zero, suc, ◌+◌, ◌*◌, ◌<◌, ◌≤◌, ◌≡◌, ◌≢◌, refl, ◌∙◌, some, List, length, arith, ==_self, ==_ne,
  leb-true, ℕ_discrete,
}
use coursework_file_system.Bytes.{Bytes}
use coursework_file_system.Memory.{slice, read_range, length-slice}
use coursework_file_system.Run.{done}
use coursework_file_system.Node.{DirectoryNode, extent_addr}
use coursework_file_system.Disk.{Disk, sectors}
use coursework_file_system.DiskView.{block_size, stored}
use coursework_file_system.Fs.Mounted.{mounted, write_block-done}
use coursework_file_system.Fs.File.{write_blocks}

-- The disk after blocks `i`, …, `i + k - 1` of `text` are written.
unfoldable pub filled : Disk → (ℕ → ℕ) → Bytes → ℕ → ℕ → Disk
filled d ext text zero i = d
filled d ext text (suc k) i =
    filled (stored d (ext i) (slice text (i * 0x100) 0x100)) ext text k (i + 1)

module _ (ext : ℕ → ℕ) (text : Bytes) where
  pub description-filled :
      (k i : ℕ) (d : Disk) → (filled d ext text k i).description ≡ d.description
  unfolding filled
  description-filled zero i d = refl
  description-filled (suc k) i d =
      description-filled k (i + 1) (stored d (ext i) (slice text (i * 0x100) 0x100))

  -- Other sectors stay.
  pub filled_ne :
      (k i a : ℕ) (d : Disk)
      → ((j : ℕ) → i ≤ j → j < i + k → a ≢ ext j)
      → (filled d ext text k i).sector a ≡ d.sector a
  unfolding filled
  filled_ne zero i a d h = refl
  filled_ne (suc k) i a d h =
      filled_ne k (i + 1) a (stored d (ext i) (slice text (i * 0x100) 0x100))
        (λ j lo hi. h j (omega arith) (omega arith))
      ∙ rw (==_ne a (ext i) (h i (omega arith) (omega arith)))

  -- Block `j` stands in its sector.
  pub filled_at :
      (k i j : ℕ) (d : Disk)
      → ((a b : ℕ) → i ≤ a → a < i + k → i ≤ b → b < i + k → a ≢ b → ext a ≢ ext b)
      → i ≤ j
      → j < i + k
      → (filled d ext text k i).sector (ext j) ≡ slice text (j * 0x100) 0x100
  unfolding filled
  filled_at zero i j d distinct lo hi = absurd (omega arith)
  filled_at (suc k) i j d distinct lo hi = elim (ℕ_discrete j i) [
    | yes e ↦
        filled_ne k (i + 1) (ext j) (stored d (ext i) (slice text (i * 0x100) 0x100)) (λ b lb hb.
          distinct j b (omega arith) (omega arith) (omega arith) (omega arith) (omega arith))
        ∙ rw (e, ==_self (ext i))
    | no ne ↦
        filled_at k (i + 1) j (stored d (ext i) (slice text (i * 0x100) 0x100))
          (λ a b la ha lb hb n.
            distinct a b (omega arith) (omega arith) (omega arith) (omega arith) n)
          (omega arith) (omega arith)
  ]

  pub write_blocks-done :
      (k i : ℕ) (d : Disk) (max : ℕ) (counts : List (ℕ × ℕ)) (node : DirectoryNode)
      → d.description.bytes_per_sector ≡ block_size
      → ((j : ℕ) → i ≤ j → j < i + k → extent_addr node j ≡ some (ext j))
      → ((j : ℕ) → i ≤ j → j < i + k → ext j < sectors d.description)
      → (i + k) * 0x100 ≤ length text
      → write_blocks node text k i (mounted d max counts)
        ≡ done tt (mounted (filled d ext text k i) max counts)
  unfolding write_blocks read_range filled
  write_blocks-done zero i d max counts node ready pointer valid fits = refl
  write_blocks-done (suc k) i d max counts node ready pointer valid fits =
      let block = slice text (i * 0x100) 0x100 in
      rw
        (
          pointer i (omega arith) (omega arith),
          leb-true (i * 0x100 + 0x100) (length text) (omega arith),
          write_block-done d max counts (ext i) block ready (valid i (omega arith) (omega arith))
              (length-slice text (i * 0x100) 0x100 (omega arith)),
        )
        (write_blocks-done k (i + 1) (stored d (ext i) block) max counts node ready
          (λ j lo hi. pointer j (omega arith) (omega arith))
          (λ j lo hi. valid j (omega arith) (omega arith)) (omega arith))
