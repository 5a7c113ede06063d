-- ===== src/Fs/File/Read.antt =====
-- `read_all` of src/fs.h returns the content of a file.
use coursework_file_system.Prelude.{
  ℕ, zero, suc, ◌+◌, ◌-◌, ◌*◌, ◌≤◌, ◌≡◌, refl, subst, ap, ap₂, sym, ◌∙◌, some, List, ◌++◌, length,
  take, replicate, arith, ==_ne, leb-true, take_all, take-add, length-replicate, length-take,
}
use coursework_file_system.Bytes.{Bytes}
use coursework_file_system.Memory.{slice, splice, memcpy, read_range, length-splice, take-splice}
use coursework_file_system.Run.{done}
use coursework_file_system.Node.{DirectoryNode, extent_addr}
use coursework_file_system.Disk.{Disk}
use coursework_file_system.Fs.Mounted.{mounted, read_node-done, read_block-done}
use coursework_file_system.Fs.File.{
  read_blocks, stored_size, rounds, read_tail, read_all, blocks_for, offset_for,
}
use coursework_file_system.Fs.File.Layout.{FileHolds}

-- The buffer agrees with the content in its first `m` bytes.
pub record Filled (bytes : Bytes) (m : ℕ) (ret : Bytes) : Type 0 where
  pub size : length ret ≡ length bytes
  pub front : take m ret ≡ take m bytes

-- One `memcpy` of the next piece.
Filled-memcpy :
    (bytes ret piece : Bytes) (m n : ℕ)
    → Filled bytes m ret
    → piece ≡ slice bytes m n
    → length piece ≡ n
    → m + n ≤ length bytes
    → (memcpy ret m piece ≡ some (splice ret m piece)) × Filled bytes (m + n) (splice ret m piece)
unfolding memcpy
Filled-memcpy bytes ret piece m n f e len fits = (
  rw (leb-true (m + length piece) (length ret) (omega (arith, f.size))),
  record {
    size = length-splice ret m piece ∙ f.size;
    front =
        ap (λ k. take (m + k) (splice ret m piece)) (sym len)
        ∙ take-splice ret m piece (omega (arith, f.size))
        ∙ ap₂ ◌++◌ f.front e
        ∙ sym (take-add m n bytes);
  },
)

module _ (d : Disk) (max : ℕ) (counts : List (ℕ × ℕ)) (addr : ℕ) (node : DirectoryNode)
    (bytes : Bytes) (file : FileHolds d addr node bytes) where
  read_blocks-Filled :
      (k i : ℕ) (ret : Bytes)
      → i + k ≡ blocks_for (length bytes) - 1
      → Filled bytes (i * 0x100) ret
      → (out : Bytes) × (read_blocks node k i ret (mounted d max counts)
          ≡ done out (mounted d max counts))
        × Filled bytes ((blocks_for (length bytes) - 1) * 0x100) out
  unfolding read_blocks
  read_blocks-Filled zero i ret e f = (ret, refl, subst (λ m. Filled bytes m ret) (omega arith) f)
  read_blocks-Filled (suc k) i ret e f =
      let (sector, block, held) = file.full i (omega arith) in
      let (copied, g) =
        Filled-memcpy bytes ret (d.sector sector) (i * 0x100) 0x100 f held block.size
          (omega arith) in
      let (out, run, g') =
        read_blocks-Filled k (i + 1) (splice ret (i * 0x100) (d.sector sector)) (omega arith) (
          subst (λ m. Filled bytes m (splice ret (i * 0x100) (d.sector sector))) (omega arith) g) in
      (
        out,
        rw (block.pointer, read_block-done d max counts sector file.holds.ready block.valid, copied)
            run,
        g',
      )

  last_index : node.header.entries - 1 ≡ blocks_for (length bytes) - 1
  last_index = omega (arith, file.entries)

  -- The piece that the last block contributes.
  tail_of : ℕ → Bytes
  tail_of e = take node.size_offset (d.sector e)

  tail-slice :
      (e : ℕ)
      → take (offset_for (length bytes)) (d.sector e)
        ≡ slice bytes ((blocks_for (length bytes) - 1) * 0x100) (offset_for (length bytes))
      → tail_of e ≡ slice bytes ((node.header.entries - 1) * 0x100) node.size_offset
  unfolding tail_of
  tail-slice e held =
      ap (λ k. take k (d.sector e)) file.size_offset
      ∙ held
      ∙ ap₂ (λ i k. slice bytes (i * 0x100) k) (sym last_index) (sym file.size_offset)

  whole : (node.header.entries - 1) * 0x100 + node.size_offset ≡ length bytes
  whole = omega (arith, file.entries, file.size_offset, file.nonempty)

  Filled-whole :
      (ret : Bytes)
      → Filled bytes ((node.header.entries - 1) * 0x100 + node.size_offset) ret
      → ret ≡ bytes
  Filled-whole ret f =
      sym (
        take_all ((node.header.entries - 1) * 0x100 + node.size_offset) ret
          (omega (arith, f.size, whole)))
      ∙ f.front
      ∙ take_all ((node.header.entries - 1) * 0x100 + node.size_offset) bytes (omega (arith, whole))

  read_tail-done :
      (ret : Bytes)
      → Filled bytes ((blocks_for (length bytes) - 1) * 0x100) ret
      → read_tail node ret (mounted d max counts) ≡ done bytes (mounted d max counts)
  unfolding read_tail read_range tail_of
  read_tail-done ret f =
      let (e, block, held) = file.last in
      let at_end : extent_addr node (node.header.entries - 1) ≡ some e =
        ap (extent_addr node) last_index ∙ block.pointer in
      let inside : 0 + node.size_offset ≤ length (d.sector e) =
        omega (arith, block.size, file.size_offset) in
      let len : length (tail_of e) ≡ node.size_offset =
        omega (arith, length-take node.size_offset (d.sector e)) in
      let here : Filled bytes ((node.header.entries - 1) * 0x100) ret =
        subst (λ i. Filled bytes (i * 0x100) ret) (sym last_index) f in
      let (copied, g) =
        Filled-memcpy bytes ret (tail_of e) ((node.header.entries - 1) * 0x100) node.size_offset
          here (tail-slice e held) len (omega (arith, whole)) in
      rw
        (
          at_end,
          read_block-done d max counts e file.holds.ready block.valid,
          leb-true (0 + node.size_offset) (length (d.sector e)) inside,
          copied,
        )
        (ap (λ r. done r (mounted d max counts)) (Filled-whole _ g))

  empty-Filled : Filled bytes (0 * 0x100) (replicate (stored_size node) 0)
  empty-Filled = record {
    size =
        length-replicate (stored_size node) 0
        ∙ omega (arith, file.size_blocks, file.size_offset, file.nonempty, file.small);
    front = refl;
  }

  -- On a file as `FileHolds` says, `read_all` returns exactly the file's content, and changes nothing.
  pub read_all-FileHolds : read_all addr (mounted d max counts) ≡ done bytes (mounted d max counts)
  unfolding read_all
  read_all-FileHolds =
      let (out, run, f) =
        read_blocks-Filled (rounds node) 0 (replicate (stored_size node) 0)
          (omega (arith, file.entries, file.nonempty, file.small)) empty-Filled in
      rw
        (
          read_node-done d max counts file.holds,
          ==_ne node.size_blocks 0 (omega (arith, file.size_blocks, file.nonempty)),
          ==_ne node.header.entries 0 (omega (arith, file.entries, file.nonempty)),
          run,
        )
        (read_tail-done out f)
