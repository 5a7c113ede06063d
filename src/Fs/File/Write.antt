-- ===== src/Fs/File/Write.antt =====
-- `write_all` of src/fs.h: what is written is what `read_all` returns.
use coursework_file_system.Prelude.{
  ℕ, ◌+◌, ◌-◌, ◌*◌, ◌<◌, ◌≤◌, ◌≡◌, ◌≢◌, refl, ap, sym, ◌∙◌, List, [], ◌∷◌, ◌++◌, length,
  length-append, take, arith, ==_self, ==_ne, leb-true,
}
use coursework_file_system.Bytes.{Bytes}
use coursework_file_system.Memory.{
  slice, splice, read_range, memcpy, length-slice, length-splice, slice-splice_at, slice-append,
}
use coursework_file_system.Run.{done, ◌>>◌}
use coursework_file_system.Node.{DirectoryNode, DirectoryFits}
use coursework_file_system.Node.Codec.{encode_directory}
use coursework_file_system.Disk.{Disk, sectors}
use coursework_file_system.DiskView.{block_size, stored}
use coursework_file_system.Allocator.Free.{Free, Free-stored_ne, Free-frame}
use coursework_file_system.Fs.{alloc_root, write_node}
use coursework_file_system.Fs.Mounted.{mounted, Holds-stored, write_node-done, write_block-done}
use coursework_file_system.Fs.File.{
  Stack, blocks_for, offset_for, resized, rounds, write_blocks, write_tail,
}
use coursework_file_system.Fs.File.Layout.{FileHolds}
use coursework_file_system.Fs.File.Grow.{Extents, Extents-frame}
use coursework_file_system.Fs.File.Fill.{
  filled, description-filled, filled_ne, filled_at, write_blocks-done,
}

abbrev pub text_of : Bytes → Bytes
text_of bytes = bytes ++ (0 ∷ [])

abbrev pub tail_of : Bytes → Bytes
tail_of bytes =
    slice (text_of bytes) ((blocks_for (length bytes) - 1) * 0x100) (offset_for (length bytes))

-- The disk after the text: the full blocks, then the last one, whose end is what the stack held.
abbrev pub poured : Disk → (ℕ → ℕ) → Stack → Bytes → Disk
poured d ext stack bytes =
    stored (filled d ext (text_of bytes) (blocks_for (length bytes) - 1) 0)
      (ext (blocks_for (length bytes) - 1)) (splice stack 0 (tail_of bytes))

-- The file's node after the call, and the disk when it is written too.
abbrev pub final : DirectoryNode → Bytes → DirectoryNode
final node bytes = resized node (blocks_for (length bytes)) (offset_for (length bytes))

abbrev pub rewritten : Disk → (ℕ → ℕ) → Stack → Bytes → ℕ → DirectoryNode → Disk
rewritten d ext stack bytes addr node =
    stored (poured d ext stack bytes) addr (encode_directory (final node bytes))

module _ (d : Disk) (first addr m : ℕ) (node : DirectoryNode) (ext : ℕ → ℕ)
    (x : Extents d first addr m node ext) (stack : Stack) (buffer : length stack ≡ 0x100)
    (bytes : Bytes) (nonempty : 0 < length bytes) (enough : blocks_for (length bytes) ≤ m) where
  length-tail_of : length (tail_of bytes) ≡ offset_for (length bytes)
  length-tail_of =
      length-slice (text_of bytes) _ _ (omega (arith, length-append bytes (0 ∷ []), nonempty))

  -- The other sectors stay.
  pub poured_ne :
      (a : ℕ)
      → ((j : ℕ) → j < blocks_for (length bytes) → a ≢ ext j)
      → (poured d ext stack bytes).sector a ≡ d.sector a
  poured_ne a h =
      rw
        (==_ne a (ext (blocks_for (length bytes) - 1))
          (h (blocks_for (length bytes) - 1) (omega (arith, nonempty))))
        (filled_ne ext (text_of bytes) (blocks_for (length bytes) - 1) 0 a d
          (λ j lo hi. h j (omega arith)))

  poured_full :
      (i : ℕ)
      → i < blocks_for (length bytes) - 1
      → (poured d ext stack bytes).sector (ext i) ≡ slice bytes (i * 0x100) 0x100
  poured_full i h =
      rw
        (==_ne (ext i) (ext (blocks_for (length bytes) - 1))
          (x.distinct i (blocks_for (length bytes) - 1) (omega arith) (omega arith) (omega arith)))
        (filled_at ext (text_of bytes) (blocks_for (length bytes) - 1) 0 i d
            (λ a b la ha lb hb ne. x.distinct a b (omega arith) (omega arith) ne) (omega arith)
            (omega arith)
          ∙ slice-append bytes (0 ∷ []) (i * 0x100) 0x100 (omega arith))

  poured_last :
      take
        (offset_for (length bytes))
        ((poured d ext stack bytes).sector (ext (blocks_for (length bytes) - 1)))
      ≡ slice bytes ((blocks_for (length bytes) - 1) * 0x100) (offset_for (length bytes))
  poured_last = rw (==_self (ext (blocks_for (length bytes) - 1))) (
      slice-splice_at stack 0 (tail_of bytes) (offset_for (length bytes)) length-tail_of
        (omega (arith, buffer))
      ∙ slice-append bytes (0 ∷ []) _ _ (omega (arith, nonempty)))

  length-poured_full :
      (i : ℕ)
      → i < blocks_for (length bytes) - 1
      → length ((poured d ext stack bytes).sector (ext i)) ≡ block_size
  length-poured_full i h =
      ap length (poured_full i h) ∙ length-slice bytes (i * 0x100) 0x100 (omega arith)

  length-poured_last :
      length ((poured d ext stack bytes).sector (ext (blocks_for (length bytes) - 1))) ≡ block_size
  length-poured_last =
      rw (==_self (ext (blocks_for (length bytes) - 1)))
        (length-splice stack 0 (tail_of bytes) ∙ buffer)

  module _ (ready : d.description.bytes_per_sector ≡ block_size)
      (valid : addr < sectors d.description) (fits : DirectoryFits node)
      (small : length bytes ≤ 2048) where
    pub same_description : (poured d ext stack bytes).description ≡ d.description
    same_description = description-filled ext (text_of bytes) (blocks_for (length bytes) - 1) 0 d

    ready_poured : (poured d ext stack bytes).description.bytes_per_sector ≡ block_size
    ready_poured = rw same_description ready

    valid_poured :
        (a : ℕ) → a < sectors d.description → a < sectors (poured d ext stack bytes).description
    valid_poured a h = rw same_description h

    final-DirectoryFits : DirectoryFits (final node bytes)
    final-DirectoryFits = ground arith

    sector-rewritten :
        (i : ℕ)
        → i < m
        → (rewritten d ext stack bytes addr node).sector (ext i)
          ≡ (poured d ext stack bytes).sector (ext i)
    sector-rewritten i h = rw (==_ne (ext i) addr (x.not_self i h))

    pub FileHolds-rewritten :
        FileHolds (rewritten d ext stack bytes addr node) addr (final node bytes) bytes
    FileHolds-rewritten = record {
      holds =
          Holds-stored (poured d ext stack bytes) addr (final node bytes) ready_poured
            (valid_poured addr valid) final-DirectoryFits;
      entries = omega (arith, small);
      size_blocks = omega (arith, small);
      size_offset = refl;
      nonempty = nonempty;
      small = small;
      full = λ i h. (
        ext i,
        record {
          pointer = x.pointer i (omega arith);
          valid = valid_poured (ext i) (x.valid i (omega arith));
          size = ap length (sector-rewritten i (omega arith)) ∙ length-poured_full i h;
        },
        sector-rewritten i (omega arith) ∙ poured_full i h,
      );
      last =
          let i = blocks_for (length bytes) - 1 in
          let inside : i < m = omega (arith, nonempty) in
          (
            ext i,
            record {
              pointer = x.pointer i inside;
              valid = valid_poured (ext i) (x.valid i inside);
              size = ap length (sector-rewritten i inside) ∙ length-poured_last;
            },
            ap (take (offset_for (length bytes))) (sector-rewritten i inside) ∙ poured_last,
          );
    }

    write_blocks-final :
        (max : ℕ) (counts : List (ℕ × ℕ))
        → write_blocks
            (final node bytes)
            (text_of bytes)
            (rounds (final node bytes))
            0
            (mounted d max counts)
          ≡ done tt
              (mounted (filled d ext (text_of bytes) (blocks_for (length bytes) - 1) 0) max counts)
    write_blocks-final max counts =
        ap (λ k. write_blocks (final node bytes) (text_of bytes) k 0 (mounted d max counts))
          same_rounds
        ∙ write_blocks-done ext (text_of bytes) (blocks_for (length bytes) - 1) 0 d max counts
            (final node bytes) ready (λ j lo hi. x.pointer j (omega arith))
            (λ j lo hi. x.valid j (omega arith))
            (omega (arith, length-append bytes (0 ∷ []), nonempty))
      where
        same_rounds : rounds (final node bytes) ≡ blocks_for (length bytes) - 1
        same_rounds = omega (arith, small, nonempty)

    write_tail-final :
        (max : ℕ) (counts : List (ℕ × ℕ))
        → write_tail stack
            (final node bytes)
            (text_of bytes)
            (blocks_for (length bytes))
            (offset_for (length bytes))
            (mounted (filled d ext (text_of bytes) (blocks_for (length bytes) - 1) 0) max counts)
          ≡ done tt (mounted (poured d ext stack bytes) max counts)
    unfolding write_tail read_range memcpy
    write_tail-final max counts =
        let i = blocks_for (length bytes) - 1 in
        rw (
          leb-true (i * 0x100 + offset_for (length bytes)) (length (text_of bytes))
              (omega (arith, length-append bytes (0 ∷ []), nonempty)),
          leb-true (0 + length (tail_of bytes)) (length stack)
              (omega (arith, length-tail_of, buffer)),
          x.pointer i (omega (arith, nonempty)),
          write_block-done (filled d ext (text_of bytes) i 0) max counts (ext i)
              (splice stack 0 (tail_of bytes)) ready_poured
              (valid_poured (ext i) (x.valid i (omega (arith, nonempty))))
              (length-splice stack 0 (tail_of bytes) ∙ buffer),
        )

    -- What `write_all` does behind its first loop.
    pub write_all-rest :
        (max : ℕ) (counts : List (ℕ × ℕ))
        → (do
          write_blocks (final node bytes) (text_of bytes) (rounds (final node bytes)) 0
          write_tail stack
              (final node bytes)
              (text_of bytes)
              (blocks_for (length bytes))
              (offset_for (length bytes))
          write_node addr (final node bytes))
            (mounted d max counts)
          ≡ done tt (mounted (rewritten d ext stack bytes addr node) max counts)
    write_all-rest max counts = rw (
      write_blocks-final max counts,
      write_tail-final max counts,
      write_node-done (poured d ext stack bytes) max counts addr (final node bytes) ready_poured
          (valid_poured addr valid) final-DirectoryFits,
    )

    pub Extents-rewritten :
        Extents
          (rewritten d ext stack bytes addr node)
          first
          addr
          (final node bytes).header.entries
          (final node bytes)
          ext
    Extents-rewritten =
        Extents-frame (final node bytes).header.entries x same_description refl
          (omega (arith, small))

    pub Free-rewritten :
        (count : ℕ)
        → addr ≢ alloc_root
        → Free d alloc_root first count
        → Free (rewritten d ext stack bytes addr node) alloc_root first count
    Free-rewritten count ne free =
        Free-stored_ne (poured d ext stack bytes) alloc_root first count addr _
          (Free-frame free same_description
            (poured_ne alloc_root (λ j h e. x.not_root j (omega arith) (sym e))))
          (λ e. ne (sym e))
