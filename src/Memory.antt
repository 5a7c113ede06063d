-- ===== src/Memory.antt =====
-- Byte buffers: the ranges that `memcpy` reads and writes. A range that leaves its buffer is
-- undefined behaviour, `none`.
use coursework_file_system.Prelude.{
  ℕ, zero, suc, ◌+◌, ◌≤◌, ◌≡◌, refl, ap, sym, ◌∙◌, Option, none, some, [], ◌∷◌, ◌++◌, arith, length,
  length-take, length-drop, take, drop, leb, if◌then◌else◌,
}
use coursework_file_system.Bytes.{Bytes}

-- `n` bytes from offset `off`.
abbrev pub slice : Bytes → ℕ → ℕ → Bytes
slice buf off n = take n (drop off buf)

abbrev pub overwrite : Bytes → Bytes → Bytes
overwrite buf [] = buf
overwrite [] (d ∷ ds) = []
overwrite (x ∷ xs) (d ∷ ds) = d ∷ overwrite xs ds

-- `bytes` over what stands at offset `off`.
abbrev pub splice : Bytes → ℕ → Bytes → Bytes
splice buf zero bytes = overwrite buf bytes
splice [] (suc off) bytes = []
splice (x ∷ xs) (suc off) bytes = x ∷ splice xs off bytes

unfoldable pub read_range : Bytes → ℕ → ℕ → Option Bytes
read_range buf off n = if leb (off + n) (length buf) then some (slice buf off n) else none

-- `memcpy(buf + off, bytes, length)`
unfoldable pub memcpy : Bytes → ℕ → Bytes → Option Bytes
memcpy buf off bytes =
    if leb (off + length bytes) (length buf) then some (splice buf off bytes) else none

length-overwrite : (buf bytes : Bytes) → length (overwrite buf bytes) ≡ length buf
length-overwrite buf [] = refl
length-overwrite [] (d ∷ ds) = refl
length-overwrite (x ∷ xs) (d ∷ ds) = ap suc (length-overwrite xs ds)

pub length-splice :
    (buf : Bytes) (off : ℕ) (bytes : Bytes) → length (splice buf off bytes) ≡ length buf
length-splice buf zero bytes = length-overwrite buf bytes
length-splice [] (suc off) bytes = refl
length-splice (x ∷ xs) (suc off) bytes = ap suc (length-splice xs off bytes)

take-overwrite :
    (buf bytes : Bytes)
    → length bytes ≤ length buf
    → take (length bytes) (overwrite buf bytes) ≡ bytes
take-overwrite buf [] h = refl
take-overwrite [] (d ∷ ds) h = absurd (omega arith)
take-overwrite (x ∷ xs) (d ∷ ds) h = ap (λ r. d ∷ r) (take-overwrite xs ds (omega arith))

-- What is written is read back.
pub slice-splice_self :
    (buf : Bytes) (off : ℕ) (bytes : Bytes)
    → off + length bytes ≤ length buf
    → slice (splice buf off bytes) off (length bytes) ≡ bytes
slice-splice_self buf zero bytes h = take-overwrite buf bytes (omega arith)
slice-splice_self [] (suc off) [] h = refl
slice-splice_self [] (suc off) (d ∷ ds) h = absurd (omega arith)
slice-splice_self (x ∷ xs) (suc off) bytes h = slice-splice_self xs off bytes (omega arith)

pub slice-splice_at :
    (buf : Bytes) (off : ℕ) (bytes : Bytes) (n : ℕ)
    → length bytes ≡ n
    → off + n ≤ length buf
    → slice (splice buf off bytes) off n ≡ bytes
slice-splice_at buf off bytes n e h =
    ap (slice (splice buf off bytes) off) (sym e) ∙ slice-splice_self buf off bytes (omega arith)

drop-overwrite :
    (buf bytes : Bytes) (o : ℕ) → length bytes ≤ o → drop o (overwrite buf bytes) ≡ drop o buf
drop-overwrite buf [] o h = refl
drop-overwrite [] (d ∷ ds) o h = refl
drop-overwrite (x ∷ xs) (d ∷ ds) zero h = absurd (omega arith)
drop-overwrite (x ∷ xs) (d ∷ ds) (suc o) h = drop-overwrite xs ds o (omega arith)

-- What lies in front of a write or behind it stays.
pub slice-splice_before :
    (buf : Bytes) (off : ℕ) (bytes : Bytes) (o n : ℕ)
    → o + n ≤ off
    → slice (splice buf off bytes) o n ≡ slice buf o n
slice-splice_before buf zero bytes zero zero h = refl
slice-splice_before buf zero bytes zero (suc n) h = absurd (omega arith)
slice-splice_before buf zero bytes (suc o) n h = absurd (omega arith)
slice-splice_before [] (suc off) bytes o n h = refl
slice-splice_before (x ∷ xs) (suc off) bytes zero zero h = refl
slice-splice_before (x ∷ xs) (suc off) bytes zero (suc n) h =
    ap (λ r. x ∷ r) (slice-splice_before xs off bytes zero n (omega arith))
slice-splice_before (x ∷ xs) (suc off) bytes (suc o) n h =
    slice-splice_before xs off bytes o n (omega arith)

pub slice-splice_after :
    (buf : Bytes) (off : ℕ) (bytes : Bytes) (o n : ℕ)
    → off + length bytes ≤ o
    → slice (splice buf off bytes) o n ≡ slice buf o n
slice-splice_after buf zero bytes o n h = ap (take n) (drop-overwrite buf bytes o (omega arith))
slice-splice_after [] (suc off) bytes o n h = refl
slice-splice_after (x ∷ xs) (suc off) bytes zero n h = absurd (omega arith)
slice-splice_after (x ∷ xs) (suc off) bytes (suc o) n h =
    slice-splice_after xs off bytes o n (omega arith)

-- The bytes up to the end of a write.
pub take-splice :
    (buf : Bytes) (off : ℕ) (bytes : Bytes)
    → off + length bytes ≤ length buf
    → take (off + length bytes) (splice buf off bytes) ≡ take off buf ++ bytes
take-splice buf zero bytes h =
    ap (λ k. take k (overwrite buf bytes)) (omega arith) ∙ take-overwrite buf bytes (omega arith)
take-splice [] (suc off) bytes h = absurd (omega arith)
take-splice (x ∷ xs) (suc off) bytes h =
    let e : suc off + length bytes ≡ suc (off + length bytes) = omega arith in
    ap (λ k. take k (x ∷ splice xs off bytes)) e
    ∙ ap (λ r. x ∷ r) (take-splice xs off bytes (omega arith))

-- What follows a text is not seen inside it.
pub slice-append :
    (xs ys : Bytes) (off n : ℕ) → off + n ≤ length xs → slice (xs ++ ys) off n ≡ slice xs off n
slice-append xs ys zero zero h = refl
slice-append [] ys zero (suc n) h = absurd (omega arith)
slice-append (x ∷ xs) ys zero (suc n) h = ap (λ r. x ∷ r) (slice-append xs ys zero n (omega arith))
slice-append [] ys (suc off) zero h = absurd (omega arith)
slice-append [] ys (suc off) (suc n) h = absurd (omega arith)
slice-append (x ∷ xs) ys (suc off) n h = slice-append xs ys off n (omega arith)

pub length-slice : (buf : Bytes) (off n : ℕ) → off + n ≤ length buf → length (slice buf off n) ≡ n
length-slice buf off n h = omega (arith, length-take n (drop off buf), length-drop off buf)
