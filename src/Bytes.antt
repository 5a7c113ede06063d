-- ===== src/Bytes.antt =====
-- Little-endian machine words in memory: what a `reinterpret_cast` of a sector's 256 bytes to one
-- of the structs of src/fs_block_structure.h reads, and what the cast back writes.
use coursework_file_system.Prelude.{
  ℕ, zero, suc, ◌+◌, ◌*◌, ◌/◌, ◌%◌, ◌^◌, ◌<◌, ◌≡◌, refl, ap, List, [], ◌∷◌, ◌++◌, arith, length,
  length-append, All,
}
use native.Mathlib.Nat.{pow-suc}
use mathlib.Core.List.{append_assoc}

abbrev pub Bytes : Type 0
Bytes = List ℕ

-- A word of `w` bytes, lowest byte first.
unfoldable pub put_word : ℕ → ℕ → Bytes
put_word zero n = []
put_word (suc w) n = (n % 256) ∷ put_word w (n / 256)

-- The word of the first `w` bytes, and the bytes behind it.
unfoldable pub get_word : ℕ → Bytes → ℕ × Bytes
get_word zero bs = (0, bs)
get_word (suc w) [] = (0, [])
get_word (suc w) (b ∷ bs) = let (n, rest) = get_word w bs in (b + 256 * n, rest)

unfoldable pub put_words : List ℕ → Bytes
put_words [] = []
put_words (n ∷ ns) = put_word 8 n ++ put_words ns

unfoldable pub get_words : ℕ → Bytes → List ℕ × Bytes
get_words zero bs = ([], bs)
get_words (suc k) bs =
    let (n, rest) = get_word 8 bs in let (ns, rest') = get_words k rest in (n ∷ ns, rest')

-- The first `k` bytes as they are, and the bytes behind them.
unfoldable pub get_bytes : ℕ → Bytes → Bytes × Bytes
get_bytes zero bs = ([], bs)
get_bytes (suc k) [] = ([], [])
get_bytes (suc k) (b ∷ bs) = let (front, rest) = get_bytes k bs in (b ∷ front, rest)

pub get_word-put_word :
    (w n : ℕ) (rest : Bytes) → n < 256 ^ w → get_word w (put_word w n ++ rest) ≡ (n, rest)
unfolding put_word get_word
get_word-put_word zero n rest h = ap (λ k. (k, rest)) (omega arith)
get_word-put_word (suc w) n rest h =
    rw (get_word-put_word w (n / 256) rest (omega (arith, pow-suc 256 w)))
      (ap (λ k. (k, rest)) (omega arith))

pub length-put_word : (w n : ℕ) → length (put_word w n) ≡ w
unfolding put_word
length-put_word zero n = refl
length-put_word (suc w) n = ap suc (length-put_word w (n / 256))

pub get_words-put_words :
    (ns : List ℕ) (rest : Bytes)
    → All (λ n. n < 256 ^ 8) ns
    → get_words (length ns) (put_words ns ++ rest) ≡ (ns, rest)
unfolding get_words put_words
get_words-put_words [] rest h = refl
get_words-put_words (n ∷ ns) rest h = rw (
  append_assoc,
  get_word-put_word 8 n (put_words ns ++ rest) h.0,
  get_words-put_words ns rest h.1,
)

pub length-put_words : (ns : List ℕ) → length (put_words ns) ≡ 8 * length ns
unfolding put_words
length-put_words [] = refl
length-put_words (n ∷ ns) =
    omega
      (arith, length-append (put_word 8 n) (put_words ns), length-put_word 8 n, length-put_words ns)

pub get_bytes-append : (bs rest : Bytes) → get_bytes (length bs) (bs ++ rest) ≡ (bs, rest)
unfolding get_bytes
get_bytes-append [] rest = refl
get_bytes-append (b ∷ bs) rest = rw (get_bytes-append bs rest)
