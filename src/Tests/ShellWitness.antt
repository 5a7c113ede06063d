-- ===== src/Tests/ShellWitness.antt =====
-- The theorems on src/fs_shell.h at concrete lines and answers, with numbers of twenty decimal
-- digits.
use coursework_file_system.Prelude.{
  ℕ, zero, suc, ◌+◌, ◌-◌, ◌*◌, ◌/◌, ◌%◌, ◌^◌, ◌<◌, ◌≡◌, ◌∙◌, ap, refl, sym, Bool, true, false,
  Option, none, some, [], ◌∷◌, ◌&&◌, ◌++◌, if◌then◌else◌, leb, arith,
}
use coursework_file_system.Bytes.{Bytes}
use coursework_file_system.Server.{insert_at}
use coursework_file_system.Shell.{chars, is_space, skip_space, parse_line, ask, complain, idle}
use coursework_file_system.Shell.Parse.{IsWord, Reads, typed, parse_line-typed}

abbrev digits_from : ℕ → ℕ → Bytes → Bytes
digits_from zero n out = out
digits_from (suc k) n out = digits_from k (n / 10) ((48 + n % 10) ∷ out)

abbrev pub digits : ℕ → Bytes
digits n = digits_from 20 n []

abbrev is_digit : ℕ → Bool
is_digit c = leb 48 c && leb c 57

abbrev scan : Bytes → ℕ → ℕ × Bytes
scan [] n = (n, [])
scan (c ∷ s) n = elim (is_digit c) [ true ↦ scan s (n * 10 + (c - 48)) | false ↦ (n, c ∷ s) ]

abbrev number_at : Bytes → Option (ℕ × Bytes)
number_at [] = none
number_at (c ∷ s) = elim (is_digit c) [ true ↦ some (scan (c ∷ s) 0) | false ↦ none ]

abbrev pub read_number : Bytes → Option (ℕ × Bytes)
read_number s = number_at (skip_space s)

digit-is : (d : ℕ) → d < 10 → is_digit (48 + d) ≡ true
digit-is d h = ground arith

not_space : (d : ℕ) → d < 10 → is_space (48 + d) ≡ false
not_space d h = ground arith

scan-digits : (k n : ℕ) (out : Bytes) → n < 10 ^ k → scan (digits_from k n out) 0 ≡ scan out n
scan-digits zero n out h = ap (scan out) (omega (arith, h))
scan-digits (suc k) n out h =
    scan-digits k (n / 10) ((48 + n % 10) ∷ out) (omega (arith, h))
    ∙ rw (scan, digit-is (n % 10) (omega arith)) (ap (scan out) (omega arith))

starts :
    (k n : ℕ) (out : Bytes)
    → (d : ℕ) × (s : Bytes) × (d < 10) × (digits_from (suc k) n out ≡ (48 + d) ∷ s)
starts zero n out = (n % 10, out, omega arith, refl)
starts (suc k) n out = starts k (n / 10) ((48 + n % 10) ∷ out)

number_at-digit :
    (d : ℕ) (s : Bytes) → d < 10 → read_number (32 ∷ (48 + d) ∷ s) ≡ some (scan ((48 + d) ∷ s) 0)
unfolding skip_space
number_at-digit d s small = rw (not_space d small, if◌then◌else◌, number_at, digit-is d small) refl

read_digits :
    (n : ℕ) (out : Bytes) → n < 2 ^ 64 → read_number (32 ∷ digits_from 20 n out) ≡ some (scan out n)
read_digits n out h =
    let (d, s, small, e) = starts 19 n out in
    ap (λ t. read_number (32 ∷ t)) e
    ∙ number_at-digit d s small
    ∙ ap (λ t. some (scan t 0)) (sym e)
    ∙ ap some (scan-digits 20 n out (omega (arith, h)))

digits-append :
    (k n : ℕ) (out rest : Bytes) → digits_from k n out ++ rest ≡ digits_from k n (out ++ rest)
digits-append zero n out rest = refl
digits-append (suc k) n out rest = digits-append k (n / 10) ((48 + n % 10) ∷ out) rest

decimal-Reads : Reads read_number digits
decimal-Reads = record {
  before = λ n rest h.
      ap (λ t. read_number (32 ∷ t)) (digits-append 20 n [] (32 ∷ rest))
      ∙ read_digits n (32 ∷ rest) h;
  at_end = λ n h. read_digits n [] h;
}

a-IsWord : IsWord (b'a' ∷ [])
a-IsWord = ((λ e. cc), (refl, tt))

parse_line-typed_example :
    parse_line read_number (typed digits (insert_at (b'a' ∷ []) 12 (chars "to be")))
    ≡ ask (insert_at (b'a' ∷ []) 12 (chars "to be"))
parse_line-typed_example =
    parse_line-typed read_number digits (insert_at (b'a' ∷ []) 12 (chars "to be")) decimal-Reads
      (a-IsWord, refl, omega arith)

blank_line : parse_line read_number (chars "  ") ≡ complain (chars "Unknown command: ")
unfolding parse_line
blank_line = refl

no_line : parse_line read_number [] ≡ idle
unfolding parse_line
no_line = refl

spaced_line :
    parse_line read_number (chars " i  a 7x  yz ") ≡ ask (insert_at (b'a' ∷ []) 7 (chars "x  yz "))
unfolding parse_line
spaced_line = refl

text_missing : parse_line read_number (chars "w a ") ≡ complain (chars "Invalid command format")
unfolding parse_line
text_missing = refl
