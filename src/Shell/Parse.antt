-- ===== src/Shell/Parse.antt =====
-- The lines of `fs_shell` in src/fs_shell.h: how a request is typed, and that it is read as such.
use coursework_file_system.Prelude.{
  ℕ, ◌<◌, ◌^◌, ◌≡◌, ◌≢◌, refl, true, false, Option, some, [], ◌∷◌, ◌++◌, All,
}
use coursework_file_system.Bytes.{Bytes}
use coursework_file_system.Server.{
  Request, cd, ls, mk, rm, cat, write, insert_at, delete_at, format_disk, unknown,
}
use coursework_file_system.Shell.{
  chars, is_space, split_word, read_word, read_rest, ask, parse_line, insert_command,
  delete_command,
}

-- A name as the shell can read it: not empty, and without white space.
abbrev pub IsWord : Bytes → Type 0
IsWord name = (name ≢ []) × All (λ c. is_space c ≡ false) name

-- A text as the shell can read it: not empty, and white space is not its first character.
abbrev pub IsRest : Bytes → Type 0
IsRest [] = ⊥
IsRest (c ∷ s) = is_space c ≡ false

split_word_end : (name : Bytes) → All (λ c. is_space c ≡ false) name → split_word name ≡ (name, [])
unfolding split_word
split_word_end [] h = refl
split_word_end (c ∷ name) h = rw (h.0, split_word_end name h.1) refl

split_word-append :
    (name rest : Bytes)
    → All (λ c. is_space c ≡ false) name
    → split_word (name ++ (32 ∷ rest)) ≡ (name, 32 ∷ rest)
unfolding split_word
split_word-append [] rest h = refl
split_word-append (c ∷ name) rest h = rw (h.0, split_word-append name rest h.1) refl

read_word_end : (name : Bytes) → IsWord name → read_word (32 ∷ name) ≡ some (name, [])
unfolding read_word
read_word_end [] h = absurd (h.0 refl)
read_word_end (c ∷ name) h = rw (h.1.0, split_word_end (c ∷ name) h.1) refl

read_word-append :
    (name rest : Bytes)
    → IsWord name
    → read_word (32 ∷ (name ++ (32 ∷ rest))) ≡ some (name, 32 ∷ rest)
unfolding read_word
read_word-append [] rest h = absurd (h.0 refl)
read_word-append (c ∷ name) rest h = rw (h.1.0, split_word-append (c ∷ name) rest h.1) refl

read_rest_lem : (s : Bytes) → IsRest s → read_rest (32 ∷ s) ≡ some s
unfolding read_rest
read_rest_lem [] h = absurd h
read_rest_lem (c ∷ s) h = rw h refl

-- How a request is typed, with the decimal digits of a number.
abbrev pub typed : (ℕ → Bytes) → Request → Bytes
typed digits (cd name) = chars "cd " ++ name
typed digits ls = chars "ls"
typed digits (mk false name) = chars "mk " ++ name
typed digits (mk true name) = chars "mkdir " ++ name
typed digits (rm false name) = chars "rm " ++ name
typed digits (rm true name) = chars "rmdir " ++ name
typed digits (cat name) = chars "cat " ++ name
typed digits (write name bytes) = chars "w " ++ (name ++ (32 ∷ bytes))
typed digits (insert_at name pos bytes) =
    chars "i " ++ (name ++ (32 ∷ (digits pos ++ (32 ∷ bytes))))
typed digits (delete_at name pos len) =
    chars "d " ++ (name ++ (32 ∷ (digits pos ++ (32 ∷ digits len))))
typed digits format_disk = chars "f"
typed digits unknown = []

-- The requests that can be typed.
abbrev pub Typable : Request → Type 0
Typable (cd name) = IsWord name
Typable ls = Unit {0}
Typable (mk is_folder name) = IsWord name
Typable (rm is_folder name) = IsWord name
Typable (cat name) = IsWord name
Typable (write name bytes) = IsWord name × IsRest bytes
Typable (insert_at name pos bytes) = IsWord name × IsRest bytes × (pos < 2 ^ 64)
Typable (delete_at name pos len) = IsWord name × (pos < 2 ^ 64) × (len < 2 ^ 64)
Typable format_disk = Unit {0}
Typable unknown = ⊥

-- What the code relies on when a stream reads a `uint64_t`: it skips a space and takes the digits.
pub record Reads (read_number : Bytes → Option (ℕ × Bytes)) (digits : ℕ → Bytes) : Type 0 where
  pub before :
      (n : ℕ) (rest : Bytes)
      → n < 2 ^ 64
      → read_number (32 ∷ (digits n ++ (32 ∷ rest))) ≡ some (n, 32 ∷ rest)
  pub at_end : (n : ℕ) → n < 2 ^ 64 → read_number (32 ∷ digits n) ≡ some (n, [])

-- A request whose names are not empty and have no white space, whose text is not empty and does not
-- begin with any, and whose numbers have 64 bits, is read back from the line that types it.
pub parse_line-typed :
    (read_number : Bytes → Option (ℕ × Bytes)) (digits : ℕ → Bytes) (r : Request)
    → Reads read_number digits
    → Typable r
    → parse_line read_number (typed digits r) ≡ ask r
unfolding parse_line
parse_line-typed read_number digits (cd name) stream h = rw (read_word_end name h) refl
parse_line-typed read_number digits ls stream h = refl
parse_line-typed read_number digits (mk false name) stream h = rw (read_word_end name h) refl
parse_line-typed read_number digits (mk true name) stream h = rw (read_word_end name h) refl
parse_line-typed read_number digits (rm false name) stream h = rw (read_word_end name h) refl
parse_line-typed read_number digits (rm true name) stream h = rw (read_word_end name h) refl
parse_line-typed read_number digits (cat name) stream h = rw (read_word_end name h) refl
parse_line-typed read_number digits (write name bytes) stream h =
    rw (read_word-append name bytes h.0, read_rest_lem bytes h.1) refl
parse_line-typed read_number digits (insert_at name pos bytes) stream h =
    rw
      (
        read_word-append name (digits pos ++ (32 ∷ bytes)) h.0,
        insert_command,
        stream.before pos bytes h.2,
        read_rest_lem bytes h.1,
      )
      refl
parse_line-typed read_number digits (delete_at name pos len) stream h =
    rw
      (
        read_word-append name (digits pos ++ (32 ∷ digits len)) h.0,
        delete_command,
        stream.before pos (digits len) h.1,
        stream.at_end len h.2,
      )
      refl
parse_line-typed read_number digits format_disk stream h = refl
parse_line-typed read_number digits unknown stream h = absurd h
