-- ===== src/Fs/Handle/Count.antt =====
-- The table of open handles of src/fs.h next to the handles that there are.
use coursework_file_system.Prelude.{
  ℕ, ◌+◌, ◌-◌, ◌%◌, ◌^◌, ◌<◌, ◌≤◌, ◌≡◌, refl, ap, ◌∙◌, Bool, true, false, Option, none, some, List,
  [], ◌∷◌, ◌++◌, length, arith, ◌==◌, if◌then◌else◌, length-append, Bool-cases, inl, inr,
}
use coursework_file_system.Table.{lookup, lookup-insert, lookup-erase}
use coursework_file_system.Fs.Handle.{
  Counts, Handle, count_up, count_down, construction, destruction, construct, destroy, copy,
  copy_assign, move, move_assign, move_assign_self,
}

-- The handles of the list that count for the address `a`.
abbrev pub use_of : ℕ → Handle → ℕ
use_of a h = if h.abandoned then 0 else if h.addr == a then 1 else 0

unfoldable pub uses : ℕ → List Handle → ℕ
uses a [] = 0
uses a (h ∷ hs) = use_of a h + uses a hs

-- What the table shows for an address with `n` handles.
abbrev pub shown : ℕ → Option ℕ
shown n = if n == 0 then none else some n

-- What the program does with handles, from a list of handles and a table to the next. The order of
-- the list has no meaning: `swaps` brings any handle to its front. A new handle is made only below
-- 2 ^ 32 - 1 handles.
pub data Step : List Handle → Counts → List Handle → Counts → Type 0 where
  swaps :
      (pre hs : List Handle) (h k : Handle) (m : Counts)
      → Step (pre ++ (h ∷ k ∷ hs)) m (pre ++ (k ∷ h ∷ hs)) m
  constructs :
      (hs : List Handle) (m : Counts) (addr : ℕ) (abandoned : Bool)
      → length hs + 1 < 2 ^ 32
      → Step hs m ((construct addr abandoned m).0 ∷ hs) (construct addr abandoned m).1
  copies :
      (hs : List Handle) (m : Counts) (other : Handle)
      → length hs + 2 < 2 ^ 32
      → Step (other ∷ hs) m ((copy other m).0 ∷ other ∷ hs) (copy other m).1
  moves :
      (hs : List Handle) (m : Counts) (other : Handle)
      → length hs + 2 < 2 ^ 32
      → Step (other ∷ hs) m ((move other m).0.0 ∷ (move other m).0.1 ∷ hs) (move other m).1
  assigns :
      (hs : List Handle) (m : Counts) (h other : Handle)
      → Step
          (h ∷ other ∷ hs)
          m
          ((copy_assign false h other m).0 ∷ other ∷ hs)
          (copy_assign false h other m).1
  assigns_self :
      (hs : List Handle) (m : Counts) (h : Handle)
      → Step (h ∷ hs) m ((copy_assign true h h m).0 ∷ hs) (copy_assign true h h m).1
  move_assigns :
      (hs : List Handle) (m : Counts) (h other : Handle)
      → Step
          (h ∷ other ∷ hs)
          m
          ((move_assign h other m).0.0 ∷ (move_assign h other m).0.1 ∷ hs)
          (move_assign h other m).1
  move_assigns_self :
      (hs : List Handle) (m : Counts) (h : Handle)
      → Step (h ∷ hs) m ((move_assign_self h m).0 ∷ hs) (move_assign_self h m).1
  destroys : (hs : List Handle) (m : Counts) (h : Handle) → Step (h ∷ hs) m hs (destroy h m)

-- Some steps in a row.
pub data Steps : List Handle → Counts → List Handle → Counts → Type 0 where
  stop : (hs : List Handle) (m : Counts) → Steps hs m hs m
  go :
      (hs hs' hs'' : List Handle) (m m' m'' : Counts)
      → Step hs m hs' m'
      → Steps hs' m' hs'' m''
      → Steps hs m hs'' m''

-- The table shows the number of handles for each address, and none has 2 ^ 32 of them.
abbrev pub IsCounted : List Handle → Counts → Type 0
IsCounted hs m = (length hs < 2 ^ 32) × ((a : ℕ) → lookup a m ≡ shown (uses a hs))

uses-le : (a : ℕ) (hs : List Handle) → uses a hs ≤ length hs
unfolding uses
uses-le a [] = omega arith
uses-le a (h ∷ hs) = ground (arith, uses-le a hs)

uses-append : (a : ℕ) (pre hs : List Handle) → uses a (pre ++ hs) ≡ uses a pre + uses a hs
unfolding uses
uses-append a [] hs = omega arith
uses-append a (h ∷ pre) hs = rw (uses-append a pre hs) (omega arith)

count_up-shown : (n : ℕ) → n + 1 < 2 ^ 32 → some (count_up (shown n)) ≡ shown (n + 1)
unfolding count_up
count_up-shown n h = ground arith

lookup-construction :
    (addr a n : ℕ) (m : Counts)
    → lookup addr m ≡ shown n
    → n + 1 < 2 ^ 32
    → lookup a (construction addr m) ≡ (if addr == a then shown (n + 1) else lookup a m)
unfolding construction
lookup-construction addr a n m h lt =
    rw (lookup-insert addr a (count_up (lookup addr m)) m, h, count_up-shown n lt) refl

lookup-destruction :
    (addr a n : ℕ) (m : Counts)
    → lookup addr m ≡ shown (n + 1)
    → n + 1 < 2 ^ 32
    → lookup a (destruction addr m) ≡ (if addr == a then shown n else lookup a m)
unfolding destruction count_down
lookup-destruction addr a n m h lt =
    ground (arith, lookup-erase addr a m, lookup-insert addr a ((n + 1 + 2 ^ 32 - 1) % 2 ^ 32) m)

-- `Counted hs m` without the bound on the length.
abbrev Shows : List Handle → Counts → Type 0
Shows hs m = (a : ℕ) → lookup a m ≡ shown (uses a hs)

construct-Shows :
    (hs : List Handle) (m : Counts) (addr : ℕ) (abandoned : Bool)
    → length hs + 1 < 2 ^ 32
    → Shows hs m
    → Shows ((construct addr abandoned m).0 ∷ hs) (construct addr abandoned m).1
unfolding construct uses
construct-Shows hs m addr true lt h a = rw (h a) (ap shown (omega arith))
construct-Shows hs m addr false lt h a =
    ground
      (arith, lookup-construction addr a (uses addr hs) m (h addr), uses-le addr hs, h a, h addr)

destroy-Shows :
    (hs : List Handle) (m : Counts) (h : Handle)
    → length hs + 1 < 2 ^ 32
    → Shows (h ∷ hs) m
    → Shows hs (destroy h m)
unfolding destroy uses
destroy-Shows hs m h lt sh a = elim (Bool-cases h.abandoned) [
  | inl e ↦ ground (arith, sh a, e)
  | inr e ↦
      ground (
        arith,
        lookup-destruction h.addr a (uses h.addr hs) m,
        uses-le h.addr hs,
        sh a,
        sh h.addr,
        e,
      )
]

Shows-eq :
    (hs hs' : List Handle) (m : Counts)
    → ((a : ℕ) → uses a hs ≡ uses a hs')
    → Shows hs m
    → Shows hs' m
Shows-eq hs hs' m same sh a = sh a ∙ ap shown (same a)

module _ (hs : List Handle) (m : Counts) where
  move-Shows :
      (other : Handle)
      → Shows (other ∷ hs) m
      → Shows ((move other m).0.0 ∷ (move other m).0.1 ∷ hs) (move other m).1
  unfolding move uses
  move-Shows other sh a = ground (arith, sh a)

  assign-Shows :
      (h other : Handle)
      → length hs + 2 < 2 ^ 32
      → Shows (h ∷ other ∷ hs) m
      → Shows ((copy_assign false h other m).0 ∷ other ∷ hs) (copy_assign false h other m).1
  unfolding copy_assign construct
  assign-Shows h other lt sh =
      construct-Shows (other ∷ hs) (destroy h m) other.addr other.abandoned (omega (arith, lt))
        (destroy-Shows (other ∷ hs) m h (omega (arith, lt)) sh)

  move_assign-Shows :
      (h other : Handle)
      → length hs + 2 < 2 ^ 32
      → Shows (h ∷ other ∷ hs) m
      → Shows
          ((move_assign h other m).0.0 ∷ (move_assign h other m).0.1 ∷ hs)
          (move_assign h other m).1
  unfolding move_assign uses
  move_assign-Shows h other lt sh a =
      destroy-Shows (other ∷ hs) m h (omega (arith, lt)) sh a ∙ ap shown (omega arith)

  move_assign_self-Shows :
      (h : Handle)
      → length hs + 1 < 2 ^ 32
      → Shows (h ∷ hs) m
      → Shows ((move_assign_self h m).0 ∷ hs) (move_assign_self h m).1
  unfolding move_assign_self uses
  move_assign_self-Shows h lt sh a = destroy-Shows hs m h lt sh a ∙ ap shown (omega arith)

-- Any step keeps the table right.
IsCounted-Step :
    {hs : List Handle} {m : Counts} {hs' : List Handle} {m' : Counts}
    → Step hs m hs' m'
    → IsCounted hs m
    → IsCounted hs' m'
unfolding uses copy copy_assign
IsCounted-Step (swaps pre hs h k m) (lt, sh) = (
  omega (arith, lt, length-append pre (h ∷ k ∷ hs), length-append pre (k ∷ h ∷ hs)),
  Shows-eq (pre ++ (h ∷ k ∷ hs)) (pre ++ (k ∷ h ∷ hs)) m
      (λ a. omega (arith, uses-append a pre (h ∷ k ∷ hs), uses-append a pre (k ∷ h ∷ hs))) sh,
)
IsCounted-Step (constructs hs m addr abandoned bound) (lt, sh) =
    (omega (arith, bound), construct-Shows hs m addr abandoned bound sh)
IsCounted-Step (copies hs m other bound) (lt, sh) = (
  omega (arith, bound),
  construct-Shows (other ∷ hs) m other.addr other.abandoned (omega (arith, bound)) sh,
)
IsCounted-Step (moves hs m other bound) (lt, sh) = (omega (arith, bound), move-Shows hs m other sh)
IsCounted-Step (assigns hs m h other) (lt, sh) =
    (omega (arith, lt), assign-Shows hs m h other (omega (arith, lt)) sh)
IsCounted-Step (assigns_self hs m h) (lt, sh) = (omega (arith, lt), sh)
IsCounted-Step (move_assigns hs m h other) (lt, sh) =
    (omega (arith, lt), move_assign-Shows hs m h other (omega (arith, lt)) sh)
IsCounted-Step (move_assigns_self hs m h) (lt, sh) =
    (omega (arith, lt), move_assign_self-Shows hs m h (omega (arith, lt)) sh)
IsCounted-Step (destroys hs m h) (lt, sh) =
    (omega (arith, lt), destroy-Shows hs m h (omega (arith, lt)) sh)

-- If the table has for each address the number of the handles that are alive and not abandoned (no
-- entry for none) and there are fewer than 2 ^ 32 handles, this still holds after any steps.
pub Steps-IsCounted :
    {hs : List Handle} {m : Counts} {hs' : List Handle} {m' : Counts}
    → Steps hs m hs' m'
    → IsCounted hs m
    → IsCounted hs' m'
Steps-IsCounted (stop hs m) counted = counted
Steps-IsCounted (go hs hs' hs'' m m' m'' step steps) counted =
    Steps-IsCounted steps (IsCounted-Step step counted)
