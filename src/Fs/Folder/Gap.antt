-- ===== src/Fs/Folder/Gap.antt =====
-- Closing the gap in a folder's pointers, as the `memmove` in `remove` of src/fs.h does.
use coursework_file_system.Prelude.{
  ℕ, zero, suc, ◌+◌, ◌-◌, ◌<◌, ◌≤◌, ◌≡◌, refl, ap, ◌∙◌, List, [], ◌∷◌, ◌++◌, length, take, drop,
  get_elem?, All, All-take, All-drop, All-append, arith, length-append, length-take, length-drop,
}
use coursework_file_system.Node.{DirectoryNode, file_pointer}
use coursework_file_system.Disk.{Disk}
use coursework_file_system.Fs.Mounted.{Holds-frame}
use coursework_file_system.Fs.Folder.{close_gap}
use coursework_file_system.Fs.Folder.Layout.{Nodes, Children}

get_elem?-take-append :
    (k : ℕ) (xs ys : List ℕ) (j : ℕ)
    → j < k
    → k ≤ length xs
    → get_elem? (take k xs ++ ys) j ≡ get_elem? xs j
get_elem?-take-append zero xs ys j h le = absurd (omega arith)
get_elem?-take-append (suc k) [] ys j h le = absurd (omega arith)
get_elem?-take-append (suc k) (x ∷ xs) ys zero h le = refl
get_elem?-take-append (suc k) (x ∷ xs) ys (suc j) h le =
    get_elem?-take-append k xs ys j (omega arith) (omega arith)

get_elem?-drop : (k : ℕ) (xs : List ℕ) (j : ℕ) → get_elem? (drop k xs) j ≡ get_elem? xs (k + j)
get_elem?-drop zero xs j = ap (get_elem? xs) (omega arith)
get_elem?-drop (suc k) [] j = refl
get_elem?-drop (suc k) (x ∷ xs) j =
    let e : suc (k + j) ≡ suc k + j = omega arith in
    get_elem?-drop k xs j ∙ ap (get_elem? (x ∷ xs)) e

-- In front of the prefix's end, and behind it.
get_elem?-append_left :
    (xs ys : List ℕ) (j : ℕ) → j < length xs → get_elem? (xs ++ ys) j ≡ get_elem? xs j
get_elem?-append_left [] ys j h = absurd (omega arith)
get_elem?-append_left (x ∷ xs) ys zero h = refl
get_elem?-append_left (x ∷ xs) ys (suc j) h = get_elem?-append_left xs ys j (omega arith)

get_elem?-append_right :
    (xs ys : List ℕ) (j : ℕ) → get_elem? (xs ++ ys) (length xs + j) ≡ get_elem? ys j
get_elem?-append_right [] ys j = ap (get_elem? ys) (omega arith)
get_elem?-append_right (x ∷ xs) ys j =
    let e : suc (length xs) + j ≡ suc (length xs + j) = omega arith in
    ap (get_elem? (x ∷ (xs ++ ys))) e ∙ get_elem?-append_right xs ys j

-- The pointers in front of the gap stay, those behind it move one place forward.
module _ (words : List ℕ) (index entries : ℕ) (fits : entries ≤ length words)
    (inside : index < entries) where
  pub close_gap_before :
      (j : ℕ) → j < index → get_elem? (close_gap words index entries) j ≡ get_elem? words j
  close_gap_before j h = get_elem?-take-append index words _ j h (omega arith)

  pub close_gap_after :
      (j : ℕ)
      → index ≤ j
      → j + 1 < entries
      → get_elem? (close_gap words index entries) j ≡ get_elem? words (j + 1)
  close_gap_after j lo hi =
      ap (get_elem? (close_gap words index entries)) (omega (arith, length-take index words))
      ∙ get_elem?-append_right (take index words) _ (j - index)
      ∙ get_elem?-take-append (entries - 1 - index) (drop (index + 1) words) _ (j - index)
          (omega arith) (omega (arith, length-drop (index + 1) words))
      ∙ get_elem?-drop (index + 1) words (j - index)
      ∙ ap (get_elem? words) (omega arith)

  pub length-close_gap : length (close_gap words index entries) ≡ length words
  length-close_gap = omega (
    arith,
    length-append (take index words) (
        take (entries - 1 - index) (drop (index + 1) words)
        ++ drop (index + (entries - 1 - index)) words),
    length-append (take (entries - 1 - index) (drop (index + 1) words))
        (drop (index + (entries - 1 - index)) words),
    length-take index words,
    length-take (entries - 1 - index) (drop (index + 1) words),
    length-drop (index + 1) words,
    length-drop (index + (entries - 1 - index)) words,
  )

  pub All-close_gap : (P : ℕ → Type 0) → All P words → All P (close_gap words index entries)
  All-close_gap P h = All-append P (take index words) _ (All-take P index words h) (
      All-append P (take (entries - 1 - index) (drop (index + 1) words)) _
        (All-take P _ (drop (index + 1) words) (All-drop P (index + 1) words h))
        (All-drop P (index + (entries - 1 - index)) words h))

-- A list without its element at an index.
abbrev pub remove_at {ℓ} : {A : Type ℓ} → ℕ → List A → List A
remove_at i [] = []
remove_at zero (x ∷ xs) = xs
remove_at (suc i) (x ∷ xs) = x ∷ remove_at i xs

pub length-remove_at {ℓ} :
    {A : Type ℓ} (i : ℕ) (xs : List A) → i < length xs → length (remove_at i xs) + 1 ≡ length xs
length-remove_at i [] h = absurd (omega arith)
length-remove_at zero (x ∷ xs) h = omega arith
length-remove_at (suc i) (x ∷ xs) h = omega (arith, length-remove_at i xs (omega arith))

pub All-remove_at {ℓ} :
    {A : Type ℓ} (P : A → Type 0) (i : ℕ) (xs : List A) → All P xs → All P (remove_at i xs)
All-remove_at P i [] h = tt
All-remove_at P zero (x ∷ xs) h = h.1
All-remove_at P (suc i) (x ∷ xs) h = (h.0, All-remove_at P i xs h.1)

module _ (d d' : Disk) (node node' : DirectoryNode) (same : d'.description ≡ d.description) where
  abbrev Kept : ℕ × DirectoryNode → Type 0
  Kept c = d'.sector c.0 ≡ d.sector c.0

  -- Children behind the gap.
  Children-shift :
      (i : ℕ) (cs : Nodes)
      → All Kept cs
      → ((j : ℕ) → i ≤ j → j < i + length cs → file_pointer node' j ≡ file_pointer node (j + 1))
      → Children d node (i + 1) cs
      → Children d' node' i cs
  Children-shift i [] kept pointers h = tt
  Children-shift i ((p, child) ∷ cs) kept pointers h = (
    pointers i (omega arith) (omega arith) ∙ h.0,
    Holds-frame h.1 same kept.0,
    Children-shift (i + 1) cs kept.1 (λ j lo hi. pointers j (omega arith) (omega arith)) h.2,
  )

  -- The children after the pointer at `i` is gone, `k` being the index of the first in the list.
  pub Children-remove_at :
      (i k : ℕ) (cs : Nodes)
      → i < length cs
      → All Kept cs
      → ((j : ℕ) → j < k + i → file_pointer node' j ≡ file_pointer node j)
      → ((j : ℕ)
          → k + i ≤ j
          → j + 1 < k + length cs
          → file_pointer node' j ≡ file_pointer node (j + 1))
      → Children d node k cs
      → Children d' node' k (remove_at i cs)
  Children-remove_at i k [] h kept before after c = absurd (omega arith)
  Children-remove_at zero k (x ∷ cs) h kept before after c =
      Children-shift k cs kept.1 (λ j lo hi. after j (omega arith) (omega arith)) c.2
  Children-remove_at (suc i) k (x ∷ cs) h kept before after c = (
    before k (omega arith) ∙ c.0,
    Holds-frame c.1 same kept.0,
    Children-remove_at i (k + 1) cs (omega arith) kept.1 (λ j lt. before j (omega arith))
        (λ j lo hi. after j (omega arith) (omega arith)) c.2,
  )
