-- ===== src/CString/Laws.antt =====
-- Laws of the C strings.
use coursework_file_system.Prelude.{
  ◌<◌, ◌≤◌, ◌≡◌, ◌≢◌, refl, ap, true, some, [], ◌∷◌, ◌++◌, length, length-append, arith, ◌==◌, All,
  ==_ne, ==_self, drop, Bool-cases, inl, inr,
}
use mathlib.Core.List.{append_assoc}
use coursework_file_system.Bytes.{Bytes}
use coursework_file_system.Memory.{memcpy, splice, overwrite, length-splice}
use coursework_file_system.CString.{c_str, same_text, strcpy}

-- A text holds no NUL.
abbrev pub IsText : Bytes → Type 0
IsText s = All (λ c. c ≢ 0) s

pub same_text_self : (s : Bytes) → same_text s s ≡ true
unfolding same_text
same_text_self [] = refl
same_text_self (c ∷ s) = rw (==_self c) (same_text_self s)

pub eq_of_same_text : (s t : Bytes) → same_text s t ≡ true → s ≡ t
unfolding same_text
eq_of_same_text [] [] h = refl
eq_of_same_text [] (d ∷ t) h = cc
eq_of_same_text (c ∷ s) [] h = cc
eq_of_same_text (c ∷ s) (d ∷ t) h = ground (arith, eq_of_same_text s t)

pub c_str-append : (s rest : Bytes) → IsText s → c_str (s ++ (0 ∷ rest)) ≡ s
unfolding c_str
c_str-append [] rest h = refl
c_str-append (c ∷ s) rest h = rw (==_ne c 0 h.0) (ap (λ r. c ∷ r) (c_str-append s rest h.1))

pub c_str_lem : (s : Bytes) → IsText s → c_str s ≡ s
unfolding c_str
c_str_lem [] h = refl
c_str_lem (c ∷ s) h = rw (==_ne c 0 h.0) (ap (λ r. c ∷ r) (c_str_lem s h.1))

pub c_str-IsText : (s : Bytes) → IsText (c_str s)
unfolding c_str
c_str-IsText [] = tt
c_str-IsText (c ∷ s) = elim (Bool-cases (c == 0)) [
  | inl e ↦ rw e tt
  | inr e ↦ rw e (ground arith, c_str-IsText s)
]

overwrite-append :
    (buf s : Bytes) → length s ≤ length buf → overwrite buf s ≡ s ++ drop (length s) buf
overwrite-append buf [] h = refl
overwrite-append [] (c ∷ s) h = absurd (omega arith)
overwrite-append (b ∷ buf) (c ∷ s) h = ap (λ r. c ∷ r) (overwrite-append buf s (omega arith))

-- A text that fits is read back after `strcpy`.
pub c_str-strcpy :
    (buf s : Bytes)
    → IsText s
    → length s < length buf
    → (out : Bytes) × (strcpy buf s ≡ some out) × (c_str out ≡ s) × (length out ≡ length buf)
unfolding strcpy memcpy
c_str-strcpy buf s h fits = (
  splice buf 0 (s ++ (0 ∷ [])),
  ground (arith, length-append s (0 ∷ [])),
  written,
  length-splice buf 0 (s ++ (0 ∷ [])),
)
  where
    all : Bytes
    all = drop (length (s ++ (0 ∷ []))) buf

    fits' : length (s ++ (0 ∷ [])) ≤ length buf
    fits' = omega (arith, length-append s (0 ∷ []))

    written : c_str (overwrite buf (s ++ (0 ∷ []))) ≡ s
    written = rw (overwrite-append buf (s ++ (0 ∷ [])) fits', append_assoc) (c_str-append s all h)
