-- ===== src/Server/Path.antt =====
-- The path that `serve_client` of src/fs_server.h shows to the client.
use coursework_file_system.Prelude.{
  subst, ◌≢◌, inl, inr, Bool-cases, ℕ, ◌≡◌, refl, ap, sym, true, false, List, [], ◌∷◌, ◌++◌, length,
  length-append, All, arith, if◌then◌else◌,
}
use coursework_file_system.Bytes.{Bytes}
use coursework_file_system.CString.{same_text, has_char}
use coursework_file_system.CString.Laws.{eq_of_same_text}
use coursework_file_system.Server.{pop_back, keep_folder, moved}

-- The path of the folders `names`, the innermost first: "/", "/a/", "/a/b/".
unfoldable pub path_body : List Bytes → Bytes
path_body [] = []
path_body (name ∷ names) = path_body names ++ (b'/' ∷ name)

abbrev pub path_text : List Bytes → Bytes
path_text names = path_body names ++ (b'/' ∷ [])

-- Where a name leads from the folders `names`.
unfoldable pub step : Bytes → List Bytes → List Bytes
step name names =
    if same_text name (b'.' ∷ [])
    then names
    else if same_text name (b'.' ∷ b'.' ∷ [])
    then elim names [ [] ↦ [] | outer ∷ rest ↦ rest ]
    else name ∷ names

pop_back-append : (s : Bytes) (c : ℕ) → pop_back (s ++ (c ∷ [])) ≡ s
unfolding pop_back
pop_back-append [] c = refl
pop_back-append (x ∷ []) c = refl
pop_back-append (x ∷ (y ∷ s)) c = ap (λ r. x ∷ r) (pop_back-append (y ∷ s) c)

has_char-append : (c : ℕ) (s t : Bytes) → has_char c (s ++ (c ∷ t)) ≡ true
unfolding has_char
has_char-append c [] t = ground arith
has_char-append c (d ∷ s) t = ground (arith, has_char-append c s t)

keep_folder-name : (s : Bytes) → has_char b'/' s ≡ false → keep_folder s ≡ []
unfolding keep_folder
keep_folder-name [] h = refl
keep_folder-name (c ∷ s) h = rw h refl

keep_folder-append :
    (s name : Bytes)
    → has_char b'/' name ≡ false
    → keep_folder (s ++ (b'/' ∷ name)) ≡ s ++ (b'/' ∷ [])
unfolding keep_folder
keep_folder-append [] name h = rw (has_char-append b'/' [] name, keep_folder-name name h) refl
keep_folder-append (c ∷ s) name h =
    rw (has_char-append b'/' (c ∷ s) name) (ap (λ r. c ∷ r) (keep_folder-append s name h))

append_assoc : (s t u : Bytes) → (s ++ t) ++ u ≡ s ++ (t ++ u)
append_assoc [] t u = refl
append_assoc (c ∷ s) t u = ap (λ r. c ∷ r) (append_assoc s t u)

not_single : (name : Bytes) (names : List Bytes) → path_text (name ∷ names) ≢ b'/' ∷ []
unfolding path_body
not_single name names e = omega (
  arith,
  ap length e,
  length-append (path_body names ++ (b'/' ∷ name)) (b'/' ∷ []),
  length-append (path_body names) (b'/' ∷ name),
)

not_top :
    (name : Bytes) (names : List Bytes) → same_text (path_text (name ∷ names)) (b'/' ∷ []) ≡ false
not_top name names = elim (Bool-cases (same_text (path_text (name ∷ names)) (b'/' ∷ []))) [
  | inl e ↦
      absurd (not_single name names (eq_of_same_text (path_text (name ∷ names)) (b'/' ∷ []) e))
  | inr e ↦ e
]

-- Every folder's name on the way is free of slashes.
abbrev pub IsWalk : List Bytes → Type 0
IsWalk names = All (λ name. has_char b'/' name ≡ false) names

-- `..` leads one folder up.
moved_up :
    (names : List Bytes)
    → IsWalk names
    → moved (b'.' ∷ b'.' ∷ []) (path_text names) ≡ path_text (step (b'.' ∷ b'.' ∷ []) names)
unfolding moved step path_body same_text
moved_up [] walk = refl
moved_up (name ∷ names) walk =
    rw
      (
        not_top name names,
        pop_back-append (path_body names ++ (b'/' ∷ name)) b'/',
        keep_folder-append (path_body names) name walk.0,
      )
      refl

-- One `cd`.
moved-step :
    (name : Bytes) (names : List Bytes)
    → IsWalk names
    → moved name (path_text names) ≡ path_text (step name names)
unfolding moved step path_body
moved-step name names walk = elim (Bool-cases (same_text name (b'.' ∷ b'.' ∷ []))) [
  | inl up ↦
      subst (λ n. moved n (path_text names) ≡ path_text (step n names))
        (sym (eq_of_same_text name _ up)) (moved_up names walk)
  | inr e ↦ ground (
    arith,
    append_assoc (path_body names) (b'/' ∷ []) (name ++ (b'/' ∷ [])),
    append_assoc (path_body names) (b'/' ∷ name) (b'/' ∷ []),
  )
]

IsWalk-step :
    (name : Bytes) (names : List Bytes)
    → has_char b'/' name ≡ false
    → IsWalk names
    → IsWalk (step name names)
unfolding step
IsWalk-step name [] h walk = ground arith
IsWalk-step name (outer ∷ rest) h walk = ground (arith, walk.1)

-- A sequence of names, entered one after the other.
unfoldable pub moved_along : List Bytes → Bytes → Bytes
moved_along [] path = path
moved_along (name ∷ route) path = moved_along route (moved name path)

unfoldable pub step_along : List Bytes → List Bytes → List Bytes
step_along [] names = names
step_along (name ∷ route) names = step_along route (step name names)

-- After any sequence of successful `cd`s to names without slashes, from a folder whose path is
-- shown rightly, the path is that of the folders where `.`, `..` and the names lead.
pub moved_along-path_text :
    (route names : List Bytes)
    → IsWalk route
    → IsWalk names
    → moved_along route (path_text names) ≡ path_text (step_along route names)
unfolding moved_along step_along
moved_along-path_text [] names slashless walk = refl
moved_along-path_text (name ∷ route) names slashless walk = rw (moved-step name names walk) (
    moved_along-path_text route (step name names) slashless.1
      (IsWalk-step name names slashless.0 walk))
