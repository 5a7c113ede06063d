-- ===== src/Server/Tree/Names.antt =====
-- The names in the folders of the tree that src/fs_server.h serves.
use coursework_file_system.Prelude.{
  ℕ, zero, suc, ◌+◌, ◌<◌, ◌≡◌, ◌≢◌, refl, sym, ap, ◌∙◌, subst, Bool, true, false, Option, none,
  some, List, [], ◌∷◌, ◌++◌, All, All-mono, All-append, arith, ℕ_discrete, ◌%◌, ◌^◌, Bool-cases,
  inl, inr,
}
use coursework_file_system.Bytes.{Bytes}
use coursework_file_system.Run.{ErrorCode}
use coursework_file_system.CString.{c_str, same_text}
use coursework_file_system.CString.Laws.{same_text_self}
use coursework_file_system.Table.{lookup}
use coursework_file_system.Disk.{update, update_self, update_ne}
use coursework_file_system.Fs.Folder.Gap.{remove_at, All-remove_at}
use coursework_file_system.Server.{
  Request, cd, ls, mk, rm, cat, write, insert_at, delete_at, format_disk, unknown,
}
use coursework_file_system.Server.Tree.{
  spliced, cut_out, Entry, branch, leaf, Tree, View, children, parent_of, entry_here, lookup_here,
  enter_at, leads, is_taken, refused_mk, new_entry, grown, make_in, shrunk, drop_child, remove_from,
  read_from, filled, write_to, root_tree, answer, answers,
}

-- No two of the entries have one name.
abbrev pub Unique : (ℕ → Bytes) → List ℕ → Type 0
Unique name [] = Unit {0}
Unique name (p ∷ ps) = All (λ q. name q ≢ name p) ps × Unique name ps

-- No folder has two entries of one name, and every entry has a number below `next`.
pub record UniqueNames (t : Tree) : Type 0 where
  pub below : (a : ℕ) → All (λ p. p < t.next) (children (t.entry a))
  pub unique : (a : ℕ) → Unique t.name (children (t.entry a))

-- What holds of the children of every entry holds after a change of one.
children-update :
    (P : List ℕ → Type 0) (entry : ℕ → Option Entry) (k : ℕ) (e : Option Entry)
    → P (children e)
    → ((a : ℕ) → P (children (entry a)))
    → (a : ℕ) → P (children (update entry k e a))
children-update P entry k e new old a = elim (ℕ_discrete a k) [
  | yes same ↦
      subst (λ x. P (children x)) (sym (ap (update entry k e) same ∙ update_self entry k e)) new
  | no ne ↦ subst (λ x. P (children x)) (sym (update_ne entry k e a ne)) (old a)
]

Unique-remove_at :
    (name : ℕ → Bytes) (i : ℕ) (ps : List ℕ) → Unique name ps → Unique name (remove_at i ps)
Unique-remove_at name i [] u = u
Unique-remove_at name zero (p ∷ ps) u = u.1
Unique-remove_at name (suc i) (p ∷ ps) u =
    (All-remove_at (λ q. name q ≢ name p) i ps u.0, Unique-remove_at name i ps u.1)

Unique-append :
    (name : ℕ → Bytes) (ps : List ℕ) (q : ℕ)
    → Unique name ps
    → All (λ p. name p ≢ name q) ps
    → Unique name (ps ++ (q ∷ []))
Unique-append name [] q u h = (tt, tt)
Unique-append name (p ∷ ps) q u h = (
  All-append (λ x. name x ≢ name p) ps (q ∷ []) u.0 ((λ e. h.0 (sym e)), tt),
  Unique-append name ps q u.1 h.1,
)

-- A new name for a number that is not in use.
All-update :
    (name : ℕ → Bytes) (n : ℕ) (new : Bytes) (x : Bytes) (ps : List ℕ)
    → All (λ p. p < n) ps
    → All (λ q. name q ≢ x) ps
    → All (λ q. update name n new q ≢ x) ps
All-update name n new x [] low h = tt
All-update name n new x (p ∷ ps) low h = (
  λ e. h.0 (sym (update_ne name n new p (omega (arith, low.0))) ∙ e),
  All-update name n new x ps low.1 h.1,
)

Unique-update :
    (name : ℕ → Bytes) (n : ℕ) (new : Bytes) (ps : List ℕ)
    → All (λ p. p < n) ps
    → Unique name ps
    → Unique (update name n new) ps
Unique-update name n new [] low u = tt
Unique-update name n new (p ∷ ps) low u = (
  subst (λ x. All (λ q. update name n new q ≢ x) ps)
      (sym (update_ne name n new p (omega (arith, low.0))))
      (All-update name n new (name p) ps low.1 u.0),
  Unique-update name n new ps low.1 u.1,
)

free-is_taken :
    (t : Tree) (new : Bytes) (ps : List ℕ)
    → is_taken t new ps ≡ false
    → All (λ p. t.name p ≢ new) ps
unfolding is_taken
free-is_taken t new [] h = tt
free-is_taken t new (p ∷ ps) h = elim (Bool-cases (same_text (t.name p) new)) [
  | inl hit ↦ absurd (true-ne-false (rw hit at h))
  | inr miss ↦ (
    λ e. true-ne-false (sym (ap (λ x. same_text x new) e ∙ same_text_self new) ∙ miss),
    free-is_taken t new ps (rw miss at h),
  )
]
  where
    true-ne-false : true ≢ false
    true-ne-false e = cc

no_children : (is_folder : Bool) (a : ℕ) → children (some (new_entry is_folder a)) ≡ []
no_children true a = refl
no_children false a = refl

module _ (t : Tree) (u : UniqueNames t) where
  shrunk-UniqueNames : (a i : ℕ) → UniqueNames (shrunk t a i)
  shrunk-UniqueNames a i =
      let ps = children (t.entry a) in
      let e = some (branch (parent_of (t.entry a)) (remove_at i ps)) in
      record {
        below =
            children-update (All (λ p. p < t.next)) t.entry a e
              (All-remove_at (λ p. p < t.next) i ps (u.below a)) u.below;
        unique =
            children-update (Unique t.name) t.entry a e (Unique-remove_at t.name i ps (u.unique a))
              u.unique;
      }

  filled-UniqueNames : (p : ℕ) (bytes : Bytes) → UniqueNames (filled t p bytes)
  filled-UniqueNames p bytes =
      let next = (filled t p bytes).next in
      record {
        below = children-update (All (λ q. q < next)) t.entry p (some (leaf bytes)) tt (λ a.
            All-mono (λ q. q < t.next) (λ q. q < next) (children (t.entry a))
              (λ q h. omega (arith, h)) (u.below a));
        unique = children-update (Unique t.name) t.entry p (some (leaf bytes)) tt u.unique;
      }

  grown-UniqueNames :
      (a : ℕ) (new : Bytes) (is_folder : Bool)
      → is_taken t new (children (t.entry a)) ≡ false
      → UniqueNames (grown t a new is_folder)
  grown-UniqueNames a new is_folder free =
      let ps = children (t.entry a) in
      let name = update t.name t.next new in
      let e = some (branch (parent_of (t.entry a)) (ps ++ (t.next ∷ []))) in
      let raised = λ (b : ℕ).
        All-mono (λ q. q < t.next) (λ q. q < t.next + 1) (children (t.entry b))
          (λ q h. omega (arith, h)) (u.below b) in
      let renamed = λ (b : ℕ).
        Unique-update t.name t.next new (children (t.entry b)) (u.below b) (u.unique b) in
      record {
        below =
            children-update (All (λ p. p < t.next + 1)) (update t.entry a e) t.next
              (some (new_entry is_folder a))
              (subst (All (λ p. p < t.next + 1)) (sym (no_children is_folder a)) tt)
              (children-update (All (λ p. p < t.next + 1)) t.entry a e
                (All-append (λ p. p < t.next + 1) ps (t.next ∷ []) (raised a) (omega arith, tt))
                raised);
        unique =
            children-update (Unique name) (update t.entry a e) t.next (some (new_entry is_folder a))
              (subst (Unique name) (sym (no_children is_folder a)) tt)
              (children-update (Unique name) t.entry a e
                (Unique-append name ps t.next (renamed a) (
                  subst (λ x. All (λ p. name p ≢ x) ps) (sym (update_self t.name t.next new))
                    (All-update t.name t.next new new ps (u.below a)
                      (free-is_taken t new ps free))))
                renamed);
      }

-- The tree of a formatted disk.
pub root_tree-UniqueNames : UniqueNames root_tree
root_tree-UniqueNames = record {
  below =
      children-update (All (λ p. p < root_tree.next)) (λ a. none) 0 (some (branch 0 [])) tt
        (λ a. tt);
  unique = children-update (Unique root_tree.name) (λ a. none) 0 (some (branch 0 [])) tt (λ a. tt);
}

module _ (w : View) (u : UniqueNames w.tree) where
  enter_at-UniqueNames : (name : Bytes) (o : Option ℕ) → UniqueNames (enter_at name w o).1.tree
  enter_at-UniqueNames name none = u
  enter_at-UniqueNames name (some p) = u

  make_in-UniqueNames :
      (is_folder : Bool) (name : Bytes)
      → UniqueNames
          (make_in is_folder name w (refused_mk w.tree (children (entry_here w)) name)).1.tree
  make_in-UniqueNames is_folder name = go (refused_mk w.tree (children (entry_here w)) name) refl
    where
      free :
          refused_mk w.tree (children (entry_here w)) name ≡ none
          → is_taken w.tree name (children (entry_here w)) ≡ false
      free h = ground arith

      go :
          (o : Option ErrorCode)
          → refused_mk w.tree (children (entry_here w)) name ≡ o
          → UniqueNames (make_in is_folder name w o).1.tree
      go none h = grown-UniqueNames w.tree u w.here.addr name is_folder (free h)
      go (some e) h = u

  drop_child-UniqueNames : (i : ℕ) (o : Option ℕ) → UniqueNames (drop_child w i o).1.tree
  drop_child-UniqueNames i none = shrunk-UniqueNames w.tree u w.here.addr i
  drop_child-UniqueNames i (some n) = u

  remove_from-UniqueNames : (o : Option (ℕ × ℕ)) → UniqueNames (remove_from w o).1.tree
  remove_from-UniqueNames none = u
  remove_from-UniqueNames (some (i, p)) = drop_child-UniqueNames i (lookup (p % 2 ^ 32) w.handles)

  read_from-UniqueNames : (o : Option (ℕ × ℕ)) → UniqueNames (read_from w o).1.tree
  read_from-UniqueNames none = u
  read_from-UniqueNames (some (i, p)) = u

  write_to-UniqueNames :
      (change : Bytes → Bytes) (o : Option (ℕ × ℕ)) → UniqueNames (write_to change w o).1.tree
  write_to-UniqueNames change none = u
  write_to-UniqueNames change (some (i, p)) = filled-UniqueNames w.tree u p _

  -- No request makes two entries of one name in a folder.
  pub answer-UniqueNames : (r : Request) → UniqueNames (answer r w).1.tree
  answer-UniqueNames (cd name) = enter_at-UniqueNames name (leads w (c_str name))
  answer-UniqueNames ls = u
  answer-UniqueNames (mk is_folder name) = make_in-UniqueNames is_folder (c_str name)
  answer-UniqueNames (rm is_folder name) =
      remove_from-UniqueNames (lookup_here w is_folder (c_str name))
  answer-UniqueNames (cat name) = read_from-UniqueNames (lookup_here w false (c_str name))
  answer-UniqueNames (write name bytes) =
      write_to-UniqueNames (λ old. bytes) (lookup_here w false (c_str name))
  answer-UniqueNames (insert_at name pos bytes) =
      write_to-UniqueNames (spliced pos bytes) (lookup_here w false (c_str name))
  answer-UniqueNames (delete_at name pos len) =
      write_to-UniqueNames (cut_out pos len) (lookup_here w false (c_str name))
  answer-UniqueNames format_disk = root_tree-UniqueNames
  answer-UniqueNames unknown = u

pub answers-UniqueNames :
    (rs : List Request) (w : View) → UniqueNames w.tree → UniqueNames (answers rs w).1.tree
unfolding answers
answers-UniqueNames [] w u = u
answers-UniqueNames (r ∷ rs) w u = answers-UniqueNames rs (answer r w).1 (answer-UniqueNames w u r)
