-- ===== src/Server/Serving/Shown.antt =====
-- The tree that a volume of src/fs.h shows to the clients of src/fs_server.h, through each change.
use coursework_file_system.Prelude.{
  ℕ, ◌+◌, ◌-◌, ◌<◌, ◌≡◌, refl, sym, ap, ap₂, fun_ext, ◌∙◌, Bool, true, false, Option, some, List,
  [], ◌∷◌, ◌++◌, ◌==◌, length, map, All, arith, Bool-cases, ℕ_discrete, inl, inr, set,
}
use coursework_file_system.Bytes.{Bytes}
use coursework_file_system.CString.{c_str, same_text}
use coursework_file_system.Node.{DirectoryNode, folder_bit, default_folder}
use coursework_file_system.Disk.{Disk, update, update_self, update_ne}
use coursework_file_system.Fs.{Env, file_root, reserved_blocks}
use coursework_file_system.Fs.File.{blocks_for}
use coursework_file_system.Fs.Folder.{is_child, entry_text, append_pointer, remove_pointer}
use coursework_file_system.Fs.Folder.Child.{EnvFits}
use coursework_file_system.Fs.Folder.Create.{has_name}
use coursework_file_system.Fs.Folder.Gap.{remove_at}
use coursework_file_system.Fs.Folder.Refuse.{is_some}
use coursework_file_system.Fs.Folder.Search.{search}
use coursework_file_system.Fs.File.RoundTrip.{added}
use coursework_file_system.Fs.Volume.{Item, folder, file, Volume, view, Known, IsFile, Sound}
use coursework_file_system.Fs.Volume.Create.{created, new_item}
use coursework_file_system.Fs.Volume.Remove.{removed}
use coursework_file_system.Fs.Volume.Write.{written}
use coursework_file_system.Fs.Volume.Format.{root_volume}
use coursework_file_system.Server.Tree.Edits.{same_type-is_kind}
use coursework_file_system.Server.Tree.{
  branch, Tree, find, is_taken, line, is_branch, children, parent_of, text_of, new_entry, grown,
  shrunk, filled, root_tree,
}
use coursework_file_system.Server.Serving.{entry_of, tree_of}

update-ap :
    {A B C : Type 0} (h : A → B → C) (f : ℕ → A) (g : ℕ → B) (k : ℕ) (a : A) (b : B)
    → (x : ℕ) → h (update f k a x) (update g k b x) ≡ update (λ y. h (f y) (g y)) k (h a b) x
update-ap h f g k a b x = elim (Bool-cases (x == k)) [ inl e ↦ rw e refl | inr e ↦ rw e refl ]

update_same : {A : Type 0} (f : ℕ → A) (k : ℕ) (a : A) → a ≡ f k → update f k a ≡ f
update_same f k a same = fun_ext λ x. elim (ℕ_discrete x k) [
  | yes e ↦ ap (update f k a) e ∙ update_self f k a ∙ same ∙ ap f (sym e)
  | no ne ↦ update_ne f k a x ne
]

Tree-ext : {t t' : Tree} → t.name ≡ t'.name → t.entry ≡ t'.entry → t.next ≡ t'.next → t ≡ t'
Tree-ext {t} {t'} p q r =
    ap₂ (λ n e. record t { name = n; entry = e }) p q ∙ ap (λ x. record t' { next = x }) r

-- A node and an item that take the place of those at `k`.
tree-changed :
    (first : ℕ) (v : Volume) (k : ℕ) (node : DirectoryNode) (it : Option Item)
    → tree_of first (record { nodes = update v.nodes k node; items = update v.items k it })
      ≡ record {
        name = update (tree_of first v).name k (c_str node.name);
        entry = update (tree_of first v).entry k (entry_of node it);
        next = first;
      }
tree-changed first v k node it =
    Tree-ext (fun_ext λ x. update-ap (λ n i. c_str n.name) v.nodes v.items k node it x)
      (fun_ext λ x. update-ap entry_of v.nodes v.items k node it x) refl

-- The same, where the name stays.
tree-kept :
    (first : ℕ) (v : Volume) (k : ℕ) (node : DirectoryNode) (it : Option Item)
    → c_str node.name ≡ c_str (v.nodes k).name
    → tree_of first (record { nodes = update v.nodes k node; items = update v.items k it })
      ≡ record {
        name = (tree_of first v).name;
        entry = update (tree_of first v).entry k (entry_of node it);
        next = first;
      }
tree-kept first v k node it same =
    tree-changed first v k node it
    ∙ Tree-ext (update_same (tree_of first v).name k (c_str node.name) same) refl refl

entry-new_item :
    (child : DirectoryNode) (is_folder : Bool) (a : ℕ)
    → child.header.parent_addr ≡ a
    → entry_of child (some (new_item is_folder)) ≡ some (new_entry is_folder a)
entry-new_item child true a h = ap (λ p. some (branch p [])) h
entry-new_item child false a h = refl

module _ (first : ℕ) (v : Volume) (a : ℕ) where
  module _ (ps : List ℕ) (item : v.items a ≡ some (folder ps)) where
    entry_here : entry_of (v.nodes a) (v.items a) ≡ some (branch (v.nodes a).header.parent_addr ps)
    entry_here = ap (entry_of (v.nodes a)) item

    -- After `create`.
    pub tree-created :
        (is_folder : Bool) (name : Bytes) (child : DirectoryNode)
        → c_str child.name ≡ name
        → child.header.parent_addr ≡ a
        → tree_of (first + 1) (created v a ps first is_folder child)
          ≡ grown (tree_of first v) a name is_folder
    tree-created is_folder name child named up =
        let new = append_pointer (v.nodes a) first in
        let more = some (folder (ps ++ (first ∷ []))) in
        let v1 : Volume = record { nodes = update v.nodes a new; items = update v.items a more } in
        tree-changed (first + 1) v1 first child (some (new_item is_folder))
        ∙ ap
            (λ t. record {
              name = update t.name first (c_str child.name);
              entry = update t.entry first (entry_of child (some (new_item is_folder)));
              next = first + 1;
            })
            (tree-kept (first + 1) v a new more refl)
        ∙ Tree-ext (ap (update (tree_of first v).name first) named)
            (ap₂
              (λ e it.
                update
                  (update (tree_of first v).entry a
                    (some (branch (parent_of e) (children e ++ (first ∷ [])))))
                  first it)
              (sym entry_here) (entry-new_item child is_folder a up))
            refl

    -- After `remove`.
    pub tree-removed : (i : ℕ) → tree_of first (removed v a ps i) ≡ shrunk (tree_of first v) a i
    tree-removed i =
        tree-kept first v a (remove_pointer (v.nodes a) i) (some (folder (remove_at i ps))) refl
        ∙ Tree-ext refl
            (ap
              (λ e.
                update (tree_of first v).entry a
                  (some (branch (parent_of e) (remove_at i (children e)))))
              (sym entry_here))
            refl

  -- After `write_all`.
  pub tree-written :
      (ext ext' : ℕ → ℕ) (old bytes : Bytes) (node' : DirectoryNode)
      → v.items a ≡ some (file ext old)
      → (v.nodes a).header.entries ≡ blocks_for (length old)
      → node'.name ≡ (v.nodes a).name
      → tree_of (first + added (v.nodes a) (length bytes)) (written v a ext' bytes node')
        ≡ filled (tree_of first v) a bytes
  tree-written ext ext' old bytes node' item blocks named =
      tree-kept (first + added (v.nodes a) (length bytes)) v a node' (some (file ext' bytes))
        (ap c_str named)
      ∙ Tree-ext refl refl (
          ap (λ n. first + (blocks_for (length bytes) - n)) blocks
          ∙ ap (λ e. first + (blocks_for (length bytes) - blocks_for (length (text_of e))))
              (sym (ap (entry_of (v.nodes a)) item)))

c_str-blank : (m : Bytes) → 0 < length m → c_str (set m 0 0) ≡ []
unfolding c_str
c_str-blank [] h = absurd (omega arith)
c_str-blank (c ∷ m) h = refl

pub tree-root : (env : Env) → EnvFits env → tree_of reserved_blocks (root_volume env) ≡ root_tree
unfolding default_folder
tree-root env ef =
    Tree-ext (fun_ext λ a. c_str-blank env.node_memory.name (omega (arith, ef.node_memory.name)))
      (fun_ext λ a. update_entry a) refl
  where
    update_entry :
        (a : ℕ)
        → entry_of ((root_volume env).nodes a) ((root_volume env).items a) ≡ root_tree.entry a
    update_entry a = elim (Bool-cases (a == file_root)) [ inl e ↦ rw e refl | inr e ↦ rw e refl ]

module _ {d : Disk} {first count : ℕ} {v : Volume} (sound : Sound d first count v) where
  is_branch-Known :
      (p : ℕ) → Known v p → is_branch (entry_of (v.nodes p) (v.items p)) ≡ folder_bit (v.nodes p)
  is_branch-Known p (folder ps, h) = rw (h, (sound.folders p ps h).typed) refl
  is_branch-Known p (file ext bytes, h) = rw (h, (sound.files p ext bytes h).typed) refl

  pub find-search :
      (is_folder : Bool) (name : Bytes) (ps : List ℕ) (i : ℕ)
      → All (Known v) ps
      → search (is_child is_folder name) (view v.nodes ps) i
        ≡ find (tree_of first v) is_folder name ps i
  unfolding search find
  find-search is_folder name [] i known = refl
  find-search is_folder name (p ∷ ps) i known =
      rw
        (
          sym (same_type-is_kind is_folder (entry_of (v.nodes p) (v.items p))),
          is_branch-Known p known.0,
          find-search is_folder name ps (i + 1) known.1,
        )
        refl

  pub lines-list :
      (ps : List ℕ)
      → All (Known v) ps
      → map (λ c. entry_text c.1) (view v.nodes ps) ≡ map (line (tree_of first v)) ps
  unfolding entry_text
  lines-list [] known = refl
  lines-list (p ∷ ps) known = rw (is_branch-Known p known.0, lines-list ps known.1) refl

pub is_taken-search :
    (first : ℕ) (v : Volume) (name : Bytes) (ps : List ℕ) (i : ℕ)
    → is_some (search (has_name name) (view v.nodes ps) i) ≡ is_taken (tree_of first v) name ps
unfolding search is_taken
is_taken-search first v name [] i = refl
is_taken-search first v name (p ∷ ps) i =
    elim (Bool-cases (same_text (c_str (v.nodes p).name) name)) [
      | inl hit ↦ rw hit
      | inr miss ↦ rw miss (is_taken-search first v name ps (i + 1))
    ]

-- A file has as many extents as its content needs.
pub blocks-IsFile :
    {d : Disk} {first : ℕ} {items : ℕ → Option Item} {a : ℕ} {node : DirectoryNode} {ext : ℕ → ℕ}
    {bytes : Bytes}
    → IsFile d first items a node ext bytes
    → node.header.entries ≡ blocks_for (length bytes)
blocks-IsFile f = elim f.content [
  | inl (blank, no_blocks, size) ↦ rw (no_blocks, blank) refl
  | inr held ↦ held.entries
]
