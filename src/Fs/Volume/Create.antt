-- ===== src/Fs/Volume/Create.antt =====
-- The volume of src/fs.h after `create`.
use coursework_file_system.Prelude.{
  ℕ, ◌+◌, ◌-◌, ◌<◌, ◌≡◌, ◌≢◌, ◌⊎◌, inl, inr, refl, sym, ap, ◌∙◌, subst, Bool, true, false, Option,
  none, some, List, [], ◌∷◌, ◌++◌, All, All-mono, All-append, arith, ℕ_discrete,
}
use coursework_file_system.Bytes.{Bytes}
use coursework_file_system.Node.{DirectoryNode, folder_bit}
use coursework_file_system.Disk.{Disk, sectors, update, update_self, update_ne, update-cases}
use coursework_file_system.Fs.{alloc_root, file_root}
use coursework_file_system.Fs.Mounted.{Holds}
use coursework_file_system.Fs.Folder.{append_pointer}
use coursework_file_system.Fs.Folder.Layout.{Nodes, Apart, Children, FolderAt}
use coursework_file_system.Fs.Folder.Create.{Created}
use coursework_file_system.Fs.Volume.{
  Item, folder, file, Volume, view, Known, IsFolder, IsFile, Sound,
}
use coursework_file_system.Fs.Volume.Frame.{
  Change, view-update_ne, All-view, FolderAt-Change, IsFile-Change,
}

-- What `create` makes.
abbrev pub new_item : Bool → Item
new_item true = folder []
new_item false = file (λ i. i) []

abbrev pub children_of : Option Item → List ℕ
children_of (some (folder ps)) = ps
children_of _ = []

abbrev pub content_of : Option Item → Bytes
content_of (some (file ext bytes)) = bytes
content_of _ = []

abbrev pub created : Volume → ℕ → List ℕ → ℕ → Bool → DirectoryNode → Volume
created v a ps block is_folder child = record {
  nodes = update (update v.nodes a (append_pointer (v.nodes a) block)) block child;
  items =
      update (update v.items a (some (folder (ps ++ (block ∷ []))))) block
        (some (new_item is_folder));
}

pub folder-ne-file :
    {ps : List ℕ} {ext : ℕ → ℕ} {bytes : Bytes} → some (folder ps) ≢ some (file ext bytes)
folder-ne-file e = cc

pub some-ne-none : {it : Item} → some it ≢ none
some-ne-none e = cc

Children-last :
    (d : Disk) (node : DirectoryNode) (i : ℕ) (cs : Nodes) (p : ℕ) (child : DirectoryNode)
    → Children d node i (cs ++ ((p, child) ∷ []))
    → Holds d p child
Children-last d node i [] p child h = h.1
Children-last d node i (c ∷ cs) p child h = Children-last d node (i + 1) cs p child h.2

view-append :
    (nodes : ℕ → DirectoryNode) (ps qs : List ℕ)
    → view nodes (ps ++ qs) ≡ view nodes ps ++ view nodes qs
view-append nodes [] qs = refl
view-append nodes (p ∷ ps) qs = ap (λ l. (p, nodes p) ∷ l) (view-append nodes ps qs)

module _ (d d' : Disk) (first count : ℕ) (v : Volume) (sound : Sound d first count v) (a : ℕ)
    (ps : List ℕ) (item : v.items a ≡ some (folder ps)) (name : Bytes) (is_folder : Bool)
    (child : DirectoryNode)
    (made : Created d d' first count a (v.nodes a) (view v.nodes ps) name is_folder child) where
  abbrev v' : Volume
  v' = created v a ps first is_folder child

  abbrev new : DirectoryNode
  new = append_pointer (v.nodes a) first

  Change-Created : Change d d' first (first + 1) v a new
  Change-Created = record {
    description = made.description;
    more = omega arith;
    here = made.folder.holds;
    kept = λ s low root ne foreign. made.others s root (omega (arith, low)) ne;
  }

  a-lt-first : a < first
  a-lt-first = (sound.folders a ps item).at.below

  known-lt : (p : ℕ) (it : Item) → v.items p ≡ some it → p < first
  known-lt p (folder qs) h = (sound.folders p qs h).at.below
  known-lt p (file ext bytes) h = (sound.files p ext bytes h).below

  abbrev grown : Option Item
  grown = some (folder (ps ++ (first ∷ [])))

  item-new : v'.items first ≡ some (new_item is_folder)
  item-new = update_self (update v.items a grown) first (some (new_item is_folder))

  pub item_self : v'.items a ≡ grown
  item_self =
      update_ne (update v.items a grown) first (some (new_item is_folder)) a
        (omega (arith, a-lt-first))
      ∙ update_self v.items a grown

  item-old : (b : ℕ) → b < first → b ≢ a → v'.items b ≡ v.items b
  item-old b low ne =
      update_ne (update v.items a grown) first (some (new_item is_folder)) b (omega (arith, low))
      ∙ update_ne v.items a grown b ne

  Known-created : (p : ℕ) → Known v p → Known v' p
  Known-created p (it, h) = elim (ℕ_discrete p a) [
    | yes e ↦ (folder (ps ++ (first ∷ [])), ap v'.items e ∙ item_self)
    | no ne ↦ (it, item-old p (known-lt p it h) ne ∙ h)
  ]

  folder-created :
      (p : ℕ)
      → (qs : List ℕ) × (v.items p ≡ some (folder qs))
      → (qs : List ℕ) × (v'.items p ≡ some (folder qs))
  folder-created p (qs, h) = elim (ℕ_discrete p a) [
    | yes e ↦ (ps ++ (first ∷ []), ap v'.items e ∙ item_self)
    | no ne ↦ (qs, item-old p (known-lt p (folder qs) h) ne ∙ h)
  ]

  holds-new : Holds d' first child
  holds-new = Children-last d' new 0 (view v.nodes ps) first child made.folder.children

  node-old : (b : ℕ) → b < first → b ≢ a → v'.nodes b ≡ v.nodes b
  node-old b low ne =
      update_ne (update v.nodes a new) first child b (omega (arith, low))
      ∙ update_ne v.nodes a new b ne

  node-new : v'.nodes first ≡ child
  node-new = update_self (update v.nodes a new) first child

  below_first : (b : ℕ) (qs : List ℕ) → v.items b ≡ some (folder qs) → All (λ p. p ≢ first) qs
  below_first b qs h =
      let f = sound.folders b qs h in
      All-view (Apart first b) (Known v) (λ p. p ≢ first) v.nodes qs
        (λ p apart known. omega (arith, apart.0)) f.at.apart f.known

  not_self : All (λ p. p ≢ a) ps
  not_self =
      let f = sound.folders a ps item in
      All-view (Apart first a) (Known v) (λ p. p ≢ a) v.nodes ps (λ p apart known. apart.1)
        f.at.apart f.known

  IsFolder-old :
      (b : ℕ) (qs : List ℕ) → b ≢ a → v.items b ≡ some (folder qs) → IsFolder d' (first + 1) v' b qs
  IsFolder-old b qs ne h =
      let f = sound.folders b qs h in
      let same : v.nodes b ≡ v'.nodes b = sym (node-old b f.at.below ne) in
      record {
        at =
            subst (λ n. FolderAt d' (first + 1) b n (view v'.nodes qs)) same
              (subst (FolderAt d' (first + 1) b (v.nodes b))
                (sym (view-update_ne (update v.nodes a new) first child qs (below_first b qs h)))
                (FolderAt-Change d d' first (first + 1) count v sound a new Change-Created b qs ne
                  h));
        typed = subst (λ n. folder_bit n ≡ true) same f.typed;
        capacity = subst (λ n. n.header.entries_capacity ≡ 16) same f.capacity;
        known = All-mono (Known v) (Known v') qs Known-created f.known;
        parent =
            subst (λ n. (rs : List ℕ) × (v'.items n.header.parent_addr ≡ some (folder rs))) same
              (folder-created (v.nodes b).header.parent_addr f.parent);
      }

  IsFolder-grown : IsFolder d' (first + 1) v' a (ps ++ (first ∷ []))
  unfolding folder_bit
  IsFolder-grown =
      let f = sound.folders a ps item in
      let same : new ≡ v'.nodes a = sym (
        update_ne (update v.nodes a new) first child a (omega (arith, a-lt-first))
        ∙ update_self v.nodes a new) in
      let shown : view v.nodes ps ++ ((first, child) ∷ []) ≡ view v'.nodes (ps ++ (first ∷ [])) =
        sym (
          view-append v'.nodes ps (first ∷ [])
          ∙ ap (λ l. l ++ ((first, v'.nodes first) ∷ []))
              (view-update_ne (update v.nodes a new) first child ps (below_first a ps item)
                ∙ view-update_ne v.nodes a new ps not_self)
          ∙ ap (λ n. view v.nodes ps ++ ((first, n) ∷ [])) node-new) in
      record {
        at =
            subst (λ n. FolderAt d' (first + 1) a n (view v'.nodes (ps ++ (first ∷ [])))) same
              (subst (FolderAt d' (first + 1) a new) shown made.folder);
        typed = subst (λ n. folder_bit n ≡ true) same f.typed;
        capacity = subst (λ n. n.header.entries_capacity ≡ 16) same f.capacity;
        known =
            All-append (Known v') ps (first ∷ [])
              (All-mono (Known v) (Known v') ps Known-created f.known)
              ((new_item is_folder, item-new), tt);
        parent =
            subst (λ n. (rs : List ℕ) × (v'.items n.header.parent_addr ≡ some (folder rs))) same
              (folder-created (v.nodes a).header.parent_addr f.parent);
      }

  -- The three kinds of entries.
  items-cases :
      (b : ℕ) (it : Item)
      → v'.items b ≡ some it
      → ((b ≡ first) × (some (new_item is_folder) ≡ some it))
        ⊎ (((b ≡ a) × (grown ≡ some it)) ⊎ ((b ≢ a) × (v.items b ≡ some it)))
  items-cases b it h =
      elim (update-cases (update v.items a grown) first (some (new_item is_folder)) b (some it) h) [
        | inl fresh ↦ inl fresh
        | inr (ne, old) ↦ inr (update-cases v.items a grown b (some it) old)
      ]

  reserved-lt : alloc_root < first
  reserved-lt = omega (arith, sound.reserved)

  IsFolder-new :
      (qs : List ℕ)
      → some (new_item is_folder) ≡ some (folder qs)
      → IsFolder d' (first + 1) v' first qs
  IsFolder-new qs h = subst (IsFolder d' (first + 1) v' first) (empty is_folder qs h) (record {
    at =
        subst (λ n. FolderAt d' (first + 1) first n []) (sym node-new)
          (record {
            holds = holds-new;
            below = omega arith;
            not_root = omega (arith, reserved-lt);
            count = made.empty;
            small = omega arith;
            children = tt;
            apart = tt;
          });
    typed = ap folder_bit node-new ∙ made.typed ∙ made_folder is_folder qs h;
    capacity =
        ap (λ n. n.header.entries_capacity) node-new ∙ made.capacity (made_folder is_folder qs h);
    known = tt;
    parent = (
      ps ++ (first ∷ []),
      ap (λ n. v'.items n.header.parent_addr) node-new ∙ ap v'.items made.parent ∙ item_self,
    );
  })
    where
      made_folder : (b : Bool) (qs : List ℕ) → some (new_item b) ≡ some (folder qs) → b ≡ true
      made_folder true qs h = refl
      made_folder false qs h = cc

      empty : (b : Bool) (qs : List ℕ) → some (new_item b) ≡ some (folder qs) → [] ≡ qs
      empty true qs h = ap children_of h
      empty false qs h = cc

  IsFile-new :
      (ext : ℕ → ℕ) (bytes : Bytes)
      → some (new_item is_folder) ≡ some (file ext bytes)
      → IsFile d' (first + 1) v'.items first (v'.nodes first) ext bytes
  IsFile-new ext bytes h =
      subst (λ n. IsFile d' (first + 1) v'.items first n ext bytes) (sym node-new)
        (record {
          holds = holds-new;
          below = omega arith;
          not_root = omega (arith, reserved-lt);
          typed = made.typed ∙ made_file is_folder h;
          in_node = omega (arith, made.empty);
          extents = record {
            pointer = λ i lt. absurd (omega (arith, lt, made.empty));
            below = λ i lt. absurd (omega (arith, lt, made.empty));
            valid = λ i lt. absurd (omega (arith, lt, made.empty));
            distinct = λ i j lt k. absurd (omega (arith, lt, made.empty));
            not_self = λ i lt. absurd (omega (arith, lt, made.empty));
            not_root = λ i lt. absurd (omega (arith, lt, made.empty));
          };
          content = inl (blank is_folder h, made.empty, made.blank (made_file is_folder h));
          unowned = λ i lt. absurd (omega (arith, lt, made.empty));
        })
    where
      made_file : (b : Bool) → some (new_item b) ≡ some (file ext bytes) → b ≡ false
      made_file true h = cc
      made_file false h = refl

      blank : (b : Bool) → some (new_item b) ≡ some (file ext bytes) → bytes ≡ []
      blank true h = cc
      blank false h = sym (ap content_of h)

  IsFile-old :
      (b : ℕ) (ext : ℕ → ℕ) (bytes : Bytes)
      → b ≢ a
      → v.items b ≡ some (file ext bytes)
      → IsFile d' (first + 1) v'.items b (v'.nodes b) ext bytes
  IsFile-old b ext bytes ne h =
      let f = sound.files b ext bytes h in
      subst (λ n. IsFile d' (first + 1) v'.items b n ext bytes) (sym (node-old b f.below ne))
        (IsFile-Change d d' first (first + 1) count v sound a new Change-Created v'.items b ext
          bytes ne (folder ps, item) h
          (λ i lt.
            item-old (ext i) (f.extents.below i lt)
              (λ e. some-ne-none (sym item ∙ ap v.items (sym e) ∙ f.unowned i lt))
            ∙ f.unowned i lt))

  no_blocks : (b i : ℕ) → b ≡ first → i < (v'.nodes b).header.entries → ⊥
  no_blocks b i e lt =
      let none_yet : (v'.nodes b).header.entries ≡ 0 =
        ap (λ k. (v'.nodes k).header.entries) e
        ∙ ap (λ n. n.header.entries) node-new
        ∙ made.empty in
      omega (arith, lt, none_yet)

  IsFolder-created :
      (b : ℕ) (qs : List ℕ) → v'.items b ≡ some (folder qs) → IsFolder d' (first + 1) v' b qs
  IsFolder-created b qs h = elim (items-cases b (folder qs) h) [
    | inl (e, made_now) ↦
        subst (λ k. IsFolder d' (first + 1) v' k qs) (sym e) (IsFolder-new qs made_now)
    | inr (inl (e, self)) ↦
        subst (λ k. IsFolder d' (first + 1) v' k qs) (sym e)
          (subst (IsFolder d' (first + 1) v' a) (ap children_of self) IsFolder-grown)
    | inr (inr (ne, old)) ↦ IsFolder-old b qs ne old
  ]

  IsFile-created :
      (b : ℕ) (ext : ℕ → ℕ) (bytes : Bytes)
      → v'.items b ≡ some (file ext bytes)
      → IsFile d' (first + 1) v'.items b (v'.nodes b) ext bytes
  IsFile-created b ext bytes h = elim (items-cases b (file ext bytes) h) [
    | inl (e, made_now) ↦
        subst (λ k. IsFile d' (first + 1) v'.items k (v'.nodes k) ext bytes) (sym e)
          (IsFile-new ext bytes made_now)
    | inr (inl (e, self)) ↦ absurd (folder-ne-file self)
    | inr (inr (ne, old)) ↦ IsFile-old b ext bytes ne old
  ]

  -- A file with a block was there before.
  file-before :
      (b : ℕ) (ext : ℕ → ℕ) (bytes : Bytes) (i : ℕ)
      → v'.items b ≡ some (file ext bytes)
      → i < (v'.nodes b).header.entries
      → (v.items b ≡ some (file ext bytes)) × (i < (v.nodes b).header.entries)
  file-before b ext bytes i h lt = elim (items-cases b (file ext bytes) h) [
    | inl (e, made_now) ↦ absurd (no_blocks b i e lt)
    | inr (inl (e, self)) ↦ absurd (folder-ne-file self)
    | inr (inr (ne, old)) ↦ (
      old,
      subst (λ n. i < n.header.entries) (node-old b (sound.files b ext bytes old).below ne) lt,
    )
  ]

  -- After a `create` in a folder of a sound volume the volume is sound, with one block fewer in
  -- the pool.
  pub Sound-created : Sound d' (first + 1) (count - 1) v'
  Sound-created = record {
    folders = IsFolder-created;
    files = IsFile-created;
    separate = λ b c ext ext' bytes bytes' h h' ne i j lt lt'.
        let (old, less) = file-before b ext bytes i h lt in
        let (old', less') = file-before c ext' bytes' j h' lt' in
        sound.separate b c ext ext' bytes bytes' old old' ne i j less less';
    free = made.free;
    full = omega (arith, sound.full, sound.free.some_free, ap sectors made.description);
    reserved = omega (arith, sound.reserved);
    root = folder-created file_root sound.root;
  }
