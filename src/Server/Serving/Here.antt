-- ===== src/Server/Serving/Here.antt =====
-- The current folder of a client of src/fs_server.h on a sound volume of src/fs.h: what the
-- searches in it find, and that they find what the tree of the volume says.
use coursework_file_system.Prelude.{
  ℕ, ◌%◌, ◌^◌, ◌<◌, ◌≡◌, ◌≢◌, refl, sym, ap, ◌∙◌, Bool, true, false, none, some, List, [], ◌∷◌,
  ◌==◌, length, map, All, arith, Option-cases, Bool-cases, inl, inr,
}
use coursework_file_system.Bytes.{Bytes}
use coursework_file_system.Run.{done, fs_name_not_exist}
use coursework_file_system.CString.{same_text}
use coursework_file_system.Table.{lookup}
use coursework_file_system.Node.{DirectoryNode, name_length_max}
use coursework_file_system.Disk.{Disk}
use coursework_file_system.Fs.{file_root, is_name_valid}
use coursework_file_system.Fs.Mounted.{mounted, read_node-done}
use coursework_file_system.Fs.Handle.{Handle}
use coursework_file_system.Fs.File.{read_all}
use coursework_file_system.Fs.File.Read.{read_all-FileHolds}
use coursework_file_system.Fs.Folder.{is_child, entry_text}
use coursework_file_system.Fs.Folder.Layout.{FolderAt}
use coursework_file_system.Fs.Folder.Create.{HasRoom, has_name}
use coursework_file_system.Fs.Folder.Refuse.{create_refusal, remove_refusal, busy_refusal}
use coursework_file_system.Fs.Folder.Search.{search}
use coursework_file_system.Fs.Volume.{length-view, Item, folder, file, Volume, view, Known, Sound}
use coursework_file_system.Server.Cd.{target}
use coursework_file_system.Server.Tree.Edits.{is_name_valid-is_legal}
use coursework_file_system.Server.Tree.{
  branch, View, children, parent_of, entry_here, find, lookup_here, leads, refused_mk, line,
}
use coursework_file_system.Server.Serving.{entry_of, view_of, search-view}
use coursework_file_system.Server.Serving.Shown.{find-search, lines-list, is_taken-search}

module _ (d : Disk) (counts : List (ℕ × ℕ)) (current : Handle) (path : Bytes) (first count : ℕ)
    (v : Volume) (sound : Sound d first count v) (ps : List ℕ)
    (here : v.items current.addr ≡ some (folder ps)) where
  abbrev node : DirectoryNode
  node = v.nodes current.addr

  abbrev w : View
  w = view_of first v counts current path

  pub at : FolderAt d first current.addr node (view v.nodes ps)
  at = (sound.folders current.addr ps here).at

  known : All (Known v) ps
  known = (sound.folders current.addr ps here).known

  entry : entry_here w ≡ some (branch node.header.parent_addr ps)
  entry = ap (entry_of node) here

  length-here : node.header.entries ≡ length ps
  length-here = at.count ∙ length-view v.nodes ps

  -- What `search` finds is in use, and of the type that was asked for.
  found-Known :
      (is_folder : Bool) (name : Bytes) (i p : ℕ)
      → search (is_child is_folder name) (view v.nodes ps) 0 ≡ some (i, p)
      → (is_child is_folder name (v.nodes p) ≡ true) × Known v p
  found-Known is_folder name i p h =
      search-view (is_child is_folder name) (Known v) v.nodes ps 0 i p h
        (sound.folders current.addr ps here).known

  IsFolder-found :
      (name : Bytes) (i p : ℕ)
      → search (is_child true name) (view v.nodes ps) 0 ≡ some (i, p)
      → (qs : List ℕ) × (v.items p ≡ some (folder qs))
  IsFolder-found name i p h =
      let (test, known) = found-Known true name i p h in go known.0 known.1 test
    where
      go :
          (it : Item)
          → v.items p ≡ some it
          → is_child true name (v.nodes p) ≡ true
          → (qs : List ℕ) × (v.items p ≡ some (folder qs))
      go (folder qs) known test = (qs, known)
      go (file ext bytes) known test = ground (arith, (sound.files p ext bytes known).typed)

  pub IsFile-found :
      (name : Bytes) (i p : ℕ)
      → search (is_child false name) (view v.nodes ps) 0 ≡ some (i, p)
      → (ext : ℕ → ℕ) × (bytes : Bytes) × (v.items p ≡ some (file ext bytes))
  IsFile-found name i p h =
      let (test, known) = found-Known false name i p h in go known.0 known.1 test
    where
      go :
          (it : Item)
          → v.items p ≡ some it
          → is_child false name (v.nodes p) ≡ true
          → (ext : ℕ → ℕ) × (bytes : Bytes) × (v.items p ≡ some (file ext bytes))
      go (folder qs) known test = ground (arith, (sound.folders p qs known).typed)
      go (file ext bytes) known test = (ext, bytes, known)

  pub Place-target :
      (name : Bytes) (p : ℕ)
      → target current.addr node (view v.nodes ps) name ≡ some p
      → (qs : List ℕ) × (v.items p ≡ some (folder qs))
  unfolding target
  Place-target name p h = elim (Bool-cases (same_text name (b'.' ∷ []))) [
    | inl dot ↦ (ps, ap v.items (sym (address (rw dot at h))) ∙ here)
    | inr other ↦ elim (Bool-cases (same_text name (b'.' ∷ b'.' ∷ []))) [
      | inl up ↦ elim (Bool-cases (current.addr == file_root)) [
        | inl top ↦ (ps, ap v.items (sym (address (rw (other, up, top) at h))) ∙ here)
        | inr below ↦
            let (qs, is) = (sound.folders current.addr ps here).parent in
            (qs, ap v.items (sym (address (rw (other, up, below) at h))) ∙ is)
      ]
      | inr down ↦ elim (Option-cases (search (is_child true name) (view v.nodes ps) 0)) [
        | inl missing ↦ absurd (some-ne-none (sym (rw (other, down, missing) at h)))
        | inr ((i, q), found) ↦
            let (qs, is) = IsFolder-found name i q found in
            (qs, ap v.items (sym (address (rw (other, down, found) at h))) ∙ is)
      ]
    ]
  ]
    where
      address : {a b : ℕ} → some a ≡ some b → a ≡ b
      address e = cc

      some-ne-none : {a : ℕ} → some a ≢ none
      some-ne-none e = cc

  -- The tree finds the same.
  pub lookup_here-search :
      (is_folder : Bool) (name : Bytes)
      → lookup_here w is_folder name ≡ search (is_child is_folder name) (view v.nodes ps) 0
  lookup_here-search is_folder name =
      ap (λ e. find w.tree is_folder name (children e) 0) entry
      ∙ sym (find-search sound is_folder name ps 0 known)

  pub leads-target : (name : Bytes) → leads w name ≡ target current.addr node (view v.nodes ps) name
  unfolding leads target
  leads-target name =
      let parent : parent_of (entry_here w) ≡ node.header.parent_addr = ap parent_of entry in
      rw (lookup_here-search true name, parent)
        (elim (Option-cases (search (is_child true name) (view v.nodes ps) 0)) [
          | inl missing ↦ rw missing refl
          | inr (found, at) ↦ rw at refl
        ])

  pub refused_mk-create_refusal :
      (name : Bytes)
      → refused_mk w.tree (children (entry_here w)) name
        ≡ create_refusal node (view v.nodes ps) name
  unfolding create_refusal
  refused_mk-create_refusal name =
      ap (λ e. refused_mk w.tree (children e) name) entry
      ∙ rw
          (
            is_name_valid-is_legal name,
            length-here,
            (sound.folders current.addr ps here).capacity,
            is_taken-search first v name ps 0,
          )
          refl

  pub lines_here :
      map (λ c. entry_text c.1) (view v.nodes ps) ≡ map (line w.tree) (children (entry_here w))
  lines_here = lines-list sound ps known ∙ ap (λ e. map (line w.tree) (children e)) (sym entry)

  pub create_refusal-none :
      (name : Bytes)
      → create_refusal node (view v.nodes ps) name ≡ none
      → (is_name_valid name ≡ true)
        × (length name < name_length_max)
        × (node.header.entries ≢ 16)
        × (search (has_name name) (view v.nodes ps) 0 ≡ none)
  unfolding create_refusal
  create_refusal-none name h =
      let capacity = (sound.folders current.addr ps here).capacity in
      (
        ground arith,
        ground arith,
        ground (arith, capacity),
        elim (Option-cases (search (has_name name) (view v.nodes ps) 0)) [
          | inl new ↦ new
          | inr (found, at) ↦ ground (arith, at, h)
        ],
      )

  pub remove_refusal-none :
      (is_folder : Bool) (name : Bytes)
      → remove_refusal counts (view v.nodes ps) name is_folder ≡ none
      → (i : ℕ) × (p : ℕ) × (search (is_child is_folder name) (view v.nodes ps) 0 ≡ some (i, p))
        × (lookup (p % 2 ^ 32) counts ≡ none)
  unfolding remove_refusal
  remove_refusal-none is_folder name h =
      elim (Option-cases (search (is_child is_folder name) (view v.nodes ps) 0)) [
        | inl missing ↦ absurd (some-ne-none (rw missing at h))
        | inr ((i, p), found) ↦ (i, p, found, idle p (rw found at h))
      ]
    where
      some-ne-none : some fs_name_not_exist ≢ none
      some-ne-none e = cc

      idle : (p : ℕ) → busy_refusal counts (some (0, p)) ≡ none → lookup (p % 2 ^ 32) counts ≡ none
      idle p e = ground arith

  pub HasRoom-before :
      8 < count
      → node.header.entries ≢ 16
      → HasRoom d first count current.addr node (view v.nodes ps)
  HasRoom-before more below =
      let f = sound.folders current.addr ps here in
      record {
        at = at;
        free = sound.free;
        more = omega (arith, more);
        on_disk = omega (arith, sound.full, more);
        reserved = sound.reserved;
        below_capacity = λ e. below (e ∙ f.capacity);
        room = omega (arith, at.small, at.count, below);
      }

  pub read_all-IsFile :
      (max : ℕ) (m : List (ℕ × ℕ)) (a : ℕ) (ext : ℕ → ℕ) (bytes : Bytes)
      → v.items a ≡ some (file ext bytes)
      → read_all a (mounted d max m) ≡ done bytes (mounted d max m)
  unfolding read_all
  read_all-IsFile max m a ext bytes item =
      let f = sound.files a ext bytes item in
      elim f.content [
        | inl (blank, no_blocks, size) ↦ rw (read_node-done d max m f.holds, size, blank) refl
        | inr held ↦ read_all-FileHolds d max m a (v.nodes a) bytes held
      ]
