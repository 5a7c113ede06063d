-- ===== src/Server/Serving/Change.antt =====
-- The requests of src/fs_server.h that change the content of a file or format the disk.
use coursework_file_system.Prelude.{
  ℕ, ◌+◌, ◌<◌, ◌≤◌, ◌≡◌, refl, sym, ap, ◌∙◌, subst, false, Option, none, some, List, [], ◌∷◌,
  length, arith, Option-cases, inl, inr,
}
use coursework_file_system.Bytes.{Bytes}
use coursework_file_system.Run.{done, Cmd, fs_name_not_exist}
use coursework_file_system.CString.{c_str}
use coursework_file_system.Node.{DirectoryNode, AllocatorFits}
use coursework_file_system.Disk.{Disk, sectors, update_self, update_ne}
use coursework_file_system.Fs.{Env, FileSystem, format, file_root, reserved_blocks}
use coursework_file_system.Fs.Mounted.{mounted}
use coursework_file_system.Fs.Format.{format-IsFormatted}
use coursework_file_system.Fs.Handle.{Handle, construction, destruction, destroy}
use coursework_file_system.Fs.File.{Stack, write_all}
use coursework_file_system.Fs.File.RoundTrip.{added, write_all-FileAt}
use coursework_file_system.Fs.Folder.{is_child, open_file}
use coursework_file_system.Fs.Folder.Child.{EnvFits}
use coursework_file_system.Fs.Folder.Search.{search, open_file-FolderAt, handle_on_found}
use coursework_file_system.Fs.Volume.{folder, file, Volume, view, Sound}
use coursework_file_system.Fs.Volume.Create.{folder-ne-file}
use coursework_file_system.Fs.Volume.Write.{FileAt-Sound, written, Sound-written}
use coursework_file_system.Fs.Volume.Format.{root_volume, Sound-IsFormatted}
use coursework_file_system.Protocol.{reply_ok, error_reply}
use coursework_file_system.Server.{
  Session, Request, cd, ls, mk, rm, cat, write, insert_at, delete_at, format_disk, unknown, serve,
  reply, inserted, erased, caught, not_written, and_ok, with_file, closing, edit,
}
use coursework_file_system.Server.Tree.Edits.{inserted-spliced, erased-cut_out}
use coursework_file_system.Server.Tree.{
  code_of, spliced, cut_out, Tree, View, text_of, lookup_here, filled, refuse, write_to, answer,
}
use coursework_file_system.Server.Serving.Answer.{
  Answered-same, Answered-cd, Answered-ls, Answered-mk, Answered-rm, Answered-cat,
}
use coursework_file_system.Server.Serving.{
  entry_of, tree_of, view_of, session, Answered, Answered-done,
}
use coursework_file_system.Server.Serving.Shown.{tree-written, tree-root, blocks-IsFile}
use coursework_file_system.Server.Serving.Here.{
  at, IsFile-found, lookup_here-search, read_all-IsFile,
}

-- A content that a file takes: 1 to 2048 characters in front of the first NUL.
pub record IsStorable (bytes : Bytes) : Type 0 where
  pub nonempty : 0 < length (c_str bytes)
  pub small : length (c_str bytes) ≤ 2048

abbrev pub FitsFound : Tree → (Bytes → Bytes) → Option (ℕ × ℕ) → Type 0
FitsFound t change none = Unit {0}
FitsFound t change (some (i, p)) = IsStorable (change (text_of (t.entry p)))

-- What a request must respect: the new content of a file is one that it takes, and the disk is
-- formatted from the root folder.
abbrev pub Fits : Request → View → Type 0
Fits (write name bytes) w = FitsFound w.tree (λ old. bytes) (lookup_here w false (c_str name))
Fits (insert_at name pos bytes) w =
    FitsFound w.tree (spliced pos bytes) (lookup_here w false (c_str name))
Fits (delete_at name pos len) w =
    FitsFound w.tree (cut_out pos len) (lookup_here w false (c_str name))
Fits format_disk w = w.here.addr ≡ file_root
Fits _ w = Unit {0}

-- A file is opened, its new content written, and its handle closed.
with_file-done :
    (name : Bytes) (body : ℕ → Cmd FileSystem (Unit {0})) (s : Session) (p : ℕ)
    (fs1 fs2 : FileSystem)
    → open_file s.current_folder.addr (c_str name) s.fs ≡ done p fs1
    → body p fs1 ≡ done tt fs2
    → caught not_written (and_ok (with_file name body) s)
      ≡ done (reply reply_ok ∷ []) (record s {
        fs = record fs2 { handle_instance_count = destruction p fs2.handle_instance_count };
      })
unfolding caught with_file closing destroy
with_file-done name body s p fs1 fs2 opened wrote = rw (opened, wrote) refl

module _ (env : Env) (ef : EnvFits env) (stack : Stack) (buffer : length stack ≡ 0x100)
    (rf : AllocatorFits env.root_memory) (d : Disk) (max : ℕ) (size : max ≡ sectors d.description)
    (counts : List (ℕ × ℕ)) (current : Handle) (path : Bytes) (first count : ℕ) (more : 8 < count)
    (v : Volume) (sound : Sound d first count v) (ps : List ℕ)
    (here : v.items current.addr ≡ some (folder ps)) where
  abbrev node : DirectoryNode
  node = v.nodes current.addr

  abbrev w : View
  w = view_of first v counts current path

  abbrev before : Session
  before = session d max w

  -- A new content for a file of the folder, where `body` writes it.
  change_file :
      (name : Bytes) (change : Bytes → Bytes) (body : ℕ → Cmd FileSystem (Unit {0}))
      → ((p : ℕ) (ext : ℕ → ℕ) (old : Bytes)
          → v.items p ≡ some (file ext old)
          → body p (mounted d max (construction p counts))
            ≡ write_all stack p (c_str (change old)) (mounted d max (construction p counts)))
      → FitsFound (tree_of first v) change (lookup_here w false (c_str name))
      → Answered count
          (caught not_written (and_ok (with_file name body) before))
          (write_to change w (lookup_here w false (c_str name)))
  unfolding caught with_file destroy error_reply code_of
  change_file name change body writes fits =
      let told =
        lookup_here-search d counts current path first count v sound ps here false (c_str name) in
      let opened =
        open_file-FolderAt d max counts first current.addr node (view v.nodes ps)
          (at d counts current path first count v sound ps here) (c_str name) in
      elim (Option-cases (search (is_child false (c_str name)) (view v.nodes ps) 0)) [
        | inl missing ↦
            Answered-same env ef stack buffer d max size counts current path first count more v
              sound ps here counts (refuse fs_name_not_exist w).0
              (ap (write_to change w) (told ∙ missing)) (rw (opened, missing) refl)
        | inr ((i, p), found) ↦
            let (ext, old, item) =
              IsFile-found d counts current path first count v sound ps here (c_str name) i p
                found in
            let text_here : text_of (entry_of (v.nodes p) (v.items p)) ≡ old =
              ap text_of (ap (entry_of (v.nodes p)) item) in
            let storable : IsStorable (change old) =
              subst (λ o. IsStorable (change o)) text_here
                (subst (FitsFound (tree_of first v) change) (told ∙ found) fits) in
            let new = c_str (change old) in
            let f = sound.files p ext old item in
            let few : added (v.nodes p) (length new) ≤ 8 = omega (arith, storable.small) in
            let (d', node', ext', run, out) =
              write_all-FileAt d max (construction p counts) first count p (v.nodes p) ext stack new
                (FileAt-Sound sound p ext old item) buffer storable.nonempty storable.small
                (omega (arith, few, more)) (omega (arith, few, more, sound.full)) in
            let wrote : body p (mounted d max (construction p counts))
                ≡ done tt (mounted d' max (construction p counts)) =
              writes p ext old item ∙ run in
            Answered-done (write_to change w (some (i, p))) d' max
              (first + added (v.nodes p) (length new)) (written v p ext' new node') ps
              (ap (write_to change w) (told ∙ found))
              (with_file-done name body before p (mounted d max (construction p counts))
                (mounted d' max (construction p counts))
                (opened ∙ ap (handle_on_found d max counts) found) wrote)
              (omega (arith, few))
              (Sound-written d d' first count v sound p ext ext' old new node' item out
                (omega (arith, few, more)))
              (update_ne v.items p (some (file ext' new)) current.addr
                  (λ e. folder-ne-file (sym here ∙ ap v.items e ∙ item))
                ∙ here)
              (tree-written first v p ext ext' old new node' item (blocks-IsFile f) out.name
                ∙ ap (λ o. filled (tree_of first v) p (c_str (change o))) (sym text_here))
              (size ∙ ap sectors (sym out.description))
      ]

  edited :
      (change : Bytes → Bytes) (p : ℕ) (ext : ℕ → ℕ) (old : Bytes)
      → v.items p ≡ some (file ext old)
      → edit stack change p (mounted d max (construction p counts))
        ≡ write_all stack p (c_str (change old)) (mounted d max (construction p counts))
  edited change p ext old item =
      rw
        (read_all-IsFile d counts current path first count v sound ps here max
          (construction p counts) p ext old item)
        refl

  -- `format` from the root folder.
  Answered-format :
      current.addr ≡ file_root
      → Answered count (serve env stack format_disk before) (answer format_disk w)
  unfolding serve
  Answered-format top =
      let (qs, root) = sound.root in
      let ready = (sound.folders file_root qs root).at.holds.ready in
      let room : reserved_blocks < sectors d.description =
        omega (arith, sound.full, sound.reserved, more) in
      let (d', run, whole, same) = format-IsFormatted env ef rf d ready room counts in
      let here : format env (mounted d max counts) ≡ done tt (mounted d' max counts) =
        subst (λ m. format env (mounted d m counts) ≡ done tt (mounted d' m counts)) (sym size)
          run in
      let full : sectors d'.description ≡ sectors d.description = ap sectors same in
      Answered-done (answer format_disk w) d' max reserved_blocks (root_volume env) [] refl
        (rw here refl) (omega (arith, sound.full, sound.reserved, full))
        (Sound-IsFormatted env d' whole (omega (arith, room, full)))
        (ap (root_volume env).items top ∙ update_self (λ a. none) file_root (some (folder [])))
        (tree-root env ef) (size ∙ sym full)

  pub Answered-serve :
      (r : Request) → Fits r w → Answered count (serve env stack r before) (answer r w)
  unfolding serve
  Answered-serve (cd name) fits =
      Answered-cd env ef stack buffer d max size counts current path first count more v sound ps
        here name
  Answered-serve ls fits =
      Answered-ls env ef stack buffer d max size counts current path first count more v sound ps
        here
  Answered-serve (mk is_folder name) fits =
      Answered-mk env ef stack buffer d max size counts current path first count more v sound ps
        here is_folder name
  Answered-serve (rm is_folder name) fits =
      Answered-rm env ef stack buffer d max size counts current path first count more v sound ps
        here is_folder name
  Answered-serve (cat name) fits =
      Answered-cat env ef stack buffer d max size counts current path first count more v sound ps
        here name
  Answered-serve (write name bytes) fits =
      change_file name (λ old. bytes) (λ p. write_all stack p (c_str bytes))
        (λ p ext old item. refl) fits
  Answered-serve (insert_at name pos bytes) fits =
      change_file name (spliced pos bytes) (edit stack (inserted pos bytes))
        (λ p ext old item.
          edited (inserted pos bytes) p ext old item
          ∙ ap (λ t. write_all stack p (c_str t) (mounted d max (construction p counts)))
              (inserted-spliced pos bytes old))
        fits
  Answered-serve (delete_at name pos len) fits =
      change_file name (cut_out pos len) (edit stack (erased pos len))
        (λ p ext old item.
          edited (erased pos len) p ext old item
          ∙ ap (λ t. write_all stack p (c_str t) (mounted d max (construction p counts)))
              (erased-cut_out pos len old))
        fits
  Answered-serve format_disk fits = Answered-format fits
  Answered-serve unknown fits =
      Answered-same env ef stack buffer d max size counts current path first count more v sound ps
        here counts (answer unknown w).0 refl refl
