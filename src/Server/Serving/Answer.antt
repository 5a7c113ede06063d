-- ===== src/Server/Serving/Answer.antt =====
-- Each request of src/fs_server.h on a sound volume of src/fs.h is answered as the tree of the
-- volume says.
use coursework_file_system.Prelude.{
  ℕ, ◌+◌, ◌%◌, ◌^◌, ◌<◌, ◌≡◌, refl, sym, ap, ◌∙◌, Bool, false, Option, none, some, List, [], ◌∷◌,
  ◌++◌, length, map, arith, Option-cases, inl, inr,
}
use coursework_file_system.Bytes.{Bytes}
use coursework_file_system.Run.{Run, done, fs_name_not_exist, fs_busy_handle}
use coursework_file_system.CString.{c_str}
use coursework_file_system.CString.Laws.{c_str-IsText}
use coursework_file_system.Table.{lookup}
use coursework_file_system.Node.{DirectoryNode}
use coursework_file_system.Disk.{Disk, sectors, update_self}
use coursework_file_system.Fs.{Env}
use coursework_file_system.Fs.Mounted.{mounted}
use coursework_file_system.Fs.Handle.{Handle, construction, destruction, destroy}
use coursework_file_system.Fs.File.{Stack}
use coursework_file_system.Fs.Folder.{is_child, entry_text}
use coursework_file_system.Fs.Folder.Child.{EnvFits}
use coursework_file_system.Fs.Folder.Layout.{FolderAt}
use coursework_file_system.Fs.Folder.Create.{create-HasRoom}
use coursework_file_system.Fs.Folder.Gap.{remove_at}
use coursework_file_system.Fs.Folder.Remove.{remove-FolderAt}
use coursework_file_system.Fs.Folder.Refuse.{create_refusal, remove_refusal}
use coursework_file_system.Fs.Folder.Search.{search, list-FolderAt, open_file-FolderAt}
use coursework_file_system.Fs.Volume.{folder, Volume, view, Sound}
use coursework_file_system.Fs.Volume.Create.{created, item_self, Sound-created}
use coursework_file_system.Fs.Volume.Remove.{removed, Sound-removed}
use coursework_file_system.Protocol.{reply_ok, error_reply}
use coursework_file_system.Server.{
  Session, Message, cd, ls, mk, rm, cat, serve, reply, number, text,
}
use coursework_file_system.Server.Cd.{target, cd_answer, serve_cd-FolderAt}
use coursework_file_system.Server.Refuse.{serve_mk-refusal, serve_rm-refusal}
use coursework_file_system.Server.Tree.Edits.{moved-walked, error_reply-code_of}
use coursework_file_system.Server.Tree.{
  code_of, View, Outcome, text_of, refuse, enter_at, leads, make_in, remove_from, drop_child,
  read_from, answer,
}
use coursework_file_system.Server.Serving.{entry_of, view_of, session, Answered, Answered-done}
use coursework_file_system.Server.Serving.Shown.{tree-created, tree-removed}
use coursework_file_system.Server.Serving.Here.{
  at, IsFile-found, Place-target, lookup_here-search, leads-target, refused_mk-create_refusal,
  lines_here, create_refusal-none, HasRoom-before, read_all-IsFile,
}

module _ (env : Env) (ef : EnvFits env) (stack : Stack) (buffer : length stack ≡ 0x100) (d : Disk)
    (max : ℕ) (size : max ≡ sectors d.description) (counts : List (ℕ × ℕ)) (current : Handle)
    (path : Bytes) (first count : ℕ) (more : 8 < count) (v : Volume) (sound : Sound d first count v)
    (ps : List ℕ) (here : v.items current.addr ≡ some (folder ps)) where
  abbrev node : DirectoryNode
  node = v.nodes current.addr

  abbrev w : View
  w = view_of first v counts current path

  abbrev before : Session
  before = session d max w

  in_folder : FolderAt d first current.addr node (view v.nodes ps)
  in_folder = at d counts current path first count v sound ps here

  -- A request that changes neither the disk nor the folder.
  pub Answered-same :
      {run : Run Session (List Message)} {expected : Outcome} (handles : List (ℕ × ℕ))
      (replies : List Message)
      → expected ≡ (replies, record w { handles = handles })
      → run ≡ done replies (session d max (record w { handles = handles }))
      → Answered count run expected
  Answered-same handles replies same ends =
      Answered-done (replies, record w { handles = handles }) d max first v ps same ends
        (omega arith) sound here refl size

  -- The reply to `cd` and the session behind it, in the folder at `p` with a path.
  abbrev arrived : ℕ → Bytes → Run Session (List Message)
  arrived p to = done (reply reply_ok ∷ text to ∷ []) (record {
    fs = mounted d max (destruction p (construction p (destroy current (construction p counts))));
    current_folder = record { addr = p; abandoned = false };
    path = to;
  })

  cd_outcome :
      (name : Bytes) (to : Option ℕ)
      → leads w (c_str name) ≡ to
      → target current.addr node (view v.nodes ps) (c_str name) ≡ to
      → Answered count (serve env stack (cd name) before) (answer (cd name) w)
  unfolding error_reply code_of
  cd_outcome name none led there = Answered-same counts _ (ap (enter_at name w) led) (
      serve_cd-FolderAt d max counts first node (view v.nodes ps) current in_folder path env stack
        name
      ∙ ap (cd_answer d max counts first node (view v.nodes ps) current in_folder path name) there)
  cd_outcome name (some p) led there =
      let (qs, is) =
        Place-target d counts current path first count v sound ps here (c_str name) p there in
      Answered-done (enter_at name w (some p)) d max first v qs (ap (enter_at name w) led)
        (serve_cd-FolderAt d max counts first node (view v.nodes ps) current in_folder path env
            stack name
          ∙ ap (cd_answer d max counts first node (view v.nodes ps) current in_folder path name)
              there
          ∙ ap (arrived p) (moved-walked name path))
        (omega arith) sound is refl size

  pub Answered-cd :
      (name : Bytes) → Answered count (serve env stack (cd name) before) (answer (cd name) w)
  Answered-cd name =
      cd_outcome name (target current.addr node (view v.nodes ps) (c_str name))
        (leads-target d counts current path first count v sound ps here (c_str name)) refl

  pub Answered-ls : Answered count (serve env stack ls before) (answer ls w)
  unfolding serve
  Answered-ls =
      let lines = map (λ c. entry_text c.1) (view v.nodes ps) in
      Answered-same counts (reply reply_ok ∷ number (length lines % 2 ^ 32) ∷ map text lines)
        (ap (λ l. (reply reply_ok ∷ number (length l % 2 ^ 32) ∷ map text l, w))
          (sym (lines_here d counts current path first count v sound ps here)))
        (rw (list-FolderAt d max counts first current.addr node (view v.nodes ps) in_folder) refl)

  -- `mk` and `mkdir` take one block or are refused.
  pub Answered-mk :
      (is_folder : Bool) (name : Bytes)
      → Answered count (serve env stack (mk is_folder name) before) (answer (mk is_folder name) w)
  unfolding serve
  Answered-mk is_folder name =
      let told =
        refused_mk-create_refusal d counts current path first count v sound ps here (c_str name) in
      elim (Option-cases (create_refusal node (view v.nodes ps) (c_str name))) [
        | inr (e, refused) ↦
            Answered-same counts (refuse e w).0
              (ap (make_in is_folder (c_str name) w) (told ∙ refused))
              (serve_mk-refusal d max counts first node (view v.nodes ps) current in_folder path env
                  stack name is_folder e refused
                ∙ ap (λ c. done (reply c ∷ []) before) (error_reply-code_of e))
        | inl accepted ↦
            let (valid, short, below, new) =
              create_refusal-none d counts current path first count v sound ps here (c_str name)
                accepted in
            let (d', child, run, made) =
              create-HasRoom d max counts first count current.addr node (view v.nodes ps) env
                (c_str name) is_folder
                (HasRoom-before d counts current path first count v sound ps here more below) ef
                (c_str-IsText name) valid short new in
            Answered-done (make_in is_folder (c_str name) w none) d' max (first + 1)
              (created v current.addr ps first is_folder child) (ps ++ (first ∷ []))
              (ap (make_in is_folder (c_str name) w) (told ∙ accepted)) (rw run refl)
              (omega (arith, more))
              (Sound-created d d' first count v sound current.addr ps here (c_str name) is_folder
                child made)
              (item_self d d' first count v sound current.addr ps here (c_str name) is_folder child
                made)
              (tree-created first v current.addr ps here is_folder (c_str name) child made.named
                made.parent)
              (size ∙ ap sectors (sym made.description))
      ]

  -- `rm` and `rmdir` take nothing or are refused.
  pub Answered-rm :
      (is_folder : Bool) (name : Bytes)
      → Answered count (serve env stack (rm is_folder name) before) (answer (rm is_folder name) w)
  unfolding serve remove_refusal error_reply code_of
  Answered-rm is_folder name =
      let told =
        lookup_here-search d counts current path first count v sound ps here is_folder
          (c_str name) in
      elim (Option-cases (search (is_child is_folder (c_str name)) (view v.nodes ps) 0)) [
        | inl missing ↦
            Answered-same counts (refuse fs_name_not_exist w).0
              (ap (remove_from w) (told ∙ missing))
              (serve_rm-refusal d max counts first node (view v.nodes ps) current in_folder path env
                stack name is_folder fs_name_not_exist (refused missing))
        | inr ((i, p), found) ↦ elim (Option-cases (lookup (p % 2 ^ 32) counts)) [
          | inr (n, busy) ↦
              Answered-same counts (refuse fs_busy_handle w).0
                (ap (remove_from w) (told ∙ found) ∙ ap (drop_child w i) busy)
                (serve_rm-refusal d max counts first node (view v.nodes ps) current in_folder path
                  env stack name is_folder fs_busy_handle (in_use i p n found busy))
          | inl idle ↦
              let (d', run, at', free, kept, same) =
                remove-FolderAt d max counts first count current.addr node (view v.nodes ps)
                  (c_str name) is_folder i p in_folder sound.free found idle in
              Answered-done (drop_child w i none) d' max first (removed v current.addr ps i)
                (remove_at i ps) (ap (remove_from w) (told ∙ found) ∙ ap (drop_child w i) idle)
                (rw run refl) (omega arith)
                (Sound-removed d d' first count v sound current.addr ps here i same at' free kept)
                (update_self v.items current.addr (some (folder (remove_at i ps))))
                (tree-removed first v current.addr ps here i) (size ∙ ap sectors (sym same))
        ]
      ]
    where
      refused :
          search (is_child is_folder (c_str name)) (view v.nodes ps) 0 ≡ none
          → remove_refusal counts (view v.nodes ps) (c_str name) is_folder ≡ some fs_name_not_exist
      refused missing = rw missing refl

      in_use :
          (i p n : ℕ)
          → search (is_child is_folder (c_str name)) (view v.nodes ps) 0 ≡ some (i, p)
          → lookup (p % 2 ^ 32) counts ≡ some n
          → remove_refusal counts (view v.nodes ps) (c_str name) is_folder ≡ some fs_busy_handle
      in_use i p n found busy = rw (found, busy) refl

  pub Answered-cat :
      (name : Bytes) → Answered count (serve env stack (cat name) before) (answer (cat name) w)
  unfolding serve destroy error_reply code_of
  Answered-cat name =
      let told =
        lookup_here-search d counts current path first count v sound ps here false (c_str name) in
      let opened =
        open_file-FolderAt d max counts first current.addr node (view v.nodes ps) in_folder
          (c_str name) in
      elim (Option-cases (search (is_child false (c_str name)) (view v.nodes ps) 0)) [
        | inl missing ↦
            Answered-same counts (refuse fs_name_not_exist w).0 (ap (read_from w) (told ∙ missing))
              (rw (opened, missing) refl)
        | inr ((i, p), found) ↦
            let (ext, bytes, item) =
              IsFile-found d counts current path first count v sound ps here (c_str name) i p
                found in
            Answered-same (destruction p (construction p counts)) (reply reply_ok ∷ text bytes ∷ [])
              (ap (read_from w) (told ∙ found)
                ∙ ap
                    (λ e. (
                      reply reply_ok ∷ text (text_of e) ∷ [],
                      record w { handles = destruction p (construction p counts) },
                    ))
                    (ap (entry_of (v.nodes p)) item))
              (rw
                (
                  opened,
                  found,
                  read_all-IsFile d counts current path first count v sound ps here max
                      (construction p counts) p ext bytes item,
                )
                refl)
      ]
