-- ===== src/Server/Cd.antt =====
-- What `serve_client` of src/fs_server.h answers to `cd`.
use coursework_file_system.Prelude.{
  ℕ, ◌≡◌, refl, ◌∙◌, Bool, true, false, Option, none, some, List, [], ◌∷◌, ◌==◌, if◌then◌else◌,
  Option-cases, inl, inr,
}
use coursework_file_system.Bytes.{Bytes}
use coursework_file_system.Run.{Run, done, thrown}
use coursework_file_system.CString.{c_str, same_text}
use coursework_file_system.Node.{DirectoryNode}
use coursework_file_system.Disk.{Disk}
use coursework_file_system.Fs.{Env, FileSystem, file_root}
use coursework_file_system.Fs.Mounted.{mounted}
use coursework_file_system.Fs.Handle.{Handle, construction, copy_assign, destroy, destruction}
use coursework_file_system.Fs.File.{Stack}
use coursework_file_system.Fs.Folder.{is_child, open_folder}
use coursework_file_system.Fs.Folder.Layout.{Nodes, FolderAt}
use coursework_file_system.Fs.Folder.Search.{
  search, open_folder-FolderAt, handle_on, handle_on_found,
}
use coursework_file_system.Protocol.{reply_ok, error_reply}
use coursework_file_system.Run.{fs_name_not_exist}
use coursework_file_system.Server.{Session, Message, reply, text, serve, cd, moved, enter}

-- The folder where a name leads from the folder at `addr`, if it leads anywhere.
unfoldable pub target : ℕ → DirectoryNode → Nodes → Bytes → Option ℕ
target addr node cs name =
    if same_text name (b'.' ∷ [])
    then some addr
    else if same_text name (b'.' ∷ b'.' ∷ [])
    then some (if addr == file_root then addr else node.header.parent_addr)
    else elim (search (is_child true name) cs 0) [ none ↦ none | some (i, p) ↦ some p ]

module _ (d : Disk) (max : ℕ) (counts : List (ℕ × ℕ)) (first : ℕ) (node : DirectoryNode)
    (cs : Nodes) (folder : Handle) (at : FolderAt d first folder.addr node cs) (path : Bytes) where
  abbrev pub here : Session
  here = record { fs = mounted d max counts; current_folder = folder; path = path }

  led : Option ℕ → Run FileSystem ℕ
  led none = thrown fs_name_not_exist (mounted d max counts)
  led (some p) = done p (mounted d max (construction p counts))

  regroup :
      (dot up : Bool) (self parent : ℕ) (found : Option (ℕ × ℕ))
      → (if dot
          then handle_on d max counts self
          else if up
          then handle_on d max counts parent
          else handle_on_found d max counts found)
        ≡ led (
            if dot
            then some self
            else if up
            then some parent
            else elim found [ none ↦ none | some (i, p) ↦ some p ])
  unfolding led
  regroup true up self parent found = refl
  regroup false true self parent found = refl
  regroup false false self parent none = refl
  regroup false false self parent (some (i, p)) = refl

  opened_target :
      (name : Bytes)
      → open_folder folder.addr name (mounted d max counts) ≡ led (target folder.addr node cs name)
  unfolding target
  opened_target name =
      open_folder-FolderAt d max counts first folder.addr node cs at name
      ∙ regroup (same_text name (b'.' ∷ [])) (same_text name (b'.' ∷ b'.' ∷ [])) folder.addr
          (if folder.addr == file_root then folder.addr else node.header.parent_addr)
          (search (is_child true name) cs 0)

  -- The answer to `cd`: a handle on the folder at `p` is opened, takes the place of the current one,
  -- which is closed, and is closed itself.
  abbrev pub cd_answer : Bytes → Option ℕ → Run Session (List Message)
  cd_answer name none = done (reply (error_reply fs_name_not_exist) ∷ []) here
  cd_answer name (some p) =
      let left = destroy folder (construction p counts) in
      done (reply reply_ok ∷ text (moved name path) ∷ []) (record {
        fs = mounted d max (destruction p (construction p left));
        current_folder = record { addr = p; abandoned = false };
        path = moved name path;
      })

  -- In a folder as `FolderAt` says, `cd` to a name that leads nowhere is answered with the code of
  -- ERROR_FS_NAME_NOT_EXIST and changes nothing. To any other name it is answered with OK and the
  -- path that it leads to, and the folder there becomes the current one.
  pub serve_cd-FolderAt :
      (env : Env) (stack : Stack) (name : Bytes)
      → serve env stack (cd name) here ≡ cd_answer name (target folder.addr node cs (c_str name))
  unfolding serve led enter copy_assign destroy
  serve_cd-FolderAt env stack name = elim (Option-cases (target folder.addr node cs (c_str name))) [
    | inl e ↦ rw (opened_target (c_str name), e) refl
    | inr (p, e) ↦ rw (opened_target (c_str name), e) refl
  ]
