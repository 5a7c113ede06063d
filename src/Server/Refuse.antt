-- ===== src/Server/Refuse.antt =====
-- What `serve_client` of src/fs_server.h answers to a refused `mk`, `mkdir`, `rm` or `rmdir`.
use coursework_file_system.Prelude.{
  ℕ, ◌≡◌, refl, Bool, true, Option, none, some, List, [], ◌∷◌, arith,
}
use coursework_file_system.Bytes.{Bytes}
use coursework_file_system.Run.{ErrorCode, done}
use coursework_file_system.CString.{c_str}
use coursework_file_system.Node.{DirectoryNode}
use coursework_file_system.Disk.{Disk}
use coursework_file_system.Fs.{Env}
use coursework_file_system.Fs.Mounted.{mounted}
use coursework_file_system.Fs.Handle.{Handle}
use coursework_file_system.Fs.File.{Stack}
use coursework_file_system.Fs.Folder.{is_child}
use coursework_file_system.Fs.Folder.Layout.{Nodes, FolderAt}
use coursework_file_system.Fs.Folder.Search.{search}
use coursework_file_system.Fs.Folder.Refuse.{
  busy_refusal, create_refusal, remove_refusal, create-refusal, remove-refusal,
}
use coursework_file_system.Protocol.{error_reply}
use coursework_file_system.Server.{reply, serve, mk, rm, not_created, not_removed}

create_refusal-listed :
    (node : DirectoryNode) (cs : Nodes) (name : Bytes) (e : ErrorCode)
    → create_refusal node cs name ≡ some e
    → not_created e ≡ true
unfolding create_refusal
create_refusal-listed node cs name e h = ground arith

busy_refusal-listed :
    (counts : List (ℕ × ℕ)) (found : Option (ℕ × ℕ)) (e : ErrorCode)
    → busy_refusal counts found ≡ some e
    → not_removed e ≡ true
busy_refusal-listed counts none e h = ground arith
busy_refusal-listed counts (some (i, p)) e h = ground arith

module _ (d : Disk) (max : ℕ) (counts : List (ℕ × ℕ)) (first : ℕ) (node : DirectoryNode)
    (cs : Nodes) (folder : Handle) (at : FolderAt d first folder.addr node cs) (path : Bytes)
    (env : Env) (stack : Stack) (name : Bytes) (is_folder : Bool) (e : ErrorCode) where
  -- In a folder as `FolderAt` says, a refused `mk` or `mkdir` is answered with the code of its error; the session goes on as before.
  pub serve_mk-refusal :
      create_refusal node cs (c_str name) ≡ some e
      → serve env stack
          (mk is_folder name)
          (record { fs = mounted d max counts; current_folder = folder; path = path })
        ≡ done
            (reply (error_reply e) ∷ [])
            (record { fs = mounted d max counts; current_folder = folder; path = path })
  unfolding serve
  serve_mk-refusal h =
      rw
        (
          create-refusal d max counts first folder.addr node cs at env (c_str name) is_folder e h,
          create_refusal-listed node cs (c_str name) e h,
        )
        refl

  -- In a folder as `FolderAt` says, a refused `rm` or `rmdir` is answered with the code of its error; the session goes on as before.
  pub serve_rm-refusal :
      remove_refusal counts cs (c_str name) is_folder ≡ some e
      → serve env stack
          (rm is_folder name)
          (record { fs = mounted d max counts; current_folder = folder; path = path })
        ≡ done
            (reply (error_reply e) ∷ [])
            (record { fs = mounted d max counts; current_folder = folder; path = path })
  unfolding serve remove_refusal
  serve_rm-refusal h =
      rw
        (
          remove-refusal d max counts first folder.addr node cs at (c_str name) is_folder e h,
          busy_refusal-listed counts (search (is_child is_folder (c_str name)) cs 0) e h,
        )
        refl
