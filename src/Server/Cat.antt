-- ===== src/Server/Cat.antt =====
-- What `serve_client` of src/fs_server.h answers to `cat` for a file of the current folder.
use coursework_file_system.Prelude.{ℕ, ◌≡◌, refl, false, some, List, [], ◌∷◌}
use coursework_file_system.Bytes.{Bytes}
use coursework_file_system.Run.{done}
use coursework_file_system.CString.{c_str}
use coursework_file_system.Node.{DirectoryNode}
use coursework_file_system.Disk.{Disk}
use coursework_file_system.Fs.{Env}
use coursework_file_system.Fs.Mounted.{mounted}
use coursework_file_system.Fs.Handle.{Handle, construction, destroy}
use coursework_file_system.Fs.File.{Stack}
use coursework_file_system.Fs.File.Layout.{FileHolds}
use coursework_file_system.Fs.File.Read.{read_all-FileHolds}
use coursework_file_system.Fs.Folder.{is_child}
use coursework_file_system.Fs.Folder.Layout.{Nodes, FolderAt}
use coursework_file_system.Fs.Folder.Search.{search, open_file-FolderAt}
use coursework_file_system.Protocol.{reply_ok}
use coursework_file_system.Server.{reply, text, serve, cat}

module _ (d : Disk) (max : ℕ) (counts : List (ℕ × ℕ)) (first : ℕ) (node : DirectoryNode)
    (cs : Nodes) (folder : Handle) (at : FolderAt d first folder.addr node cs) where
  -- `cat` of the first file of that name in the current folder is answered with OK and exactly the
  -- file's content; the disk stays as it is, and the handle that was opened is closed again.
  pub serve_cat-FileHolds :
      (env : Env) (stack : Stack) (path name bytes : Bytes) (i p : ℕ) (file : DirectoryNode)
      → search (is_child false (c_str name)) cs 0 ≡ some (i, p)
      → FileHolds d p file bytes
      → serve env stack
          (cat name)
          (record { fs = mounted d max counts; current_folder = folder; path = path })
        ≡ done (reply reply_ok ∷ text bytes ∷ []) (record {
          fs =
              mounted d max
                (destroy (record { addr = p; abandoned = false }) (construction p counts));
          current_folder = folder;
          path = path;
        })
  unfolding serve
  serve_cat-FileHolds env stack path name bytes i p file found content =
      rw
        (
          open_file-FolderAt d max counts first folder.addr node cs at (c_str name),
          found,
          read_all-FileHolds d max (construction p counts) p file bytes content,
        )
        refl
