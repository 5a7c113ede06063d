-- ===== src/Server.antt =====
-- `fs_server::serve_client` of src/fs_server.h: one round of its loop, which receives an
-- instruction with its arguments, runs it on the client's current folder and sends the replies.
-- The socket delivers a request whole and takes every reply; what the code does when the client
-- closes the connection in between is not modelled. A `std::string` is handed on as a C string.
pub mod Path
pub mod Refuse
pub mod Cat
pub mod Cd
pub mod Write
pub mod Fresh
pub mod Tree
pub mod Serving
use coursework_file_system.Prelude.{
  ℕ, ◌+◌, ◌%◌, ◌^◌, Bool, true, false, not, List, [], ◌∷◌, ◌++◌, map, length, take, drop, ltb,
  if◌then◌else◌,
}
use coursework_file_system.Bytes.{Bytes}
use coursework_file_system.Run.{
  ErrorCode, Run, done, thrown, undefined, Cmd, pure, throw, and_then, ◌>>=◌, ◌>>◌, within,
  fs_busy_handle, fs_capacity_exceeded, fs_name_not_exist, fs_name_already_exist, fs_name_too_long,
  fs_name_invalid,
}
use coursework_file_system.CString.{c_str, same_text, has_char}
use coursework_file_system.Fs.{FileSystem, Env, format}
use coursework_file_system.Fs.Handle.{Handle, copy_assign, destroy}
use coursework_file_system.Fs.Folder.{open_file, open_folder, create, remove, list}
use coursework_file_system.Fs.File.{Stack, read_all, write_all}
use coursework_file_system.Protocol.{reply_ok, reply_unknown_error, error_reply}

-- What the client sends: the instruction with its arguments; `unknown` is any other code.
pub data Request : Type 0 where
  cd : Bytes → Request
  ls : Request
  mk rm : Bool → Bytes → Request
  cat : Bytes → Request
  write : Bytes → Bytes → Request
  insert_at : Bytes → ℕ → Bytes → Request
  delete_at : Bytes → ℕ → ℕ → Request
  format_disk unknown : Request

-- What the server sends: a reply code, a `uint32_t` or a string.
pub data Message : Type 0 where
  reply number : ℕ → Message
  text : Bytes → Message

-- The variables of `serve_client` that outlive a round, with the file system.
pub record Session : Type 0 where
  pub fs : FileSystem
  pub current_folder : Handle
  pub path : Bytes

-- `path.pop_back()`
unfoldable pub pop_back : Bytes → Bytes
pop_back [] = []
pop_back (c ∷ []) = []
pop_back (c ∷ (d ∷ s)) = c ∷ pop_back (d ∷ s)

-- `path.erase(path.find_last_of('/') + 1)`
unfoldable pub keep_folder : Bytes → Bytes
keep_folder [] = []
keep_folder (c ∷ s) = let rest = keep_folder s in if has_char b'/' (c ∷ s) then c ∷ rest else []

-- The path after a successful `cd`.
unfoldable pub moved : Bytes → Bytes → Bytes
unfolding pop_back keep_folder
moved name path =
    if same_text name (b'.' ∷ [])
    then path
    else if same_text name (b'.' ∷ b'.' ∷ [])
    then (if same_text path (b'/' ∷ []) then path else keep_folder (pop_back path))
    else path ++ (name ++ (b'/' ∷ []))

abbrev pub on_fs : {A : Type 0} → Cmd FileSystem A → Cmd Session A
on_fs m s = within (λ s fs. record s { fs = fs }) s (m s.fs)

-- `catch (except &e)`: the listed errors are answered, the others thrown on.
unfoldable pub caught : (ErrorCode → Bool) → Run Session (List Message) → Run Session (List Message)
caught listed (done a s) = done a s
caught listed (thrown e s) = if listed e then done (reply (error_reply e) ∷ []) s else thrown e s
caught listed undefined = undefined

abbrev pub not_found : ErrorCode → Bool
not_found fs_name_not_exist = true
not_found _ = false

abbrev pub not_created : ErrorCode → Bool
not_created fs_capacity_exceeded = true
not_created fs_name_already_exist = true
not_created fs_name_too_long = true
not_created fs_name_invalid = true
not_created _ = false

abbrev pub not_removed : ErrorCode → Bool
not_removed fs_busy_handle = true
not_removed fs_name_not_exist = true
not_removed _ = false

abbrev pub not_written : ErrorCode → Bool
not_written fs_name_not_exist = true
not_written fs_capacity_exceeded = true
not_written _ = false

-- `current_folder = folder` for a second handle `folder`, which then goes out of scope.
unfoldable pub enter : ℕ → Session → Session
unfolding copy_assign destroy
enter addr s =
    let folder : Handle = record { addr = addr; abandoned = false } in
    let fs = s.fs in
    let (current, counts) = copy_assign false s.current_folder folder fs.handle_instance_count in
    record s {
      fs = record fs { handle_instance_count = destroy folder counts };
      current_folder = current;
    }

unfoldable pub serve_cd : Bytes → Cmd Session (List Message)
unfolding enter moved
serve_cd name = do
  addr ← λ s. on_fs (open_folder s.current_folder.addr (c_str name)) s
  λ s.
      let path = moved name s.path in
      let here = enter addr s in
      done (reply reply_ok ∷ text path ∷ []) (record here { path = path })

-- The destructor of a file handle, at the end of its scope or when an exception leaves it.
unfoldable pub closing : {A : Type 0} → Handle → Run FileSystem A → Run FileSystem A
unfolding destroy
closing h (done a fs) =
    done a (record fs { handle_instance_count = destroy h fs.handle_instance_count })
closing h (thrown e fs) =
    thrown e (record fs { handle_instance_count = destroy h fs.handle_instance_count })
closing h undefined = undefined

-- `fs_file_handle file = current_folder.open(name)` around the rest of its scope.
unfoldable pub with_file : {A : Type 0} → Bytes → (ℕ → Cmd FileSystem A) → Cmd Session A
unfolding closing
with_file name body s =
    on_fs
      (do
        addr ← open_file s.current_folder.addr (c_str name)
        λ fs. closing (record { addr = addr; abandoned = false }) (body addr fs))
      s

-- `std::string::insert` and `erase` behind the code's own bound on the position.
abbrev pub inserted : ℕ → Bytes → Bytes → Bytes
inserted pos bytes content =
    let at = if ltb (length content) pos then length content else pos in
    take at content ++ (bytes ++ drop at content)

abbrev pub erased : ℕ → ℕ → Bytes → Bytes
erased pos len content =
    let at = if ltb (length content) pos then length content else pos in
    take at content ++ drop (at + len) content

abbrev pub edit : Stack → (Bytes → Bytes) → ℕ → Cmd FileSystem (Unit {0})
edit stack change addr = do content ← read_all addr; write_all stack addr (c_str (change content))

abbrev pub and_ok : {A : Type 0} → Cmd Session A → Cmd Session (List Message)
and_ok m = m >> pure (reply reply_ok ∷ [])

-- The cases of the `switch`.
abbrev pub serve_ls : Cmd Session (List Message)
serve_ls s =
    (do
      lines ← on_fs (list s.current_folder.addr)
      pure (reply reply_ok ∷ number (length lines % 2 ^ 32) ∷ map text lines))
      s

abbrev pub serve_mk : Env → Bool → Bytes → Cmd Session (List Message)
serve_mk env is_folder name s =
    caught not_created (and_ok (on_fs (create env s.current_folder.addr (c_str name) is_folder)) s)

abbrev pub serve_rm : Bool → Bytes → Cmd Session (List Message)
serve_rm is_folder name s =
    caught not_removed (and_ok (on_fs (remove s.current_folder.addr (c_str name) is_folder)) s)

abbrev pub serve_cat : Bytes → Cmd Session (List Message)
serve_cat name s =
    caught not_found
      ((do content ← with_file name read_all; pure (reply reply_ok ∷ text content ∷ [])) s)

abbrev pub serve_write : Stack → Bytes → Bytes → Cmd Session (List Message)
serve_write stack name bytes s =
    caught not_written (and_ok (with_file name λ addr. write_all stack addr (c_str bytes)) s)

abbrev pub serve_insert : Stack → Bytes → ℕ → Bytes → Cmd Session (List Message)
serve_insert stack name pos bytes s =
    caught not_written (and_ok (with_file name (edit stack (inserted pos bytes))) s)

abbrev pub serve_delete : Stack → Bytes → ℕ → ℕ → Cmd Session (List Message)
serve_delete stack name pos len s =
    caught not_written (and_ok (with_file name (edit stack (erased pos len))) s)

-- One round of the loop.
unfoldable pub serve : Env → Stack → Request → Cmd Session (List Message)
unfolding caught with_file serve_cd
serve env stack (cd name) s = caught not_found (serve_cd name s)
serve env stack ls s = serve_ls s
serve env stack (mk is_folder name) s = serve_mk env is_folder name s
serve env stack (rm is_folder name) s = serve_rm is_folder name s
serve env stack (cat name) s = serve_cat name s
serve env stack (write name bytes) s = serve_write stack name bytes s
serve env stack (insert_at name pos bytes) s = serve_insert stack name pos bytes s
serve env stack (delete_at name pos len) s = serve_delete stack name pos len s
serve env stack format_disk s = and_ok (on_fs (format env)) s
serve env stack unknown s = done (reply reply_unknown_error ∷ []) s
