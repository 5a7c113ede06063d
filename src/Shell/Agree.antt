-- ===== src/Shell/Agree.antt =====
-- `fs_shell` of src/fs_shell.h against `serve_client` of src/fs_server.h: what the one receives is
-- what the other sends.
use coursework_file_system.Prelude.{
  ℕ, suc, ◌+◌, ◌%◌, ◌^◌, ◌<◌, ◌≡◌, ◌≢◌, inl, inr, refl, subst, sym, ap, ◌∙◌, Bool, true, false,
  List, [], ◌∷◌, ◌++◌, map, length, arith, ◌==◌, ◌||◌, if◌then◌else◌, All, ==_ne, Bool-cases,
}
use coursework_file_system.Bytes.{Bytes}
use coursework_file_system.Run.{ErrorCode, Run, done, thrown, undefined, and_then, Cmd, pure}
use coursework_file_system.CString.{c_str}
use coursework_file_system.Fs.{Env, format}
use coursework_file_system.Fs.Folder.{open_folder, list, create, remove}
use coursework_file_system.Fs.File.{Stack, read_all, write_all}
use coursework_file_system.Protocol.{reply_ok, error_reply}
use coursework_file_system.Server.{
  Request, cd, ls, mk, rm, cat, write, insert_at, delete_at, format_disk, unknown, Message, reply,
  number, text, moved, not_created, not_removed, not_written, Session, serve, caught, and_ok, on_fs,
  with_file, edit, inserted, erased, enter, not_found, serve_cd,
}
use coursework_file_system.Shell.{
  Shell, new_path, print_entries, print_content, fail_prompt, shown_entry, receive, on_reply,
  recv_entries, failed,
}

-- The answers to a request: a single reply, or OK with what it brings.
pub data Answers : Request → List Message → Type 0 where
  refused : (r : Request) (c : ℕ) → c ≢ reply_ok → Answers r (reply c ∷ [])
  path : (name shown : Bytes) → Answers (cd name) (reply reply_ok ∷ text shown ∷ [])
  entries :
      (lines : List Bytes)
      → Answers ls (reply reply_ok ∷ number (length lines % 2 ^ 32) ∷ map text lines)
  made : (is_folder : Bool) (name : Bytes) → Answers (mk is_folder name) (reply reply_ok ∷ [])
  removed : (is_folder : Bool) (name : Bytes) → Answers (rm is_folder name) (reply reply_ok ∷ [])
  content : (name bytes : Bytes) → Answers (cat name) (reply reply_ok ∷ text bytes ∷ [])
  written : (name bytes : Bytes) → Answers (write name bytes) (reply reply_ok ∷ [])
  put_in :
      (name : Bytes) (pos : ℕ) (bytes : Bytes)
      → Answers (insert_at name pos bytes) (reply reply_ok ∷ [])
  deleted : (name : Bytes) (pos len : ℕ) → Answers (delete_at name pos len) (reply reply_ok ∷ [])
  formatted : Answers format_disk (reply reply_ok ∷ [])

error_reply-ne_ok : (e : ErrorCode) → error_reply e ≢ reply_ok
unfolding error_reply
error_reply-ne_ok e h = ground arith

abbrev messages : Run Session (List Message) → List Message
messages (done ms s) = ms
messages (thrown e s) = []
messages undefined = []

thrown-ne-done :
    (e : ErrorCode) (s : Session) (ms : List Message) (s' : Session) → thrown e s ≢ done ms s'
thrown-ne-done e s ms s' h = cc

-- A run that ends has gone through its first part.
and_then-done :
    {S A B : Type 0} (run : Run S A) (k : A → Cmd S B) (b : B) (s' : S)
    → and_then run k ≡ done b s'
    → (a : A) × (s1 : S) × (run ≡ done a s1) × (k a s1 ≡ done b s')
and_then-done (done a s1) k b s' h = (a, s1, refl, h)
and_then-done (thrown e s1) k b s' h = cc
and_then-done undefined k b s' h = cc

-- What is caught is a single reply, and else the run is the answer's own.
caught-done :
    {r : Request} (listed : ErrorCode → Bool) (run : Run Session (List Message)) (ms : List Message)
    (s' : Session)
    → ((ms' : List Message) (s'' : Session) → run ≡ done ms' s'' → Answers r ms')
    → caught listed run ≡ done ms s'
    → Answers r ms
unfolding caught
caught-done {r} listed (done ms' s'') ms s' own h = own ms s' h
caught-done {r} listed (thrown e s'') ms s' own h = elim (Bool-cases (listed e)) [
  | inl is_listed ↦
      let same : caught listed (thrown e s'') ≡ done (reply (error_reply e) ∷ []) s'' =
        rw is_listed refl in
      subst (Answers r) (ap messages (sym same ∙ h))
        (refused r (error_reply e) (error_reply-ne_ok e))
  | inr other ↦
      let same : caught listed (thrown e s'') ≡ thrown e s'' = rw other refl in
      absurd (thrown-ne-done e s'' ms s' (sym same ∙ h))
]
caught-done {r} listed undefined ms s' own h = cc

-- After a command that answers only OK.
and_ok-done :
    {A : Type 0} (r : Request) (m : Cmd Session A) (s : Session) (ms : List Message) (s' : Session)
    → Answers r (reply reply_ok ∷ [])
    → and_ok m s ≡ done ms s'
    → Answers r ms
and_ok-done r m s ms s' answer h =
    let (a, s1, run, rest) = and_then-done (m s) (λ _. pure (reply reply_ok ∷ [])) ms s' h in
    subst (Answers r) (ap messages rest) answer

abbrev cd_rest : Bytes → ℕ → Cmd Session (List Message)
cd_rest name addr s =
    let shown = moved name s.path in
    let here = enter addr s in
    done (reply reply_ok ∷ text shown ∷ []) (record here { path = shown })

abbrev ls_rest : List Bytes → Cmd Session (List Message)
ls_rest lines = pure (reply reply_ok ∷ number (length lines % 2 ^ 32) ∷ map text lines)

abbrev cat_rest : Bytes → Cmd Session (List Message)
cat_rest bytes = pure (reply reply_ok ∷ text bytes ∷ [])

-- Every answer of `serve` is one of these.
serve-Answers :
    (env : Env) (stack : Stack) (r : Request) (s : Session) (ms : List Message) (s' : Session)
    → serve env stack r s ≡ done ms s'
    → Answers r ms
unfolding serve serve_cd
serve-Answers env stack (cd name) s ms s' h =
    caught-done not_found (serve_cd name s) ms s'
      (λ ms' s'' run.
        let (a, s1, first, rest) =
          and_then-done (on_fs (open_folder s.current_folder.addr (c_str name)) s) (cd_rest name)
            ms' s'' run in
        subst (Answers (cd name)) (ap messages rest) (path name (moved name s1.path)))
      h
serve-Answers env stack ls s ms s' h =
    let (lines, s1, first, rest) =
      and_then-done (on_fs (list s.current_folder.addr) s) ls_rest ms s' h in
    subst (Answers ls) (ap messages rest) (entries lines)
serve-Answers env stack (mk is_folder name) s ms s' h =
    caught-done not_created _ ms s'
      (λ ms' s'' run.
        and_ok-done _ (on_fs (create env s.current_folder.addr (c_str name) is_folder)) s ms' s''
          (made is_folder name) run)
      h
serve-Answers env stack (rm is_folder name) s ms s' h =
    caught-done not_removed _ ms s'
      (λ ms' s'' run.
        and_ok-done _ (on_fs (remove s.current_folder.addr (c_str name) is_folder)) s ms' s''
          (removed is_folder name) run)
      h
serve-Answers env stack (cat name) s ms s' h =
    caught-done not_found _ ms s'
      (λ ms' s'' run.
        let (bytes, s1, first, rest) =
          and_then-done (with_file name read_all s) cat_rest ms' s'' run in
        subst (Answers (cat name)) (ap messages rest) (content name bytes))
      h
serve-Answers env stack (write name bytes) s ms s' h =
    caught-done not_written _ ms s'
      (λ ms' s'' run.
        and_ok-done _ (with_file name λ addr. write_all stack addr (c_str bytes)) s ms' s''
          (written name bytes) run)
      h
serve-Answers env stack (insert_at name pos bytes) s ms s' h =
    caught-done not_written _ ms s'
      (λ ms' s'' run.
        and_ok-done _ (with_file name (edit stack (inserted pos bytes))) s ms' s''
          (put_in name pos bytes) run)
      h
serve-Answers env stack (delete_at name pos len) s ms s' h =
    caught-done not_written _ ms s'
      (λ ms' s'' run.
        and_ok-done _ (with_file name (edit stack (erased pos len))) s ms' s''
          (deleted name pos len) run)
      h
serve-Answers env stack format_disk s ms s' h =
    and_ok-done _ (on_fs (format env)) s ms s' formatted h
serve-Answers env stack unknown s ms s' h =
    subst (Answers unknown) (ap messages h) (refused unknown 0x3F (omega arith))

-- The shell with `ms` in front of its inbox.
abbrev pub arrived : Shell → List Message → Shell
arrived s ms = record s { inbox = ms }

-- The call ends, and leaves `rest` in the inbox.
abbrev pub Leaves : List Message → Run Shell (Unit {0}) → Type 0
Leaves rest run = (s' : Shell) × (run ≡ done tt s') × (s'.inbox ≡ rest)

on_reply-refused :
    (s : Shell) (is_folder : Bool) (name : Bytes) (go : Cmd Shell (Unit {0})) (c : ℕ)
    (rest : List Message)
    → c ≢ reply_ok
    → Leaves rest (on_reply is_folder name go (arrived s (reply c ∷ rest)))
unfolding on_reply failed
on_reply-refused s is_folder name go c rest ne = (
  record s { inbox = rest; output = s.output ++ (fail_prompt c is_folder name ++ (10 ∷ [])) },
  rw (==_ne c reply_ok ne) refl,
  refl,
)

recv_entries-Leaves :
    (lines : List Bytes) (i : ℕ) (s : Shell) (rest : List Message)
    → All (λ line. line ≢ []) lines
    → Leaves rest (recv_entries (length lines) i (arrived s (map text lines ++ rest)))
unfolding recv_entries
recv_entries-Leaves [] i s rest h = (_, refl, refl)
recv_entries-Leaves ([] ∷ lines) i s rest h = absurd (h.0 refl)
recv_entries-Leaves ((c ∷ line) ∷ lines) i s rest h =
    let separator = if i % 4 == 3 || length lines == 0 then 10 ∷ [] else 9 ∷ [] in
    recv_entries-Leaves lines (i + 1)
      (record s { output = (s.output ++ shown_entry c line) ++ separator }) rest h.1

-- What the shell expects of an answer to `ls`: fewer than 2 ^ 32 entries, none of them empty.
abbrev pub Readable : Request → List Message → Type 0
Readable ls ms = (length ms < 2 ^ 32) × All (λ m. m ≢ text []) ms
Readable _ ms = Unit {0}

lines_of :
    (lines : List Bytes) → All (λ m. m ≢ text []) (map text lines) → All (λ line. line ≢ []) lines
lines_of [] h = tt
lines_of (line ∷ lines) h = ((λ e. h.0 (ap text e)), lines_of lines h.1)

length-lines : (lines : List Bytes) → length (map text lines) ≡ length lines
length-lines [] = refl
length-lines (line ∷ lines) = ap suc (length-lines lines)

receive-refused :
    (r : Request) (c : ℕ) (s : Shell) (rest : List Message)
    → r ≢ unknown
    → c ≢ reply_ok
    → Leaves rest (receive r (arrived s (reply c ∷ rest)))
unfolding receive
receive-refused (cd name) c s rest known ne = on_reply-refused s true name new_path c rest ne
receive-refused ls c s rest known ne = on_reply-refused s true [] print_entries c rest ne
receive-refused (mk is_folder name) c s rest known ne =
    on_reply-refused s is_folder name (pure tt) c rest ne
receive-refused (rm is_folder name) c s rest known ne =
    on_reply-refused s is_folder name (pure tt) c rest ne
receive-refused (cat name) c s rest known ne = on_reply-refused s false name print_content c rest ne
receive-refused (write name bytes) c s rest known ne =
    on_reply-refused s false name (pure tt) c rest ne
receive-refused (insert_at name pos bytes) c s rest known ne =
    on_reply-refused s false name (pure tt) c rest ne
receive-refused (delete_at name pos len) c s rest known ne =
    on_reply-refused s false name (pure tt) c rest ne
receive-refused format_disk c s rest known ne = on_reply-refused s false [] (pure tt) c rest ne
receive-refused unknown c s rest known ne = absurd (known refl)

receive-Answers :
    {r : Request} {ms : List Message} (s : Shell) (rest : List Message)
    → Answers r ms
    → r ≢ unknown
    → Readable r ms
    → Leaves rest (receive r (arrived s (ms ++ rest)))
unfolding receive on_reply recv_entries
receive-Answers s rest (refused r c ne) known readable = receive-refused r c s rest known ne
receive-Answers s rest (path name shown) known readable = (_, refl, refl)
receive-Answers s rest (entries lines) known (small, filled) =
    let fits : length lines % 2 ^ 32 ≡ length lines = omega (arith, small, length-lines lines) in
    rw fits (recv_entries-Leaves lines 0 s rest (lines_of lines filled.1.1))
receive-Answers s rest (made is_folder name) known readable = (_, refl, refl)
receive-Answers s rest (removed is_folder name) known readable = (_, refl, refl)
receive-Answers s rest (content name bytes) known readable = (_, refl, refl)
receive-Answers s rest (written name bytes) known readable = (_, refl, refl)
receive-Answers s rest (put_in name pos bytes) known readable = (_, refl, refl)
receive-Answers s rest (deleted name pos len) known readable = (_, refl, refl)
receive-Answers s rest formatted known readable = (_, refl, refl)

-- The shell's handling of a request it sends takes exactly the messages that `serve` answers it
-- with off its connection, and ends; for `ls` with fewer than 2 ^ 32 messages, none of them the
-- empty string.
pub receive-serve :
    (env : Env) (stack : Stack) (r : Request) (session session' : Session) (ms : List Message)
    (s : Shell) (rest : List Message)
    → serve env stack r session ≡ done ms session'
    → r ≢ unknown
    → Readable r ms
    → Leaves rest (receive r (arrived s (ms ++ rest)))
receive-serve env stack r session session' ms s rest h known readable =
    receive-Answers s rest (serve-Answers env stack r session ms session' h) known readable
