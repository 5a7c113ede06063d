-- ===== src/Shell.antt =====
-- `fs_shell` of src/fs_shell.h: one round of `run`, from the line that the user types to the request
-- that is sent, and from the replies to what is printed; `styled` of src/utils/shell.h. The line
-- has no newline, as `readline` gives it. How a stream reads a `uint64_t` is a parameter, as is the
-- connection: `inbox` holds the messages that the server sends.
pub mod Agree
pub mod Parse
use Prim.Native.Char.{code}
use Prim.Native.String.{String}
use coursework_file_system.Prelude.{
  ℕ, zero, suc, ◌+◌, ◌-◌, ◌%◌, Bool, true, false, ◌||◌, Option, none, some, List, [], ◌∷◌, ◌++◌,
  ◌==◌, if◌then◌else◌,
}
use coursework_file_system.Bytes.{Bytes}
use coursework_file_system.Run.{Run, done, undefined, Cmd, pure, fault, ◌>>=◌, ◌>>◌}
use coursework_file_system.CString.{same_text}
use coursework_file_system.Protocol.{reply_ok}
use coursework_file_system.Server.{
  Request, cd, ls, mk, rm, cat, write, insert_at, delete_at, format_disk, unknown, Message, reply,
  number, text, pop_back,
}

-- The characters of a literal.
abbrev pub chars : String → Bytes
chars String.[] = []
chars (String.◌∷◌ c rest) = code c ∷ chars rest

-- `styled(text, style_0, style_1)`; an escape sequence is ESC and its letters.
abbrev pub escape : String → Bytes
escape s = 27 ∷ chars s

abbrev pub bold : Bytes
bold = escape "[1m"

abbrev pub red : Bytes
red = escape "[31m"

abbrev pub blue : Bytes
blue = escape "[34m"

unfoldable pub styled : Bytes → Bytes → Bytes → Bytes
styled t style_0 style_1 = style_0 ++ (style_1 ++ (t ++ escape "[0m"))

abbrev pub kind : Bool → Bytes
kind true = chars "directory "
kind false = chars "file "

-- `fail_prompt`
abbrev pub reason : ℕ → Bool → Bytes → Bytes
reason c is_folder name =
    if c == 0x30
    then kind is_folder ++ (name ++ chars " not found")
    else if c == 0x31
    then kind is_folder ++ (name ++ chars " already exists")
    else if c == 0x32
    then chars "the name is too long"
    else if c == 0x33
    then chars "invalid name"
    else if c == 0x34
    then chars "the " ++ (kind is_folder ++ chars "is in use")
    else if c == 0x35
    then chars "capacity exceeded"
    else if c == 0x36
    then chars "access denied"
    else chars "unknown error"

unfoldable pub fail_prompt : ℕ → Bool → Bytes → Bytes
unfolding styled
fail_prompt c is_folder name =
    styled (chars "Failed") red bold ++ (chars ": " ++ reason c is_folder name)

-- White space of the "C" locale.
abbrev pub is_space : ℕ → Bool
is_space c = c == 32 || (c == 9 || (c == 10 || (c == 11 || (c == 12 || c == 13))))

-- `iss >> std::ws`
unfoldable pub skip_space : Bytes → Bytes
skip_space [] = []
skip_space (c ∷ s) = let rest = skip_space s in if is_space c then rest else c ∷ s

-- The characters up to the next white space, and what follows them.
unfoldable pub split_word : Bytes → Bytes × Bytes
split_word [] = ([], [])
split_word (c ∷ s) =
    let (front, rest) = split_word s in if is_space c then ([], c ∷ s) else (c ∷ front, rest)

abbrev pub non_empty : Bytes × Bytes → Option (Bytes × Bytes)
non_empty ([], rest) = none
non_empty (c ∷ word, rest) = some (c ∷ word, rest)

-- `iss >> name`, which fails at the end of the line.
unfoldable pub read_word : Bytes → Option (Bytes × Bytes)
unfolding skip_space split_word
read_word s = non_empty (split_word (skip_space s))

-- `std::getline(iss >> std::ws, data)`, which fails where nothing follows the white space.
abbrev pub some_text : Bytes → Option Bytes
some_text [] = none
some_text (c ∷ s) = some (c ∷ s)

unfoldable pub read_rest : Bytes → Option Bytes
unfolding skip_space
read_rest s = some_text (skip_space s)

-- What a line asks for.
pub data Command : Type 0 where
  idle exit : Command
  complain : Bytes → Command
  ask : Request → Command

abbrev pub missing : Bytes → (Bytes → Request) → Option (Bytes × Bytes) → Command
missing complaint request none = complain complaint
missing complaint request (some (name, rest)) = ask (request name)

module _ (read_number : Bytes → Option (ℕ × Bytes)) where
  abbrev pub write_command : Option (Bytes × Bytes) → Command
  write_command none = complain (chars "Invalid command format")
  write_command (some (name, rest)) = elim (read_rest rest) [
    | none ↦ complain (chars "Invalid command format")
    | some bytes ↦ ask (write name bytes)
  ]

  abbrev pub insert_command : Option (Bytes × Bytes) → Command
  insert_command none = complain (chars "Invalid command format")
  insert_command (some (name, rest)) = elim (read_number rest) [
    | none ↦ complain (chars "Invalid command format")
    | some p ↦ elim (read_rest p.1) [
      | none ↦ complain (chars "Invalid command format")
      | some bytes ↦ ask (insert_at name p.0 bytes)
    ]
  ]

  abbrev pub delete_command : Option (Bytes × Bytes) → Command
  delete_command none = complain (chars "Invalid command format")
  delete_command (some (name, rest)) = elim (read_number rest) [
    | none ↦ complain (chars "Invalid command format")
    | some p ↦ elim (read_number p.1) [
      | none ↦ complain (chars "Invalid command format")
      | some q ↦ ask (delete_at name p.0 q.0)
    ]
  ]

  abbrev pub command_of : Bytes → Bytes → Command
  command_of cmd rest =
      if same_text cmd (chars "e")
      then exit
      else if same_text cmd (chars "f")
      then ask format_disk
      else if same_text cmd (chars "mk")
      then missing (chars "Missing file name") (mk false) (read_word rest)
      else if same_text cmd (chars "mkdir")
      then missing (chars "Missing directory name") (mk true) (read_word rest)
      else if same_text cmd (chars "rm")
      then missing (chars "Missing file name") (rm false) (read_word rest)
      else if same_text cmd (chars "cd")
      then missing (chars "Missing path") cd (read_word rest)
      else if same_text cmd (chars "rmdir")
      then missing (chars "Missing directory name") (rm true) (read_word rest)
      else if same_text cmd (chars "ls")
      then ask ls
      else if same_text cmd (chars "cat")
      then missing (chars "Missing file name") cat (read_word rest)
      else if same_text cmd (chars "w")
      then write_command (read_word rest)
      else if same_text cmd (chars "i")
      then insert_command (read_word rest)
      else if same_text cmd (chars "d")
      then delete_command (read_word rest)
      else complain (chars "Unknown command: " ++ cmd)

  -- The command of a line. `iss >> cmd` leaves `cmd` empty on a line of white space.
  unfoldable pub parse_line : Bytes → Command
  unfolding read_word read_rest same_text
  parse_line [] = idle
  parse_line (c ∷ line) = elim (read_word (c ∷ line)) [
    | none ↦ command_of [] []
    | some p ↦ command_of p.0 p.1
  ]

-- The members that a reply changes, with the messages that have arrived and what is printed.
pub record Shell : Type 0 where
  pub path_prompt : Bytes
  pub inbox : List Message
  pub output : Bytes

-- `recv`, for each type. A message of another type is read as garbage, and without a message the
-- call never returns; both count as undefined.
abbrev pub recv_reply : Cmd Shell ℕ
recv_reply s = elim s.inbox [
  | [] ↦ undefined
  | m ∷ rest ↦ elim m [
    | reply c ↦ done c (record s { inbox = rest })
    | number n ↦ undefined
    | text t ↦ undefined
  ]
]

abbrev pub recv_number : Cmd Shell ℕ
recv_number s = elim s.inbox [
  | [] ↦ undefined
  | m ∷ rest ↦ elim m [
    | reply c ↦ undefined
    | number n ↦ done n (record s { inbox = rest })
    | text t ↦ undefined
  ]
]

abbrev pub recv_text : Cmd Shell Bytes
recv_text s = elim s.inbox [
  | [] ↦ undefined
  | m ∷ rest ↦ elim m [
    | reply c ↦ undefined
    | number n ↦ undefined
    | text t ↦ done t (record s { inbox = rest })
  ]
]

abbrev pub print : Bytes → Cmd Shell (Unit {0})
print t s = done tt (record s { output = s.output ++ t })

abbrev pub print_line : Bytes → Cmd Shell (Unit {0})
print_line t = print (t ++ (10 ∷ []))

-- The last character.
abbrev pub back : ℕ → Bytes → ℕ
back c [] = c
back c (d ∷ s) = back d s

-- An entry of `ls`: a folder without its slash, in colour.
unfoldable pub shown_entry : ℕ → Bytes → Bytes
unfolding styled pop_back
shown_entry c s = if back c s == b'/' then styled (pop_back (c ∷ s)) blue bold else c ∷ s

-- `back` of an empty string is undefined.
unfoldable pub entry_output : Bytes → Cmd Shell (Unit {0})
unfolding shown_entry
entry_output [] = fault
entry_output (c ∷ s) = print (shown_entry c s)

-- `for (i = 0; i < count; ++i)`, with the number of rounds left.
unfoldable pub recv_entries : ℕ → ℕ → Cmd Shell (Unit {0})
unfolding entry_output
recv_entries zero i = pure tt
recv_entries (suc k) i = do
  entry ← recv_text
  entry_output entry
  print (if i % 4 == 3 || k == 0 then 10 ∷ [] else 9 ∷ [])
  recv_entries k (i + 1)

-- What follows a reply other than FS_REPLY_OK.
unfoldable pub failed : ℕ → Bool → Bytes → Cmd Shell (Unit {0})
unfolding fail_prompt
failed c is_folder name = print_line (fail_prompt c is_folder name)

abbrev pub new_path : Cmd Shell (Unit {0})
new_path = do path ← recv_text; λ s. done tt (record s { path_prompt = path })

abbrev pub print_entries : Cmd Shell (Unit {0})
unfolding recv_entries
print_entries = do count ← recv_number; recv_entries count 0

abbrev pub print_content : Cmd Shell (Unit {0})
print_content = do content ← recv_text; print_line content

-- `if (reply == FS_REPLY_OK) … else …`
unfoldable pub on_reply : Bool → Bytes → Cmd Shell (Unit {0}) → Cmd Shell (Unit {0})
unfolding failed
on_reply is_folder name go = do
  c ← recv_reply
  if c == reply_ok then go else failed c is_folder name

-- What `run` does with the answer to a request. No command sends `unknown`.
unfoldable pub receive : Request → Cmd Shell (Unit {0})
unfolding on_reply
receive (cd name) = on_reply true name new_path
receive ls = on_reply true [] print_entries
receive (mk is_folder name) = on_reply is_folder name (pure tt)
receive (rm is_folder name) = on_reply is_folder name (pure tt)
receive (cat name) = on_reply false name print_content
receive (write name bytes) = on_reply false name (pure tt)
receive (insert_at name pos bytes) = on_reply false name (pure tt)
receive (delete_at name pos len) = on_reply false name (pure tt)
receive format_disk = on_reply false [] (pure tt)
receive unknown = pure tt
