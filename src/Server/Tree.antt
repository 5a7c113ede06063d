-- ===== src/Server/Tree.antt =====
-- What src/fs.h and src/fs_server.h promise, without the disk: a tree of named folders and files,
-- and what each request of a client answers and does to it. Entries are known by numbers; the
-- next new entry or block gets the number `next`, and no number is used again.
pub mod Names
pub mod Edits
use coursework_file_system.Prelude.{
  ℕ, zero, suc, ◌+◌, ◌-◌, ◌%◌, ◌^◌, Bool, true, false, not, ◌&&◌, ◌||◌, Option, none, some, List,
  [], ◌∷◌, ◌++◌, map, length, leb, ◌==◌, if◌then◌else◌,
}
use coursework_file_system.Bytes.{Bytes}
use coursework_file_system.Run.{
  ErrorCode, fs_busy_handle, fs_capacity_exceeded, fs_name_not_exist, fs_name_already_exist,
  fs_name_too_long, fs_name_invalid, fs_access_denied,
}
use coursework_file_system.Table.{lookup}
use coursework_file_system.CString.{c_str, same_text, has_char}
use coursework_file_system.Node.{name_length_max}
use coursework_file_system.Disk.{update}
use coursework_file_system.Fs.{file_root, reserved_blocks}
use coursework_file_system.Fs.Handle.{Handle, Counts, construction, destruction, destroy}
use coursework_file_system.Fs.File.{blocks_for}
use coursework_file_system.Fs.Folder.Gap.{remove_at}
use coursework_file_system.Protocol.{reply_ok, reply_unknown_error}
use coursework_file_system.Server.{
  Request, cd, ls, mk, rm, cat, write, insert_at, delete_at, format_disk, unknown, Message, reply,
  number, text,
}

-- A folder with its parent and its children, or a file with its content.
pub data Entry : Type 0 where
  branch : ℕ → List ℕ → Entry
  leaf : Bytes → Entry

pub record Tree : Type 0 where
  pub name : ℕ → Bytes
  pub entry : ℕ → Option Entry
  pub next : ℕ

-- The tree as a client sees it, with the open handles.
pub record View : Type 0 where
  pub tree : Tree
  pub handles : Counts
  pub here : Handle
  pub path : Bytes

abbrev pub children : Option Entry → List ℕ
children (some (branch parent ps)) = ps
children _ = []

abbrev pub parent_of : Option Entry → ℕ
parent_of (some (branch parent ps)) = parent
parent_of _ = file_root

abbrev pub text_of : Option Entry → Bytes
text_of (some (leaf bytes)) = bytes
text_of _ = []

abbrev pub is_branch : Option Entry → Bool
is_branch (some (branch parent ps)) = true
is_branch _ = false

-- `new` in front of position `pos` of a text, or behind its end.
unfoldable pub spliced : ℕ → Bytes → Bytes → Bytes
spliced pos new [] = new
spliced zero new (c ∷ s) = new ++ (c ∷ s)
spliced (suc pos) new (c ∷ s) = c ∷ spliced pos new s

-- A text without the `len` characters from position `pos` on.
unfoldable pub cut_out : ℕ → ℕ → Bytes → Bytes
cut_out pos len [] = []
cut_out zero zero (c ∷ s) = c ∷ s
cut_out zero (suc len) (c ∷ s) = cut_out zero len s
cut_out (suc pos) len (c ∷ s) = c ∷ cut_out pos len s

-- The names that no entry has, besides those with a slash.
abbrev pub is_reserved : Bytes → List Bytes → Bool
is_reserved name [] = false
is_reserved name (x ∷ xs) = same_text name x || is_reserved name xs

abbrev pub is_legal : Bytes → Bool
is_legal name =
    not (is_reserved name ([] ∷ (b'.' ∷ []) ∷ (b'.' ∷ b'.' ∷ []) ∷ [])) && not (has_char b'/' name)

-- The longest proper front part of a path that ends in a slash.
abbrev pub front : ℕ → Bytes → Bytes → Bytes
front c s (d ∷ rest) = c ∷ (d ∷ rest)
front c [] [] = []
front c (d ∷ s) [] = if c == b'/' then c ∷ [] else []

unfoldable pub up : Bytes → Bytes
up [] = []
up (c ∷ s) = front c s (up s)

-- The path behind a `cd` that succeeds.
unfoldable pub walked : Bytes → Bytes → Bytes
walked name path =
    if same_text name (b'.' ∷ [])
    then path
    else if same_text name (b'.' ∷ b'.' ∷ [])
    then (if same_text path (b'/' ∷ []) then path else up path)
    else path ++ (name ++ (b'/' ∷ []))

abbrev pub is_kind : Bool → Option Entry → Bool
is_kind is_folder e = if is_folder then is_branch e else not (is_branch e)

-- The first child of a type and a name, with its index.
unfoldable pub find : Tree → Bool → Bytes → List ℕ → ℕ → Option (ℕ × ℕ)
find t is_folder name [] i = none
find t is_folder name (p ∷ ps) i =
    if is_kind is_folder (t.entry p) && same_text (t.name p) name
    then some (i, p)
    else find t is_folder name ps (i + 1)

unfoldable pub is_taken : Tree → Bytes → List ℕ → Bool
is_taken t name [] = false
is_taken t name (p ∷ ps) = same_text (t.name p) name || is_taken t name ps

abbrev pub Outcome : Type 0
Outcome = List Message × View

-- The codes of the refusals.
unfoldable pub code_of : ErrorCode → ℕ
code_of fs_name_not_exist = 0x30
code_of fs_name_already_exist = 0x31
code_of fs_name_too_long = 0x32
code_of fs_name_invalid = 0x33
code_of fs_busy_handle = 0x34
code_of fs_capacity_exceeded = 0x35
code_of fs_access_denied = 0x36
code_of _ = 0x3F

abbrev pub refuse : ErrorCode → View → Outcome
refuse e w = (reply (code_of e) ∷ [], w)

abbrev pub entry_here : View → Option Entry
entry_here w = w.tree.entry w.here.addr

abbrev pub lookup_here : View → Bool → Bytes → Option (ℕ × ℕ)
lookup_here w is_folder name = find w.tree is_folder name (children (entry_here w)) 0

-- The folder that a name leads to.
abbrev pub child_of : Option (ℕ × ℕ) → Option ℕ
child_of none = none
child_of (some (i, p)) = some p

unfoldable pub leads : View → Bytes → Option ℕ
leads w name =
    if same_text name (b'.' ∷ [])
    then some w.here.addr
    else if same_text name (b'.' ∷ b'.' ∷ [])
    then some (if w.here.addr == file_root then w.here.addr else parent_of (entry_here w))
    else child_of (lookup_here w true name)

abbrev pub enter_at : Bytes → View → Option ℕ → Outcome
enter_at name w none = refuse fs_name_not_exist w
enter_at name w (some p) = (
  reply reply_ok ∷ text (walked name w.path) ∷ [],
  record w {
    handles = destruction p (construction p (destroy w.here (construction p w.handles)));
    here = record { addr = p; abandoned = false };
    path = walked name w.path;
  },
)

abbrev pub line : Tree → ℕ → Bytes
line t p = if is_branch (t.entry p) then t.name p ++ (b'/' ∷ []) else t.name p

-- Why `mk` refuses a name; a folder has room for 16 entries.
abbrev pub refused_mk : Tree → List ℕ → Bytes → Option ErrorCode
refused_mk t ps name =
    if not (is_legal name)
    then some fs_name_invalid
    else if leb name_length_max (length name)
    then some fs_name_too_long
    else if length ps == 16
    then some fs_capacity_exceeded
    else if is_taken t name ps
    then some fs_name_already_exist
    else none

abbrev pub new_entry : Bool → ℕ → Entry
new_entry true parent = branch parent []
new_entry false parent = leaf []

abbrev pub grown : Tree → ℕ → Bytes → Bool → Tree
grown t a name is_folder =
    let e = t.entry a in
    record {
      name = update t.name t.next name;
      entry =
          update (update t.entry a (some (branch (parent_of e) (children e ++ (t.next ∷ [])))))
            t.next (some (new_entry is_folder a));
      next = t.next + 1;
    }

abbrev pub make_in : Bool → Bytes → View → Option ErrorCode → Outcome
make_in is_folder name w (some e) = refuse e w
make_in is_folder name w none =
    (reply reply_ok ∷ [], record w { tree = grown w.tree w.here.addr name is_folder })

abbrev pub shrunk : Tree → ℕ → ℕ → Tree
shrunk t a i =
    let e = t.entry a in
    record t { entry = update t.entry a (some (branch (parent_of e) (remove_at i (children e)))) }

-- An entry with an open handle stays.
abbrev pub drop_child : View → ℕ → Option ℕ → Outcome
drop_child w i (some n) = refuse fs_busy_handle w
drop_child w i none = (reply reply_ok ∷ [], record w { tree = shrunk w.tree w.here.addr i })

abbrev pub remove_from : View → Option (ℕ × ℕ) → Outcome
remove_from w none = refuse fs_name_not_exist w
remove_from w (some (i, p)) = drop_child w i (lookup (p % 2 ^ 32) w.handles)

abbrev pub touched : View → ℕ → View
touched w p = record w { handles = destruction p (construction p w.handles) }

abbrev pub read_from : View → Option (ℕ × ℕ) → Outcome
read_from w none = refuse fs_name_not_exist w
read_from w (some (i, p)) = (reply reply_ok ∷ text (text_of (w.tree.entry p)) ∷ [], touched w p)

-- A text ends at its first NUL. A file that grows takes new blocks.
abbrev pub filled : Tree → ℕ → Bytes → Tree
filled t p bytes = record t {
  entry = update t.entry p (some (leaf bytes));
  next = t.next + (blocks_for (length bytes) - blocks_for (length (text_of (t.entry p))));
}

abbrev pub write_to : (Bytes → Bytes) → View → Option (ℕ × ℕ) → Outcome
write_to change w none = refuse fs_name_not_exist w
write_to change w (some (i, p)) =
    let new = c_str (change (text_of (w.tree.entry p))) in
    let w' = touched w p in (reply reply_ok ∷ [], record w' { tree = filled w.tree p new })

-- The root folder alone; it has no name, and the numbers of the reserved blocks are in use.
abbrev pub root_tree : Tree
root_tree = record {
  name = λ a. [];
  entry = update (λ a. none) file_root (some (branch 0 []));
  next = reserved_blocks;
}

-- The answer to a request, and the view behind it.
abbrev pub answer : Request → View → Outcome
answer (cd name) w = enter_at name w (leads w (c_str name))
answer ls w =
    let lines = map (line w.tree) (children (entry_here w)) in
    (reply reply_ok ∷ number (length lines % 2 ^ 32) ∷ map text lines, w)
answer (mk is_folder name) w =
    make_in is_folder (c_str name) w (refused_mk w.tree (children (entry_here w)) (c_str name))
answer (rm is_folder name) w = remove_from w (lookup_here w is_folder (c_str name))
answer (cat name) w = read_from w (lookup_here w false (c_str name))
answer (write name bytes) w = write_to (λ old. bytes) w (lookup_here w false (c_str name))
answer (insert_at name pos bytes) w =
    write_to (spliced pos bytes) w (lookup_here w false (c_str name))
answer (delete_at name pos len) w = write_to (cut_out pos len) w (lookup_here w false (c_str name))
answer format_disk w = (reply reply_ok ∷ [], record w { tree = root_tree })
answer unknown w = (reply reply_unknown_error ∷ [], w)

-- A sequence of requests.
unfoldable pub answers : List Request → View → List (List Message) × View
answers [] w = ([], w)
answers (r ∷ rs) w =
    let (replies, w1) = answer r w in let (rest, w2) = answers rs w1 in (replies ∷ rest, w2)
