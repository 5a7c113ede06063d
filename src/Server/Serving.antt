-- ===== src/Server/Serving.antt =====
-- A client of src/fs_server.h on a sound volume of src/fs.h: what holds between two requests, and
-- that a request keeps it.
pub mod Shown
pub mod Here
pub mod Answer
pub mod Change
pub mod Sequence
use coursework_file_system.Prelude.{
  ℕ, ◌+◌, ◌-◌, ◌<◌, ◌≤◌, ◌≡◌, refl, sym, ap, ◌∙◌, subst, Bool, true, false, Option, none, some,
  List, [], ◌∷◌, length, map, All, arith, Option-cases, Bool-cases, inl, inr,
}
use coursework_file_system.Bytes.{Bytes}
use coursework_file_system.Run.{Run, done, ErrorCode}
use coursework_file_system.CString.{c_str, same_text}
use coursework_file_system.Node.{DirectoryNode, folder_bit}
use coursework_file_system.Disk.{Disk, sectors}
use coursework_file_system.Fs.{Env, file_root}
use coursework_file_system.Fs.Mounted.{mounted, read_node-done}
use coursework_file_system.Fs.Handle.{Handle, Counts}
use coursework_file_system.Fs.File.{Stack, read_all}
use coursework_file_system.Fs.File.Read.{read_all-FileHolds}
use coursework_file_system.Fs.Folder.{is_child}
use coursework_file_system.Fs.Folder.Layout.{FolderAt}
use coursework_file_system.Fs.Folder.Search.{search}
use coursework_file_system.Fs.Volume.{
  Item, folder, file, Volume, view, Known, IsFolder, IsFile, Sound,
}
use coursework_file_system.Server.Tree.{Entry, branch, leaf, Tree, View, Outcome}
use coursework_file_system.Server.{
  Session, Message, Request, cd, ls, mk, rm, cat, write, insert_at, delete_at, format_disk, unknown,
}

-- What a client sees of an entry.
abbrev pub entry_of : DirectoryNode → Option Item → Option Entry
entry_of node none = none
entry_of node (some (folder ps)) = some (branch node.header.parent_addr ps)
entry_of node (some (file ext bytes)) = some (leaf bytes)

abbrev pub tree_of : ℕ → Volume → Tree
tree_of first v = record {
  name = λ a. c_str (v.nodes a).name;
  entry = λ a. entry_of (v.nodes a) (v.items a);
  next = first;
}

abbrev pub view_of : ℕ → Volume → Counts → Handle → Bytes → View
view_of first v counts current path = record {
  tree = tree_of first v;
  handles = counts;
  here = current;
  path = path;
}

abbrev pub session : Disk → ℕ → View → Session
session d max w = record { fs = mounted d max w.handles; current_folder = w.here; path = w.path }

-- Between two requests the session shows `w`: its disk is a sound volume with `count` free blocks
-- and the tree of `w`, and the current folder is a folder of it.
pub record Shows (count : ℕ) (s : Session) (w : View) : Type 0 where
  pub disk : Disk
  pub first : ℕ
  pub volume : Volume
  pub here_children : List ℕ
  pub sound : Sound disk first count volume
  pub here : volume.items w.here.addr ≡ some (folder here_children)
  pub tree : tree_of first volume ≡ w.tree
  pub max : ℕ
  pub size : max ≡ sectors disk.description
  pub session : s ≡ session disk max w

-- The request was answered as `out` says, with no more than eight of the free blocks.
pub record Answered (count : ℕ) (run : Run Session (List Message)) (out : Outcome) : Type 0 where
  pub next : Session
  pub left : ℕ
  pub ends : run ≡ done out.0 next
  pub spent : count ≤ left + 8
  pub shows : Shows left next out.1

pub Answered-done :
    {count left : ℕ} {run : Run Session (List Message)} {expected : Outcome} (out : Outcome)
    (d : Disk) (max first : ℕ) (v : Volume) (ps : List ℕ)
    → expected ≡ out
    → run ≡ done out.0 (session d max out.1)
    → count ≤ left + 8
    → Sound d first left v
    → v.items out.1.here.addr ≡ some (folder ps)
    → tree_of first v ≡ out.1.tree
    → max ≡ sectors d.description
    → Answered count run expected
Answered-done {count} {left} {run} out d max first v ps same ends spent sound here tree size =
    subst (Answered count run) (sym same) (record {
      next = session d max out.1;
      left = left;
      ends = ends;
      spent = spent;
      shows = record {
        disk = d;
        first = first;
        volume = v;
        here_children = ps;
        sound = sound;
        here = here;
        tree = tree;
        max = max;
        size = size;
        session = refl;
      };
    })

-- A child that `search` finds passes the test.
pub search-view :
    (test : DirectoryNode → Bool) (P : ℕ → Type 0) (nodes : ℕ → DirectoryNode) (ps : List ℕ)
    (k i p : ℕ)
    → search test (view nodes ps) k ≡ some (i, p)
    → All P ps
    → (test (nodes p) ≡ true) × P p
unfolding search
search-view test P nodes [] k i p h all = cc
search-view test P nodes (q ∷ ps) k i p h all = elim (Bool-cases (test (nodes q))) [
  | inl hit ↦
      let e : q ≡ p = address (rw hit at h) in
      (subst (λ x. test (nodes x) ≡ true) e hit, subst P e all.0)
  | inr miss ↦ search-view test P nodes ps (k + 1) i p (rw miss at h) all.1
]
  where
    address : {a b c e : ℕ} → ◌≡◌ {A = Option (ℕ × ℕ)} (some (a, b)) (some (c, e)) → b ≡ e
    address h = cc
