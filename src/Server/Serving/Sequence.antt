-- ===== src/Server/Serving/Sequence.antt =====
-- The loop of `serve_client` of src/fs_server.h over the requests that a client sends.
use coursework_file_system.Prelude.{
  ℕ, ◌+◌, ◌-◌, ◌*◌, ◌<◌, ◌≤◌, ◌≡◌, refl, sym, ap, subst, subst₂, false, none, some, List, [], ◌∷◌,
  length, arith,
}
use coursework_file_system.Bytes.{Bytes}
use coursework_file_system.Run.{done, Cmd, pure, ◌>>=◌}
use coursework_file_system.Node.{AllocatorFits}
use coursework_file_system.Disk.{Disk, sectors, update_self}
use coursework_file_system.Fs.{Env, file_root, reserved_blocks}
use coursework_file_system.Fs.Format.{IsFormatted}
use coursework_file_system.Fs.Handle.{Counts}
use coursework_file_system.Fs.File.{Stack}
use coursework_file_system.Fs.Folder.Child.{EnvFits}
use coursework_file_system.Fs.Volume.{folder}
use coursework_file_system.Fs.Volume.Format.{root_volume, Sound-IsFormatted}
use coursework_file_system.Server.{Session, Message, Request, serve}
use coursework_file_system.Server.Tree.{View, root_tree, answer, answers}
use coursework_file_system.Server.Tree.Names.{
  UniqueNames, root_tree-UniqueNames, answers-UniqueNames,
}
use coursework_file_system.Server.Serving.{view_of, session, Shows, Answered}
use coursework_file_system.Server.Serving.Shown.{tree-root}
use coursework_file_system.Server.Serving.Change.{Fits, Answered-serve}

-- The `while` loop of `serve_client`, for as long as requests come.
unfoldable pub serve_all : Env → Stack → List Request → Cmd Session (List (List Message))
serve_all env stack [] = pure []
serve_all env stack (r ∷ rs) = do
  replies ← serve env stack r
  rest ← serve_all env stack rs
  pure (replies ∷ rest)

abbrev pub FitsAll : List Request → View → Type 0
FitsAll [] w = Unit {0}
FitsAll (r ∷ rs) w = Fits r w × FitsAll rs (answer r w).1

-- The root folder of a formatted disk as the current one.
abbrev pub root_view : Counts → Bytes → View
root_view counts path = record {
  tree = root_tree;
  handles = counts;
  here = record { addr = file_root; abandoned = false };
  path = path;
}

module _ (env : Env) (ef : EnvFits env) (rf : AllocatorFits env.root_memory) (stack : Stack)
    (buffer : length stack ≡ 0x100) where
  pub serve-Shows :
      (count : ℕ) (s : Session) (w : View) (r : Request)
      → Shows count s w
      → 8 < count
      → Fits r w
      → Answered count (serve env stack r s) (answer r w)
  serve-Shows count s w r sh more fits =
      let shown : view_of sh.first sh.volume w.handles w.here w.path ≡ w =
        ap (λ t. record w { tree = t }) sh.tree in
      subst₂ (λ s1 w1. Answered count (serve env stack r s1) (answer r w1)) (sym sh.session) shown
        (Answered-serve env ef stack buffer rf sh.disk sh.max sh.size w.handles w.here w.path
          sh.first count more sh.volume sh.sound sh.here_children sh.here r
          (subst (Fits r) (sym shown) fits))

  serve_all-Shows :
      (rs : List Request) (count : ℕ) (s : Session) (w : View)
      → Shows count s w
      → 8 * length rs < count
      → FitsAll rs w
      → (s' : Session) × (left : ℕ) × (serve_all env stack rs s ≡ done (answers rs w).0 s')
        × (count ≤ left + 8 * length rs)
        × Shows left s' (answers rs w).1
  unfolding serve_all answers
  serve_all-Shows [] count s w sh more fits = (s, count, refl, omega arith, sh)
  serve_all-Shows (r ∷ rs) count s w sh more fits =
      let a = serve-Shows count s w r sh (omega (arith, more)) fits.0 in
      let (s', left, run, spent, shows) =
        serve_all-Shows rs a.left a.next (answer r w).1 a.shows (omega (arith, more, a.spent))
          fits.1 in
      (s', left, rw (a.ends, run) refl, omega (arith, spent, a.spent), shows)

  pub Shows-IsFormatted :
      (d : Disk) (counts : Counts) (path : Bytes)
      → IsFormatted env d
      → reserved_blocks < sectors d.description
      → Shows
          (sectors d.description - reserved_blocks)
          (session d (sectors d.description) (root_view counts path))
          (root_view counts path)
  Shows-IsFormatted d counts path formatted room = record {
    disk = d;
    first = reserved_blocks;
    volume = root_volume env;
    here_children = [];
    sound = Sound-IsFormatted env d formatted room;
    here = update_self (λ a. none) file_root (some (folder []));
    tree = tree-root env ef;
    max = sectors d.description;
    size = refl;
    session = refl;
  }

  pub serve_all-IsFormatted :
      (d : Disk) (counts : Counts) (path : Bytes) (rs : List Request)
      → IsFormatted env d
      → reserved_blocks + 8 * length rs < sectors d.description
      → FitsAll rs (root_view counts path)
      → (s' : Session) × (left : ℕ) × (serve_all env stack rs
            (session d (sectors d.description) (root_view counts path))
          ≡ done (answers rs (root_view counts path)).0 s')
        × Shows left s' (answers rs (root_view counts path)).1
  serve_all-IsFormatted d counts path rs formatted room fits =
      let (s', left, run, spent, shows) =
        serve_all-Shows rs (sectors d.description - reserved_blocks)
          (session d (sectors d.description) (root_view counts path)) (root_view counts path)
          (Shows-IsFormatted d counts path formatted (omega (arith, room))) (omega (arith, room))
          fits in
      (s', left, run, shows)

  -- From the root folder of a formatted disk with more than 8 blocks for each request behind the
  -- reserved ones, after any sequence of requests that respect `Fits` (1 to 2048 characters in a
  -- file that is written, and `format` in the root folder only) no folder on the disk has two
  -- entries of one name, be they files or folders. The contents of memory and the clock fit their
  -- fields, and the buffer has 256 bytes.
  pub serve_all-UniqueNames :
      (d : Disk) (counts : Counts) (path : Bytes) (rs : List Request)
      → IsFormatted env d
      → reserved_blocks + 8 * length rs < sectors d.description
      → FitsAll rs (root_view counts path)
      → (replies : List (List Message)) × (s' : Session) × (left : ℕ) × (w' : View) × (serve_all env
            stack rs
            (session d (sectors d.description) (root_view counts path))
          ≡ done replies s')
        × Shows left s' w'
        × UniqueNames w'.tree
  serve_all-UniqueNames d counts path rs formatted room fits =
      let (s', left, run, shows) = serve_all-IsFormatted d counts path rs formatted room fits in
      let out = answers rs (root_view counts path) in
      (
        out.0,
        s',
        left,
        out.1,
        run,
        shows,
        answers-UniqueNames rs (root_view counts path) root_tree-UniqueNames,
      )
