-- ===== src/Server/Write.antt =====
-- What `serve_client` of src/fs_server.h answers to `w` and then to `cat` for one file of the
-- current folder.
use coursework_file_system.Prelude.{
  ℕ, ◌+◌, ◌<◌, ◌≤◌, ◌≡◌, ◌≢◌, refl, ◌∙◌, false, some, List, [], ◌∷◌, length, All, arith,
}
use coursework_file_system.Bytes.{Bytes}
use coursework_file_system.Run.{done}
use coursework_file_system.CString.{c_str}
use coursework_file_system.Node.{DirectoryNode, folder_bit}
use coursework_file_system.Disk.{Disk, sectors}
use coursework_file_system.Fs.{Env}
use coursework_file_system.Fs.Mounted.{mounted}
use coursework_file_system.Fs.Handle.{Handle, construction, destroy}
use coursework_file_system.Fs.File.{Stack}
use coursework_file_system.Fs.File.RoundTrip.{FileAt, Written, added, write_all-FileAt}
use coursework_file_system.Fs.Folder.{is_child}
use coursework_file_system.Fs.Folder.Layout.{Nodes, Apart, FolderAt}
use coursework_file_system.Fs.Folder.Search.{search, open_file-FolderAt}
use coursework_file_system.Fs.Folder.Rewrite.{replaced, search-replaced, FolderAt-replaced}
use coursework_file_system.Protocol.{reply_ok}
use coursework_file_system.Server.{Session, reply, text, serve, cat, write}
use coursework_file_system.Server.Cat.{serve_cat-FileHolds}

-- The file at `p` is a child of the folder at `addr`, and its blocks are apart from the folder and
-- from its other children.
pub record OwnBlocks (addr p : ℕ) (file : DirectoryNode) (ext : ℕ → ℕ) (cs : Nodes) : Type 0 where
  pub not_folder : addr ≢ p
  pub folder : (i : ℕ) → i < file.header.entries → addr ≢ ext i
  pub siblings : All (λ c. c.0 ≢ p → (i : ℕ) → i < file.header.entries → c.0 ≢ ext i) cs

is_child-same :
    (file new : DirectoryNode) (name : Bytes)
    → new.name ≡ file.name
    → new.attrib_bits ≡ file.attrib_bits
    → is_child false name new ≡ is_child false name file
unfolding folder_bit
is_child-same file new name same_name same_bits = rw (same_name, same_bits) refl

All-both :
    (P Q R : ℕ × DirectoryNode → Type 0) (cs : Nodes)
    → ((c : ℕ × DirectoryNode) → P c → Q c → R c)
    → All P cs
    → All Q cs
    → All R cs
All-both P Q R [] f p q = tt
All-both P Q R (c ∷ cs) f p q = (f c p.0 q.0, All-both P Q R cs f p.1 q.1)

module _ (d : Disk) (max first count addr p : ℕ) (folder file : DirectoryNode) (cs : Nodes)
    (ext : ℕ → ℕ) (at : FolderAt d first addr folder cs) (own : OwnBlocks addr p file ext cs) where
  -- The folder after a `write_all` to its file.
  FolderAt-Written :
      {d' : Disk} {file' : DirectoryNode} {ext' : ℕ → ℕ} {bytes : Bytes}
      → Written d d' first count p file file' ext ext' bytes
      → FolderAt d' (first + added file (length bytes)) addr folder (replaced p file' cs)
  FolderAt-Written {d'} {file'} w =
      FolderAt-replaced d d' p file' w.description w.content.holds at (omega arith)
        (w.spared addr at.below at.not_root own.not_folder own.folder)
        (All-both (Apart first addr)
          (λ c. c.0 ≢ p → (i : ℕ) → i < file.header.entries → c.0 ≢ ext i)
          (λ c. c.0 ≢ p → d'.sector c.0 ≡ d.sector c.0) cs
          (λ c h ne other. w.spared c.0 h.0 h.2 other (ne other)) at.apart own.siblings)

module _ (d : Disk) (max : ℕ) (counts : List (ℕ × ℕ)) (first count p : ℕ)
    (folder file : DirectoryNode) (cs : Nodes) (ext : ℕ → ℕ) (current : Handle)
    (at : FolderAt d first current.addr folder cs)
    (own : OwnBlocks current.addr p file ext cs) where
  -- In a folder as `FolderAt` says, with a file as `FileAt` says whose blocks are its own: `w` with a
  -- text of 1 to 2048 characters is answered with OK if the pool keeps a free block behind those that
  -- the file grows by and the disk has the blocks, and `cat` of that name is then answered with OK
  -- and exactly that text. The buffer has 256 bytes.
  pub serve_cat-write :
      (env : Env) (stack : Stack) (path name bytes : Bytes) (i : ℕ)
      → FileAt d first count p file ext
      → search (is_child false (c_str name)) cs 0 ≡ some (i, p)
      → length stack ≡ 0x100
      → 0 < length (c_str bytes)
      → length (c_str bytes) ≤ 2048
      → added file (length (c_str bytes)) < count
      → first + added file (length (c_str bytes)) ≤ sectors d.description
      → (s1 : Session) × (s2 : Session) × (serve env stack
            (write name bytes)
            (record { fs = mounted d max counts; current_folder = current; path = path })
          ≡ done (reply reply_ok ∷ []) s1)
        × (serve env stack (cat name) s1 ≡ done (reply reply_ok ∷ text (c_str bytes) ∷ []) s2)
  unfolding serve
  serve_cat-write env stack path name bytes i there found buffer nonempty small more room =
      let opened = construction p counts in
      let closed = destroy (record { addr = p; abandoned = false }) opened in
      let (d', file', ext', run, w) =
        write_all-FileAt d max opened first count p file ext stack (c_str bytes) there buffer
          nonempty small more room in
      let again =
        search-replaced d p file file' there.holds (is_child false (c_str name)) folder 0 0 cs
          (is_child-same file file' (c_str name) w.name w.attrib_bits) at.children
        ∙ found in
      (
        record { fs = mounted d' max closed; current_folder = current; path = path },
        record {
          fs =
              mounted d' max
                (destroy (record { addr = p; abandoned = false }) (construction p closed));
          current_folder = current;
          path = path;
        },
        rw
            (
              open_file-FolderAt d max counts first current.addr folder cs at (c_str name),
              found,
              run,
            )
            refl,
        serve_cat-FileHolds d' max closed (first + added file (length (c_str bytes))) folder
            (replaced p file' cs) current
            (FolderAt-Written d max first count current.addr p folder file cs ext at own w) env
            stack path name (c_str bytes) i p file' again w.content,
      )
