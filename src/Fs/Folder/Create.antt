-- ===== src/Fs/Folder/Create.antt =====
-- `create` of src/fs.h on a folder that lies well on the disk.
use coursework_file_system.Prelude.{
  ℕ, ◌+◌, ◌-◌, ◌^◌, ◌<◌, ◌≤◌, ◌≡◌, ◌≢◌, refl, ap, sym, ◌∙◌, Bool, true, none, some, List, [], ◌∷◌,
  ◌++◌, false, length, length-append, get_elem?-set_self, get_elem?-some, leb-false,
  get_elem?-set_ne, All-mono, All-append, arith, ==_ne,
}
use coursework_file_system.Bytes.{Bytes}
use coursework_file_system.Run.{done}
use coursework_file_system.CString.{c_str, same_text}
use coursework_file_system.CString.Laws.{IsText}
use coursework_file_system.Node.{
  DirectoryNode, DirectoryFits, file_pointer, folder_bit, name_length_max,
}
use coursework_file_system.Node.Codec.{encode_directory}
use coursework_file_system.Disk.{Disk, sectors}
use coursework_file_system.DiskView.{stored, block_size}
use coursework_file_system.Allocator.{new_block}
use coursework_file_system.Allocator.Leaf.{idle}
use coursework_file_system.Allocator.Free.{Free, Free-stored_ne, SameBut, new_block-Free}
use coursework_file_system.Fs.{Env, alloc_root, reserved_blocks, is_name_valid}
use coursework_file_system.Fs.Mounted.{
  mounted, Holds, Holds-frame, Holds-stored, read_node-done, write_node-done, new_block-mounted,
}
use coursework_file_system.Fs.Folder.{append_pointer, add_child, create_new, create}
use coursework_file_system.Fs.Folder.Layout.{Nodes, Children, Children-frame, Apart, FolderAt}
use coursework_file_system.Fs.Folder.Search.{search, scan-FolderAt}
use coursework_file_system.Fs.Folder.Child.{
  EnvFits, IsChild, IsChild-IsChild, append_pointer-DirectoryFits,
}

abbrev pub has_name : Bytes → DirectoryNode → Bool
has_name name child = same_text (c_str child.name) name

Children-append :
    (d : Disk) (node : DirectoryNode) (i : ℕ) (cs : Nodes) (p : ℕ) (child : DirectoryNode)
    → Children d node i cs
    → file_pointer node (i + length cs) ≡ some p
    → Holds d p child
    → Children d node i (cs ++ ((p, child) ∷ []))
Children-append d node i [] p child h here holds =
    (ap (file_pointer node) (omega arith) ∙ here, holds, tt)
Children-append d node i ((q, c) ∷ cs) p child h here holds = (
  h.0,
  h.1,
  Children-append d node (i + 1) cs p child h.2 (ap (file_pointer node) (omega arith) ∙ here) holds,
)

-- The disk after the child and then the folder's node are written, `d1` being the disk that the
-- allocator left.
abbrev written : Disk → ℕ → DirectoryNode → ℕ → DirectoryNode → Disk
written d1 block child addr node =
    stored (stored d1 block (encode_directory child)) addr
      (encode_directory (append_pointer node block))

sector-written :
    (d1 : Disk) (block addr : ℕ) (child node : DirectoryNode) (a : ℕ)
    → a ≢ block
    → a ≢ addr
    → (written d1 block child addr node).sector a ≡ d1.sector a
sector-written d1 block addr child node a p q = rw (==_ne a addr q, ==_ne a block p)

-- A folder, room in it and in the pool of blocks.
pub record HasRoom (d : Disk) (first count addr : ℕ) (node : DirectoryNode) (cs : Nodes)
    : Type 0 where
  pub at : FolderAt d first addr node cs
  pub free : Free d alloc_root first count
  pub more : 1 < count
  pub on_disk : first < sectors d.description
  pub reserved : reserved_blocks ≤ first
  pub below_capacity : node.header.entries ≢ node.header.entries_capacity
  pub room : length cs < 16

module _ (d d1 : Disk) (first count addr : ℕ) (node : DirectoryNode) (cs : Nodes)
    (r : HasRoom d first count addr node cs) (same : SameBut alloc_root d d1)
    (child : DirectoryNode) (fits : DirectoryFits child) where
  ready1 : d1.description.bytes_per_sector ≡ block_size
  ready1 = rw same.description r.at.holds.ready

  valid1 : (a : ℕ) → a < sectors d.description → a < sectors d1.description
  valid1 a h = rw same.description h

  word : first < 256 ^ 8
  word = omega (arith, r.free.in_range, r.more)

  entries-lt : node.header.entries < length node.data_words
  entries-lt = omega (arith, r.at.count, r.room, r.at.holds.fits.words)

  pointer-new : file_pointer (append_pointer node first) (0 + length cs) ≡ some first
  pointer-new =
      ap (file_pointer (append_pointer node first)) (omega (arith, r.at.count))
      ∙ get_elem?-set_self node.data_words node.header.entries first entries-lt

  pointer-old :
      (j : ℕ)
      → 0 ≤ j
      → j < 0 + length cs
      → file_pointer (append_pointer node first) j ≡ file_pointer node j
  pointer-old j lo hi = get_elem?-set_ne node.data_words first (omega (arith, r.at.count))

  kept :
      (c : ℕ × DirectoryNode)
      → Apart first addr c
      → (written d1 first child addr node).sector c.0 ≡ d.sector c.0
  kept (p, c) (lt, ne, root) =
      sector-written d1 first addr child node p (omega arith) ne ∙ same.sector p root

  FolderAt-written :
      FolderAt
        (written d1 first child addr node)
        (first + 1)
        addr
        (append_pointer node first)
        (cs ++ ((first, child) ∷ []))
  FolderAt-written = record {
    holds =
        Holds-stored (stored d1 first (encode_directory child)) addr (append_pointer node first)
          ready1 (valid1 addr r.at.holds.valid)
          (append_pointer-DirectoryFits node first r.at.holds.fits word);
    below = omega (arith, r.at.below);
    not_root = r.at.not_root;
    count = omega (arith, r.at.count, r.room, length-append cs ((first, child) ∷ []));
    small = omega (arith, r.room, length-append cs ((first, child) ∷ []));
    children =
        Children-append (written d1 first child addr node) (append_pointer node first) 0 cs first
          child
          (Children-frame d (written d1 first child addr node) node (append_pointer node first) 0 cs
            same.description
            (All-mono (Apart first addr)
              (λ c. (written d1 first child addr node).sector c.0 ≡ d.sector c.0) cs kept
              r.at.apart)
            pointer-old r.at.children)
          pointer-new
          (Holds-frame (Holds-stored d1 first child ready1 (valid1 first r.on_disk) fits) refl
            (rw (==_ne first addr (omega (arith, r.at.below)))));
    apart =
        All-append (Apart (first + 1) addr) cs ((first, child) ∷ [])
          (All-mono (Apart first addr) (Apart (first + 1) addr) cs (λ c h. (omega arith, h.1, h.2))
            r.at.apart)
          ((omega arith, omega (arith, r.at.below), omega (arith, r.reserved)), tt);
  }

  add_child-done :
      (max : ℕ) (counts : List (ℕ × ℕ)) (env : Env) (name : Bytes) (is_folder : Bool)
      → IsChild env addr name is_folder child
      → new_block (idle d alloc_root) ≡ done first (idle d1 alloc_root)
      → add_child env addr node name is_folder (mounted d max counts)
        ≡ done tt (mounted (written d1 first child addr node) max counts)
  unfolding add_child
  add_child-done max counts env name is_folder is call =
      let (old, in_bounds) = get_elem?-some node.data_words node.header.entries entries-lt in
      rw (
        is.made,
        new_block-mounted d max counts d1 first call,
        in_bounds,
        write_node-done d1 max counts first child ready1 (valid1 first r.on_disk) fits,
        write_node-done (stored d1 first (encode_directory child)) max counts addr
            (append_pointer node first) ready1 (valid1 addr r.at.holds.valid)
            (append_pointer-DirectoryFits node first r.at.holds.fits word),
      )

-- What a successful `create` leaves: the folder with one more child at its end, whose node has the
-- name, the type, no entries and the folder as parent; one block fewer in the pool; and every
-- other sector as it was.
pub record Created (d d' : Disk) (first count addr : ℕ) (node : DirectoryNode) (cs : Nodes)
    (name : Bytes) (is_folder : Bool) (child : DirectoryNode) : Type 0 where
  pub folder :
      FolderAt d' (first + 1) addr (append_pointer node first) (cs ++ ((first, child) ∷ []))
  pub named : c_str child.name ≡ name
  pub typed : folder_bit child ≡ is_folder
  pub empty : child.header.entries ≡ 0
  pub parent : child.header.parent_addr ≡ addr
  pub capacity : is_folder ≡ true → child.header.entries_capacity ≡ 16
  pub blank : is_folder ≡ false → child.size_blocks ≡ 0
  pub free : Free d' alloc_root (first + 1) (count - 1)
  pub description : d'.description ≡ d.description
  pub others : (a : ℕ) → a ≢ alloc_root → a ≢ first → a ≢ addr → d'.sector a ≡ d.sector a

-- `create` with a valid name that no child has, in a folder below its capacity and with more than
-- one free block, succeeds with the result `Created` and leaves the open handles alone.
pub create-HasRoom :
    (d : Disk) (max : ℕ) (counts : List (ℕ × ℕ)) (first count addr : ℕ) (node : DirectoryNode)
    (cs : Nodes) (env : Env) (name : Bytes) (is_folder : Bool)
    → HasRoom d first count addr node cs
    → EnvFits env
    → IsText name
    → is_name_valid name ≡ true
    → length name < name_length_max
    → search (has_name name) cs 0 ≡ none
    → (d' : Disk) × (child : DirectoryNode) × (create env addr name is_folder (mounted d max counts)
        ≡ done tt (mounted d' max counts))
      × Created d d' first count addr node cs name is_folder child
unfolding create create_new
create-HasRoom d max counts first count addr node cs env name is_folder r ef text valid short new =
    let (d1, call, free1, same) = new_block-Free d alloc_root first count r.free r.more in
    let (child, is) =
      IsChild-IsChild env addr name is_folder ef text short
        (omega (arith, r.at.below, r.free.in_range)) in
    (
      written d1 first child addr node,
      child,
      rw
          (
            valid,
            leb-false name_length_max (length name) short,
            read_node-done d max counts r.at.holds,
            ==_ne node.header.entries node.header.entries_capacity r.below_capacity,
            scan-FolderAt d max counts first addr node cs r.at (has_name name),
            new,
          )
          (add_child-done d d1 first count addr node cs r same child is.fits max counts env name
            is_folder is call),
      record {
        folder = FolderAt-written d d1 first count addr node cs r same child is.fits;
        named = is.text;
        typed = is.type;
        empty = is.empty;
        description = same.description;
        parent = is.up;
        capacity = is.capacity;
        blank = is.blank;
        free =
            Free-stored_ne (stored d1 first (encode_directory child)) alloc_root (first + 1)
              (count - 1) addr _
              (Free-stored_ne d1 alloc_root (first + 1) (count - 1) first _ free1
                (omega (arith, r.reserved)))
              (λ e. r.at.not_root (sym e));
        others = λ a root block self.
            sector-written d1 first addr child node a block self ∙ same.sector a root;
      },
    )
