-- ===== src/Fs/Folder/Remove.antt =====
-- `remove` of src/fs.h on a folder that lies well on the disk.
use coursework_file_system.Prelude.{
  ℕ, ◌+◌, ◌%◌, ◌^◌, ◌<◌, ◌≤◌, ◌≡◌, ◌≢◌, refl, sym, Bool, none, some, List, [], ◌∷◌, length,
  All-mono, arith, ==_ne, leb-true,
}
use coursework_file_system.Bytes.{Bytes}
use coursework_file_system.Run.{done}
use coursework_file_system.Table.{lookup}
use coursework_file_system.Node.{DirectoryNode, DirectoryFits, IsWord}
use coursework_file_system.Node.Codec.{encode_directory}
use coursework_file_system.Disk.{Disk}
use coursework_file_system.DiskView.{stored}
use coursework_file_system.Allocator.{delete_block}
use coursework_file_system.Allocator.Free.{Free, Free-stored_ne}
use coursework_file_system.Fs.{alloc_root, on_allocator}
use coursework_file_system.Fs.Mounted.{mounted, Holds-stored, read_node-done, write_node-done}
use coursework_file_system.Fs.Folder.{is_child, remove, remove_found, remove_pointer}
use coursework_file_system.Fs.Folder.Layout.{Nodes, Apart, FolderAt}
use coursework_file_system.Fs.Folder.Search.{search, scan-FolderAt}
use coursework_file_system.Fs.Folder.Gap.{
  close_gap_before, close_gap_after, length-close_gap, All-close_gap, remove_at, length-remove_at,
  All-remove_at, Children-remove_at,
}

pub search-lt :
    (test : DirectoryNode → Bool) (cs : Nodes) (k i p : ℕ)
    → search test cs k ≡ some (i, p)
    → (k ≤ i) × (i < k + length cs)
unfolding search
search-lt test [] k i p h = cc
search-lt test ((q, c) ∷ cs) k i p h = ground (arith, search-lt test cs (k + 1) i p)

module _ (d : Disk) (first addr : ℕ) (node : DirectoryNode) (cs : Nodes)
    (at : FolderAt d first addr node cs) (i : ℕ) (inside : i < length cs) where
  abbrev without : DirectoryNode
  without = remove_pointer node i

  abbrev after : Disk
  after = stored d addr (encode_directory without)

  in_words : node.header.entries ≤ length node.data_words
  in_words = omega (arith, at.count, at.small, at.holds.fits.words)

  without-DirectoryFits : DirectoryFits without
  without-DirectoryFits = ground (
    arith,
    at.count,
    length-close_gap node.data_words i node.header.entries in_words (omega (arith, at.count)),
    All-close_gap node.data_words i node.header.entries in_words (omega (arith, at.count)) IsWord
        at.holds.fits.in_words,
  )

  FolderAt-without : FolderAt after first addr without (remove_at i cs)
  FolderAt-without = record {
    holds = Holds-stored d addr without at.holds.ready at.holds.valid without-DirectoryFits;
    below = at.below;
    not_root = at.not_root;
    count = omega (arith, at.count, length-remove_at i cs inside);
    small = omega (arith, at.small, length-remove_at i cs inside);
    children =
        Children-remove_at d after node without refl i 0 cs inside
          (All-mono (Apart first addr) (λ c. after.sector c.0 ≡ d.sector c.0) cs
            (λ c h. rw (==_ne c.0 addr h.1)) at.apart)
          (λ j lt.
            close_gap_before node.data_words i node.header.entries in_words
              (omega (arith, at.count)) j (omega arith))
          (λ j lo hi.
            close_gap_after node.data_words i node.header.entries in_words (omega (arith, at.count))
              j (omega arith) (omega (arith, at.count)))
          at.children;
    apart = All-remove_at (Apart first addr) i cs at.apart;
  }

  remove_found-done :
      (max : ℕ) (counts : List (ℕ × ℕ)) (p : ℕ)
      → lookup (p % 2 ^ 32) counts ≡ none
      → remove_found addr node (some (i, p)) (mounted d max counts)
        ≡ done tt (mounted after max counts)
  unfolding remove_found on_allocator delete_block
  remove_found-done max counts p idle = rw (
    idle,
    leb-true node.header.entries 16 (omega (arith, at.count, at.small)),
    write_node-done d max counts addr without at.holds.ready at.holds.valid without-DirectoryFits,
  )

-- In a folder as `FolderAt` says, `remove` of the first child with the name and the type succeeds
-- if the table has no handle on it: the folder loses that child and keeps the
-- others in their order, only the folder's own sector is written, and the geometry stays. No block
-- is given back.
pub remove-FolderAt :
    (d : Disk) (max : ℕ) (counts : List (ℕ × ℕ)) (first count addr : ℕ) (node : DirectoryNode)
    (cs : Nodes) (name : Bytes) (is_folder : Bool) (i p : ℕ)
    → FolderAt d first addr node cs
    → Free d alloc_root first count
    → search (is_child is_folder name) cs 0 ≡ some (i, p)
    → lookup (p % 2 ^ 32) counts ≡ none
    → (d' : Disk) × (remove addr name is_folder (mounted d max counts)
        ≡ done tt (mounted d' max counts))
      × FolderAt d' first addr (remove_pointer node i) (remove_at i cs)
      × Free d' alloc_root first count
      × ((a : ℕ) → a ≢ addr → d'.sector a ≡ d.sector a)
      × (d'.description ≡ d.description)
unfolding remove
remove-FolderAt d max counts first count addr node cs name is_folder i p at free found idle =
    let inside : i < length cs =
      omega (arith, search-lt (is_child is_folder name) cs 0 i p found) in
    let node' = remove_pointer node i in
    (
      stored d addr (encode_directory node'),
      rw
          (
            read_node-done d max counts at.holds,
            scan-FolderAt d max counts first addr node cs at (is_child is_folder name),
            found,
          )
          (remove_found-done d first addr node cs at i inside max counts p idle),
      FolderAt-without d first addr node cs at i inside,
      Free-stored_ne d alloc_root first count addr (encode_directory node') free
          (λ e. at.not_root (sym e)),
      λ a ne. rw (==_ne a addr ne),
      refl,
    )
