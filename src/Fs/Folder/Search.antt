-- ===== src/Fs/Folder/Search.antt =====
-- `list`, `open` and `open_folder` of src/fs.h on a folder that lies well on the disk: no
-- undefined behaviour, the loops see exactly the folder's children, in their order.
use coursework_file_system.Prelude.{
  ℕ, ◌+◌, ◌≡◌, refl, Bool, true, false, Option, none, some, List, [], ◌∷◌, map, length,
  if◌then◌else◌, Bool-cases, inl, inr, ◌==◌,
}
use coursework_file_system.Bytes.{Bytes}
use coursework_file_system.Run.{Run, done, thrown, fs_name_not_exist}
use coursework_file_system.CString.{same_text}
use coursework_file_system.Node.{DirectoryNode}
use coursework_file_system.Disk.{Disk}
use coursework_file_system.Fs.{FileSystem, file_root}
use coursework_file_system.Fs.Handle.{construction}
use coursework_file_system.Fs.Mounted.{mounted, read_node-done}
use coursework_file_system.Fs.Folder.{
  find_child, opened, is_child, list, list_from, entry_text, open_file, open_folder, new_handle,
}
use coursework_file_system.Fs.Folder.Layout.{Nodes, Children, FolderAt}

-- The first child that passes a test, with its index and address.
unfoldable pub search : (DirectoryNode → Bool) → Nodes → ℕ → Option (ℕ × ℕ)
search test [] i = none
search test ((p, child) ∷ cs) i = if test child then some (i, p) else search test cs (i + 1)

module _ (d : Disk) (max : ℕ) (counts : List (ℕ × ℕ)) where
  -- A handle on `addr` is returned, and counted.
  abbrev pub handle_on : ℕ → Run FileSystem ℕ
  handle_on addr = done addr (mounted d max (construction addr counts))

  -- A handle on the child that was found, or ERROR_FS_NAME_NOT_EXIST and no change.
  abbrev pub handle_on_found : Option (ℕ × ℕ) → Run FileSystem ℕ
  handle_on_found none = thrown fs_name_not_exist (mounted d max counts)
  handle_on_found (some (i, p)) = handle_on p

  opened_lem :
      (found : Option (ℕ × ℕ)) → opened found (mounted d max counts) ≡ handle_on_found found
  unfolding opened
  opened_lem none = refl
  opened_lem (some (i, p)) = refl

  list_from-Children :
      (node : DirectoryNode) (i : ℕ) (cs : Nodes)
      → Children d node i cs
      → list_from node (length cs) i (mounted d max counts)
        ≡ done (map (λ c. entry_text c.1) cs) (mounted d max counts)
  unfolding list_from
  list_from-Children node i [] h = refl
  list_from-Children node i ((p, child) ∷ cs) h =
      rw (h.0, read_node-done d max counts h.1, list_from-Children node (i + 1) cs h.2)

  pub find_child-Children :
      (test : DirectoryNode → Bool) (node : DirectoryNode) (i : ℕ) (cs : Nodes)
      → Children d node i cs
      → find_child test node (length cs) i (mounted d max counts)
        ≡ done (search test cs i) (mounted d max counts)
  unfolding find_child search
  find_child-Children test node i [] h = refl
  find_child-Children test node i ((p, child) ∷ cs) h =
      rw (h.0, read_node-done d max counts h.1)
        (elim (Bool-cases (test child)) [
          | inl hit ↦ rw hit
          | inr miss ↦ rw miss (find_child-Children test node (i + 1) cs h.2)
        ])

  module _ (first addr : ℕ) (node : DirectoryNode) (cs : Nodes)
      (at : FolderAt d first addr node cs) where
    pub scan-FolderAt :
        (test : DirectoryNode → Bool)
        → find_child test node node.header.entries 0 (mounted d max counts)
          ≡ done (search test cs 0) (mounted d max counts)
    scan-FolderAt test = simp at.count (find_child-Children test node 0 cs at.children)

    -- In a folder as `FolderAt` says, `list` returns the children's names in order, a slash behind those of folders.
    pub list-FolderAt :
        list addr (mounted d max counts)
        ≡ done (map (λ c. entry_text c.1) cs) (mounted d max counts)
    unfolding list
    list-FolderAt =
        rw (read_node-done d max counts at.holds, at.count)
          (list_from-Children node 0 cs at.children)

    -- In a folder as `FolderAt` says, `open` returns and counts a handle on the first file of that name, or throws
    -- ERROR_FS_NAME_NOT_EXIST and changes nothing.
    pub open_file-FolderAt :
        (name : Bytes)
        → open_file addr name (mounted d max counts)
          ≡ handle_on_found (search (is_child false name) cs 0)
    unfolding open_file
    open_file-FolderAt name =
        rw (read_node-done d max counts at.holds, scan-FolderAt (is_child false name))
          (opened_lem (search (is_child false name) cs 0))

    -- In a folder as `FolderAt` says, `open_folder` returns and counts a handle on the folder itself for ".", on the parent for
    -- ".." (at the root: on the root), and else on the first folder of that name; if there is none
    -- it throws ERROR_FS_NAME_NOT_EXIST and changes nothing.
    pub open_folder-FolderAt :
        (name : Bytes)
        → open_folder addr name (mounted d max counts) ≡ (
            if same_text name (b'.' ∷ [])
            then handle_on addr
            else if same_text name (b'.' ∷ b'.' ∷ [])
            then handle_on (if addr == file_root then addr else node.header.parent_addr)
            else handle_on_found (search (is_child true name) cs 0))
    unfolding open_folder new_handle
    open_folder-FolderAt name = elim (Bool-cases (same_text name (b'.' ∷ []))) [
      | inl dot ↦ rw dot
      | inr other ↦
          rw (other, read_node-done d max counts at.holds)
            (elim (Bool-cases (same_text name (b'.' ∷ b'.' ∷ []))) [
              | inl up ↦ rw up
              | inr down ↦
                  rw (down, scan-FolderAt (is_child true name))
                    (opened_lem (search (is_child true name) cs 0))
            ])
    ]
