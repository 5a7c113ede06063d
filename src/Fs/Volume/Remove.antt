-- ===== src/Fs/Volume/Remove.antt =====
-- The volume of src/fs.h after `remove`.
use coursework_file_system.Prelude.{
  ℕ, zero, suc, ◌<◌, ◌≡◌, ◌≢◌, inl, inr, refl, sym, ap, ◌∙◌, subst, true, Option, some, List, [],
  ◌∷◌, All, All-mono, arith, ℕ_discrete,
}
use coursework_file_system.Bytes.{Bytes}
use coursework_file_system.Node.{DirectoryNode, folder_bit}
use coursework_file_system.Disk.{Disk, sectors, update, update_self, update_ne, update-cases}
use coursework_file_system.Allocator.Free.{Free}
use coursework_file_system.Fs.{alloc_root, file_root}
use coursework_file_system.Fs.Folder.{remove_pointer}
use coursework_file_system.Fs.Folder.Gap.{remove_at, All-remove_at}
use coursework_file_system.Fs.Folder.Layout.{Apart, FolderAt}
use coursework_file_system.Fs.Volume.{
  Item, folder, file, Volume, view, Known, IsFolder, IsFile, Sound,
}
use coursework_file_system.Fs.Volume.Frame.{
  Change, view-update_ne, All-view, FolderAt-Change, IsFile-Change,
}
use coursework_file_system.Fs.Volume.Create.{children_of, folder-ne-file, some-ne-none}

abbrev pub removed : Volume → ℕ → List ℕ → ℕ → Volume
removed v a ps i = record {
  nodes = update v.nodes a (remove_pointer (v.nodes a) i);
  items = update v.items a (some (folder (remove_at i ps)));
}

view-remove_at :
    (nodes : ℕ → DirectoryNode) (i : ℕ) (ps : List ℕ)
    → remove_at i (view nodes ps) ≡ view nodes (remove_at i ps)
view-remove_at nodes i [] = refl
view-remove_at nodes zero (p ∷ ps) = refl
view-remove_at nodes (suc i) (p ∷ ps) = ap (λ l. (p, nodes p) ∷ l) (view-remove_at nodes i ps)

module _ (d d' : Disk) (first count : ℕ) (v : Volume) (sound : Sound d first count v) (a : ℕ)
    (ps : List ℕ) (item : v.items a ≡ some (folder ps)) (i : ℕ)
    (same : d'.description ≡ d.description)
    (at : FolderAt d' first a (remove_pointer (v.nodes a) i) (remove_at i (view v.nodes ps)))
    (free : Free d' alloc_root first count)
    (kept : (s : ℕ) → s ≢ a → d'.sector s ≡ d.sector s) where
  abbrev v' : Volume
  v' = removed v a ps i

  abbrev new : DirectoryNode
  new = remove_pointer (v.nodes a) i

  Change-removed : Change d d' first first v a new
  Change-removed = record {
    description = same;
    more = omega arith;
    here = at.holds;
    kept = λ s low root ne foreign. kept s ne;
  }

  abbrev shrunk : Option Item
  shrunk = some (folder (remove_at i ps))

  Known-removed : (p : ℕ) → Known v p → Known v' p
  Known-removed p (it, h) = elim (ℕ_discrete p a) [
    | yes e ↦ (folder (remove_at i ps), ap v'.items e ∙ update_self v.items a shrunk)
    | no ne ↦ (it, update_ne v.items a shrunk p ne ∙ h)
  ]

  folder-removed :
      (p : ℕ)
      → (qs : List ℕ) × (v.items p ≡ some (folder qs))
      → (qs : List ℕ) × (v'.items p ≡ some (folder qs))
  folder-removed p (qs, h) = elim (ℕ_discrete p a) [
    | yes e ↦ (remove_at i ps, ap v'.items e ∙ update_self v.items a shrunk)
    | no ne ↦ (qs, update_ne v.items a shrunk p ne ∙ h)
  ]

  not_self : All (λ p. p ≢ a) ps
  not_self =
      let f = sound.folders a ps item in
      All-view (Apart first a) (Known v) (λ p. p ≢ a) v.nodes ps (λ p apart known. apart.1)
        f.at.apart f.known

  IsFolder-shrunk : IsFolder d' first v' a (remove_at i ps)
  unfolding folder_bit
  IsFolder-shrunk =
      let f = sound.folders a ps item in
      let node : new ≡ v'.nodes a = sym (update_self v.nodes a new) in
      let shown : remove_at i (view v.nodes ps) ≡ view v'.nodes (remove_at i ps) =
        view-remove_at v.nodes i ps
        ∙ sym (
            view-update_ne v.nodes a new (remove_at i ps)
              (All-remove_at (λ p. p ≢ a) i ps not_self)) in
      record {
        at =
            subst (λ n. FolderAt d' first a n (view v'.nodes (remove_at i ps))) node
              (subst (FolderAt d' first a new) shown at);
        typed = subst (λ n. folder_bit n ≡ true) node f.typed;
        capacity = subst (λ n. n.header.entries_capacity ≡ 16) node f.capacity;
        known =
            All-remove_at (Known v') i ps (All-mono (Known v) (Known v') ps Known-removed f.known);
        parent =
            subst (λ n. (rs : List ℕ) × (v'.items n.header.parent_addr ≡ some (folder rs))) node
              (folder-removed (v.nodes a).header.parent_addr f.parent);
      }

  IsFolder-removed :
      (b : ℕ) (qs : List ℕ) → v'.items b ≡ some (folder qs) → IsFolder d' first v' b qs
  IsFolder-removed b qs h = elim (update-cases v.items a shrunk b (some (folder qs)) h) [
    | inl (e, self) ↦
        subst (λ k. IsFolder d' first v' k qs) (sym e)
          (subst (IsFolder d' first v' a) (ap children_of self) IsFolder-shrunk)
    | inr (ne, old) ↦
        let f = sound.folders b qs old in
        let node : v.nodes b ≡ v'.nodes b = sym (update_ne v.nodes a new b ne) in
        record {
          at =
              subst (λ n. FolderAt d' first b n (view v'.nodes qs)) node
                (FolderAt-Change d d' first first count v sound a new Change-removed b qs ne old);
          typed = subst (λ n. folder_bit n ≡ true) node f.typed;
          capacity = subst (λ n. n.header.entries_capacity ≡ 16) node f.capacity;
          known = All-mono (Known v) (Known v') qs Known-removed f.known;
          parent =
              subst (λ n. (rs : List ℕ) × (v'.items n.header.parent_addr ≡ some (folder rs))) node
                (folder-removed (v.nodes b).header.parent_addr f.parent);
        }
  ]

  -- The files are those of before.
  file-before :
      (b : ℕ) (ext : ℕ → ℕ) (bytes : Bytes)
      → v'.items b ≡ some (file ext bytes)
      → (b ≢ a) × (v.items b ≡ some (file ext bytes))
  file-before b ext bytes h = elim (update-cases v.items a shrunk b (some (file ext bytes)) h) [
    | inl (e, self) ↦ absurd (folder-ne-file self)
    | inr old ↦ old
  ]

  IsFile-removed :
      (b : ℕ) (ext : ℕ → ℕ) (bytes : Bytes)
      → v'.items b ≡ some (file ext bytes)
      → IsFile d' first v'.items b (v'.nodes b) ext bytes
  IsFile-removed b ext bytes h =
      let (ne, old) = file-before b ext bytes h in
      let f = sound.files b ext bytes old in
      subst (λ n. IsFile d' first v'.items b n ext bytes) (sym (update_ne v.nodes a new b ne))
        (IsFile-Change d d' first first count v sound a new Change-removed v'.items b ext bytes ne
          (folder ps, item) old
          (λ j lt.
            update_ne v.items a shrunk (ext j)
              (λ e. some-ne-none (sym item ∙ ap v.items (sym e) ∙ f.unowned j lt))
            ∙ f.unowned j lt))

  -- After a `remove` in a folder of a sound volume the volume is sound, with the same pool.
  pub Sound-removed : Sound d' first count v'
  Sound-removed = record {
    folders = IsFolder-removed;
    files = IsFile-removed;
    separate = λ b c ext ext' bytes bytes' h h' ne j k lt lt'.
        let (ne1, old) = file-before b ext bytes h in
        let (ne2, old') = file-before c ext' bytes' h' in
        sound.separate b c ext ext' bytes bytes' old old' ne j k
          (subst (λ n. j < n.header.entries) (update_ne v.nodes a new b ne1) lt)
          (subst (λ n. k < n.header.entries) (update_ne v.nodes a new c ne2) lt');
    free = free;
    full = sound.full ∙ ap sectors (sym same);
    reserved = sound.reserved;
    root = folder-removed file_root sound.root;
  }
