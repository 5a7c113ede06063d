-- ===== src/Fs/Volume/Write.antt =====
-- The volume of src/fs.h after `write_all`.
use coursework_file_system.Prelude.{
  ℕ, ◌+◌, ◌-◌, ◌<◌, ◌≤◌, ◌≡◌, ◌≢◌, ◌⊎◌, inl, inr, refl, sym, ap, ◌∙◌, subst, true, false, Option,
  none, some, List, [], length, All-mono, arith, ℕ_discrete,
}
use coursework_file_system.Bytes.{Bytes}
use coursework_file_system.Node.{DirectoryNode, folder_bit}
use coursework_file_system.Disk.{Disk, sectors, update, update_self, update_ne, update-cases}
use coursework_file_system.Fs.{file_root}
use coursework_file_system.Fs.Folder.Layout.{FolderAt}
use coursework_file_system.Fs.File.RoundTrip.{FileAt, Written, added}
use coursework_file_system.Fs.Volume.{
  Item, folder, file, Volume, view, Known, IsFolder, IsFile, Sound,
}
use coursework_file_system.Fs.Volume.Frame.{Change, FolderAt-Change, IsFile-Change}
use coursework_file_system.Fs.Volume.Create.{folder-ne-file, some-ne-none}

abbrev pub written : Volume → ℕ → (ℕ → ℕ) → Bytes → DirectoryNode → Volume
written v a ext bytes node = record {
  nodes = update v.nodes a node;
  items = update v.items a (some (file ext bytes));
}

extents_of : (ℕ → ℕ) → Option Item → (ℕ → ℕ)
extents_of ext (some (file ext' bytes)) = ext'
extents_of ext _ = ext

bytes_of : Option Item → Bytes
bytes_of (some (file ext bytes)) = bytes
bytes_of _ = []

-- A file of a sound volume lies on the disk next to the pool.
pub FileAt-Sound :
    {d : Disk} {first count : ℕ} {v : Volume}
    → Sound d first count v
    → (a : ℕ) (ext : ℕ → ℕ) (bytes : Bytes) → v.items a ≡ some (file ext bytes)
    → FileAt d first count a (v.nodes a) ext
FileAt-Sound sound a ext bytes item =
    let f = sound.files a ext bytes item in
    record {
      holds = f.holds;
      extents = f.extents;
      in_node = f.in_node;
      below = f.below;
      not_root = f.not_root;
      free = sound.free;
      reserved = omega (arith, sound.reserved);
    }

module _ (d d' : Disk) (first count : ℕ) (v : Volume) (sound : Sound d first count v) (a : ℕ)
    (ext ext' : ℕ → ℕ) (old bytes : Bytes) (node' : DirectoryNode)
    (item : v.items a ≡ some (file ext old))
    (w : Written d d' first count a (v.nodes a) node' ext ext' bytes) where
  abbrev v' : Volume
  v' = written v a ext' bytes node'

  abbrev first' : ℕ
  first' = first + added (v.nodes a) (length bytes)

  abbrev filled : Option Item
  filled = some (file ext' bytes)

  Change-written : Change d d' first first' v a node'
  Change-written = record {
    description = w.description;
    more = omega arith;
    here = w.content.holds;
    kept = λ s low root ne foreign. w.spared s low root ne (foreign ext old item);
  }

  known-lt : (p : ℕ) (it : Item) → v.items p ≡ some it → p < first
  known-lt p (folder qs) h = (sound.folders p qs h).at.below
  known-lt p (file e bytes') h = (sound.files p e bytes' h).below

  unknown : (p : ℕ) → first ≤ p → v.items p ≡ none
  unknown p le = go (v.items p) refl
    where
      go : (o : Option Item) → v.items p ≡ o → o ≡ none
      go none h = refl
      go (some it) h = absurd (omega (arith, le, known-lt p it h))

  Known-written : (p : ℕ) → Known v p → Known v' p
  Known-written p (it, h) = elim (ℕ_discrete p a) [
    | yes e ↦ (file ext' bytes, ap v'.items e ∙ update_self v.items a filled)
    | no ne ↦ (it, update_ne v.items a filled p ne ∙ h)
  ]

  folder-written :
      (p : ℕ)
      → (qs : List ℕ) × (v.items p ≡ some (folder qs))
      → (qs : List ℕ) × (v'.items p ≡ some (folder qs))
  folder-written p (qs, h) = elim (ℕ_discrete p a) [
    | yes e ↦ absurd (folder-ne-file (sym h ∙ ap v.items e ∙ item))
    | no ne ↦ (qs, update_ne v.items a filled p ne ∙ h)
  ]

  IsFolder-written :
      (b : ℕ) (qs : List ℕ) → v'.items b ≡ some (folder qs) → IsFolder d' first' v' b qs
  IsFolder-written b qs h = elim (update-cases v.items a filled b (some (folder qs)) h) [
    | inl (e, self) ↦ absurd (folder-ne-file (sym self))
    | inr (ne, before) ↦
        let f = sound.folders b qs before in
        let node : v.nodes b ≡ v'.nodes b = sym (update_ne v.nodes a node' b ne) in
        record {
          at =
              subst (λ n. FolderAt d' first' b n (view v'.nodes qs)) node
                (FolderAt-Change d d' first first' count v sound a node' Change-written b qs ne
                  before);
          typed = subst (λ n. folder_bit n ≡ true) node f.typed;
          capacity = subst (λ n. n.header.entries_capacity ≡ 16) node f.capacity;
          known = All-mono (Known v) (Known v') qs Known-written f.known;
          parent =
              subst (λ n. (rs : List ℕ) × (v'.items n.header.parent_addr ≡ some (folder rs))) node
                (folder-written (v.nodes b).header.parent_addr f.parent);
        }
  ]

  -- The new extents carry no node.
  unowned-new : (i : ℕ) → i < node'.header.entries → v'.items (ext' i) ≡ none
  unowned-new i lt =
      update_ne v.items a filled (ext' i) (w.file.extents.not_self i lt) ∙ elim (w.origin i lt) [
        | inl (j, less, same) ↦ ap v.items same ∙ (sound.files a ext old item).unowned j less
        | inr high ↦ unknown (ext' i) high
      ]

  IsFile-self : IsFile d' first' v'.items a node' ext' bytes
  unfolding folder_bit
  IsFile-self = record {
    holds = w.file.holds;
    below = w.file.below;
    not_root = w.file.not_root;
    typed =
        subst (λ n. folder_bit (record node' { attrib_bits = n }) ≡ false) (sym w.attrib_bits)
          (sound.files a ext old item).typed;
    in_node = w.file.in_node;
    extents = w.file.extents;
    content = inr w.content;
    unowned = unowned-new;
  }

  IsFile-written :
      (b : ℕ) (e : ℕ → ℕ) (text : Bytes)
      → v'.items b ≡ some (file e text)
      → IsFile d' first' v'.items b (v'.nodes b) e text
  unfolding extents_of bytes_of
  IsFile-written b e text h = elim (update-cases v.items a filled b (some (file e text)) h) [
    | inl (same, self) ↦
        subst (λ k. IsFile d' first' v'.items k (v'.nodes k) e text) (sym same)
          (subst (λ n. IsFile d' first' v'.items a n e text) (sym (update_self v.nodes a node'))
            (subst (λ x. IsFile d' first' v'.items a node' x text) (ap (extents_of e) self)
              (subst (IsFile d' first' v'.items a node' ext') (ap bytes_of self) IsFile-self)))
    | inr (ne, before) ↦
        let f = sound.files b e text before in
        subst (λ n. IsFile d' first' v'.items b n e text) (sym (update_ne v.nodes a node' b ne))
          (IsFile-Change d d' first first' count v sound a node' Change-written v'.items b e text ne
            (file ext old, item) before
            (λ i lt.
              update_ne v.items a filled (e i)
                (λ same. some-ne-none (sym item ∙ ap v.items (sym same) ∙ f.unowned i lt))
              ∙ f.unowned i lt))
  ]

  -- No block of another file is a block of the written one.
  apart_from :
      (b : ℕ) (e : ℕ → ℕ) (text : Bytes)
      → v.items b ≡ some (file e text)
      → b ≢ a
      → (i j : ℕ) → i < node'.header.entries
      → j < (v.nodes b).header.entries
      → ext' i ≢ e j
  apart_from b e text h ne i j lt lt' = elim (w.origin i lt) [
    | inl (k, less, same) ↦
        λ x. sound.separate b a e ext text old h item ne j k lt' less (sym x ∙ same)
    | inr high ↦ λ x. omega (arith, high, x, (sound.files b e text h).extents.below j lt')
  ]

  -- The file at `b` is the written one or one of before.
  file-cases :
      (b i : ℕ) (e : ℕ → ℕ) (text : Bytes)
      → v'.items b ≡ some (file e text)
      → i < (v'.nodes b).header.entries
      → ((b ≡ a) × (ext' ≡ e) × (i < node'.header.entries))
        ⊎ ((b ≢ a) × (v.items b ≡ some (file e text)) × (i < (v.nodes b).header.entries))
  unfolding extents_of
  file-cases b i e text h lt = elim (update-cases v.items a filled b (some (file e text)) h) [
    | inl (same, self) ↦ inl (
      same,
      ap (extents_of e) self,
      subst (λ n. i < n.header.entries) (ap v'.nodes same ∙ update_self v.nodes a node') lt,
    )
    | inr (ne, before) ↦
        inr (ne, before, subst (λ n. i < n.header.entries) (update_ne v.nodes a node' b ne) lt)
  ]

  separate-written :
      (b c : ℕ) (e f : ℕ → ℕ) (text text' : Bytes)
      → v'.items b ≡ some (file e text)
      → v'.items c ≡ some (file f text')
      → b ≢ c
      → (i j : ℕ) → i < (v'.nodes b).header.entries
      → j < (v'.nodes c).header.entries
      → e i ≢ f j
  separate-written b c e f text text' h h' ne i j lt lt' = elim (file-cases b i e text h lt) [
    | inl (x, same, less) ↦ elim (file-cases c j f text' h' lt') [
      | inl (y, _, _) ↦ absurd (ne (x ∙ sym y))
      | inr (ne', before, less') ↦
          subst (λ g. g i ≢ f j) same (apart_from c f text' before ne' i j less less')
    ]
    | inr (ne', before, less) ↦ elim (file-cases c j f text' h' lt') [
      | inl (y, same, less') ↦
          λ z. apart_from b e text before ne' j i less' less (ap (λ g. g j) same ∙ sym z)
      | inr (_, before', less') ↦ sound.separate b c e f text text' before before' ne i j less less'
    ]
  ]

  -- After a `write_all` to a file of a sound volume the volume is sound, with the file's new
  -- content, and the pool has lost the blocks that the file grew by.
  pub Sound-written :
      added (v.nodes a) (length bytes) ≤ count
      → Sound d' first' (count - added (v.nodes a) (length bytes)) v'
  Sound-written enough = record {
    folders = IsFolder-written;
    files = IsFile-written;
    separate = separate-written;
    free = w.file.free;
    full = omega (arith, sound.full, enough, ap sectors w.description);
    reserved = omega (arith, sound.reserved);
    root = folder-written file_root sound.root;
  }
