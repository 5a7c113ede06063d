-- ===== src/Fs/Volume/Format.antt =====
-- The volume of src/fs.h after `format`.
use coursework_file_system.Prelude.{
  ℕ, ◌-◌, ◌<◌, ◌≡◌, refl, sym, ap, subst, Option, none, some, List, [], inl, inr, arith,
}
use coursework_file_system.Bytes.{Bytes}
use coursework_file_system.Node.{default_folder, folder_bit, set_folder_bit}
use coursework_file_system.Disk.{Disk, sectors, update, update_self, update-cases}
use coursework_file_system.Fs.{Env, file_root, reserved_blocks}
use coursework_file_system.Fs.Format.{IsFormatted}
use coursework_file_system.Fs.Volume.{Item, folder, file, Volume, IsFolder, Sound}
use coursework_file_system.Fs.Volume.Create.{children_of, folder-ne-file, some-ne-none}

abbrev only_root : ℕ → Option Item
only_root = update (λ a. none) file_root (some (folder []))

-- The root folder alone.
abbrev pub root_volume : Env → Volume
root_volume env = record { nodes = λ a. default_folder env.node_memory env.now; items = only_root }

folder-only_root :
    (a : ℕ) (ps : List ℕ) → only_root a ≡ some (folder ps) → (a ≡ file_root) × ([] ≡ ps)
folder-only_root a ps h =
    elim (update-cases (λ b. none) file_root (some (folder [])) a (some (folder ps)) h) [
      | inl (e, self) ↦ (e, ap children_of self)
      | inr (ne, other) ↦ absurd (some-ne-none (sym other))
    ]

file-only_root : (a : ℕ) (ext : ℕ → ℕ) (bytes : Bytes) → only_root a ≡ some (file ext bytes) → ⊥
file-only_root a ext bytes h =
    elim (update-cases (λ b. none) file_root (some (folder [])) a (some (file ext bytes)) h) [
      | inl (e, self) ↦ folder-ne-file self
      | inr (ne, other) ↦ some-ne-none (sym other)
    ]

module _ (env : Env) (d : Disk) (formatted : IsFormatted env d)
    (room : reserved_blocks < sectors d.description) where
  IsFolder-root : IsFolder d reserved_blocks (root_volume env) file_root []
  unfolding default_folder folder_bit set_folder_bit
  IsFolder-root = record {
    at = formatted.root;
    typed = refl;
    capacity = refl;
    known = tt;
    parent = ([], update_self (λ a. none) file_root (some (folder [])));
  }

  -- A formatted disk of more than three sectors is a sound volume with the root folder alone.
  pub Sound-IsFormatted :
      Sound d reserved_blocks (sectors d.description - reserved_blocks) (root_volume env)
  Sound-IsFormatted = record {
    folders = λ a ps h.
        let (e, none_in) = folder-only_root a ps h in
        subst (λ b. IsFolder d reserved_blocks (root_volume env) b ps) (sym e)
          (subst (IsFolder d reserved_blocks (root_volume env) file_root) none_in IsFolder-root);
    files = λ a ext bytes h. absurd (file-only_root a ext bytes h);
    separate = λ a b ext ext' bytes bytes' h. absurd (file-only_root a ext bytes h);
    free = formatted.free;
    full = omega (arith, room);
    reserved = omega arith;
    root = ([], update_self (λ a. none) file_root (some (folder [])));
  }
