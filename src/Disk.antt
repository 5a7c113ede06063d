-- ===== src/Disk.antt =====
-- The contract of `storage_interface` (src/storage_interface.h): a disk is a geometry and the
-- bytes of each sector. A sector address out of range throws ERROR_DISK_ADDR_INVALID, as
-- src/ram_disk.h does; a buffer shorter than a sector is undefined behaviour. `get_description` is
-- `description`.
use coursework_file_system.Prelude.{
  ℕ, ◌*◌, ◌%◌, ◌^◌, ◌<◌, ◌≡◌, ◌≢◌, ◌⊎◌, inl, inr, refl, sym, ap, ◌∙◌, ℕ_discrete, ==_self, ==_ne,
  take_all, length, take, ltb, leb, ◌==◌, if◌then◌else◌, arith,
}
use coursework_file_system.Bytes.{Bytes}
use coursework_file_system.Run.{done, thrown, undefined, Cmd, disk_addr_invalid}

-- `disk_description`
pub record Description : Type 0 where
  pub cylinders : ℕ
  pub sectors_per_cylinder : ℕ
  pub bytes_per_sector : ℕ

pub record Disk : Type 0 where
  pub description : Description
  pub sector : ℕ → Bytes

-- The number of sectors, as a `uint64_t`.
abbrev pub sectors : Description → ℕ
sectors g = g.cylinders * g.sectors_per_cylinder % 2 ^ 64

abbrev pub update {ℓ} : {A : Type ℓ} → (ℕ → A) → ℕ → A → ℕ → A
update f k v i = if i == k then v else f i

-- A function with a new value at one place.
pub update_self : {A : Type 0} (f : ℕ → A) (k : ℕ) (v : A) → update f k v k ≡ v
update_self f k v = rw (==_self k) refl

pub update_ne : {A : Type 0} (f : ℕ → A) (k : ℕ) (v : A) (i : ℕ) → i ≢ k → update f k v i ≡ f i
update_ne f k v i ne = rw (==_ne i k ne) refl

pub update-cases :
    {A : Type 0} (f : ℕ → A) (k : ℕ) (v : A) (i : ℕ) (x : A)
    → update f k v i ≡ x
    → ((i ≡ k) × (v ≡ x)) ⊎ ((i ≢ k) × (f i ≡ x))
update-cases f k v i x h = elim (ℕ_discrete i k) [
  | yes e ↦ inl (e, sym (ap (update f k v) e ∙ update_self f k v) ∙ h)
  | no ne ↦ inr (ne, sym (update_ne f k v i ne) ∙ h)
]

unfoldable pub read_sector : ℕ → Cmd Disk Bytes
read_sector addr d =
    if ltb addr (sectors d.description) then done (d.sector addr) d else thrown disk_addr_invalid d

unfoldable pub write_sector : ℕ → Bytes → Cmd Disk (Unit {0})
write_sector addr bytes d =
    let size = d.description.bytes_per_sector in
    if ltb addr (sectors d.description)
    then if leb size (length bytes)
      then done tt (record d { sector = update d.sector addr (take size bytes) })
      else undefined
    else thrown disk_addr_invalid d

pub write_sector-done :
    (d : Disk) (addr : ℕ) (bytes : Bytes)
    → addr < sectors d.description
    → length bytes ≡ d.description.bytes_per_sector
    → write_sector addr bytes d ≡ done tt (record d { sector = update d.sector addr bytes })
unfolding write_sector
write_sector-done d addr bytes valid len =
    ground (arith, take_all d.description.bytes_per_sector bytes (omega arith))
