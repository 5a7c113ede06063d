-- ===== src/Fs/Handle.antt =====
-- `fs_handle` of src/fs.h and the table `handle_instance_count_` of open handles.
pub mod Count
use coursework_file_system.Prelude.{
  ℕ, ◌+◌, ◌-◌, ◌%◌, ◌^◌, Bool, true, false, Option, none, some, List, ◌==◌, if◌then◌else◌,
}
use coursework_file_system.Table.{lookup, insert, erase}

abbrev pub Counts : Type 0
Counts = List (ℕ × ℕ)

-- `++it->second`, a `uint32_t`.
unfoldable pub count_up : Option ℕ → ℕ
count_up none = 1
count_up (some n) = (n + 1) % 2 ^ 32

-- `handle_construction`
unfoldable pub construction : ℕ → Counts → Counts
unfolding count_up
construction addr m = insert addr (count_up (lookup addr m)) m

unfoldable pub count_down : ℕ → Option ℕ → Counts → Counts
count_down addr none m = m
count_down addr (some n) m =
    if n == 1 then erase addr m else insert addr ((n + 2 ^ 32 - 1) % 2 ^ 32) m

-- `handle_destruction`
unfoldable pub destruction : ℕ → Counts → Counts
unfolding count_down
destruction addr m = count_down addr (lookup addr m) m

pub record Handle : Type 0 where
  pub addr : ℕ
  pub abandoned : Bool

-- The constructor from an address, and the destructor.
unfoldable pub construct : ℕ → Bool → Counts → Handle × Counts
construct addr abandoned m =
    (record { addr = addr; abandoned = abandoned }, if abandoned then m else construction addr m)

unfoldable pub destroy : Handle → Counts → Counts
destroy h m = if h.abandoned then m else destruction h.addr m

-- The copy constructor.
unfoldable pub copy : Handle → Counts → Handle × Counts
unfolding construct
copy other m = construct other.addr other.abandoned m

-- Copy assignment; `self` says that both sides are one object.
unfoldable pub copy_assign : Bool → Handle → Handle → Counts → Handle × Counts
unfolding destroy
copy_assign true h other m = (h, m)
copy_assign false h other m =
    let m1 = destroy h m in
    (
      record { addr = other.addr; abandoned = other.abandoned },
      if other.abandoned then m1 else construction other.addr m1,
    )

-- The move constructor: the new handle, and what is left of `other`.
unfoldable pub move : Handle → Counts → (Handle × Handle) × Counts
move other m =
    if other.abandoned
    then ((record { addr = other.addr; abandoned = true }, other), m)
    else ((record { addr = other.addr; abandoned = false }, record other { abandoned = true }), m)

-- Move assignment of two objects.
unfoldable pub move_assign : Handle → Handle → Counts → (Handle × Handle) × Counts
unfolding destroy
move_assign h other m = (
  (record { addr = other.addr; abandoned = other.abandoned }, record other { abandoned = true }),
  destroy h m,
)

-- Move assignment of an object to itself.
unfoldable pub move_assign_self : Handle → Counts → Handle × Counts
unfolding destroy
move_assign_self h m = (record h { abandoned = true }, destroy h m)
