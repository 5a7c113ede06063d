-- ===== src/Misc.antt =====
-- src/utils/misc.h: `power_of_2` and `is_uint`.
pub mod Power
use Prim.Native.Nat.{bit_and}
use coursework_file_system.Prelude.{
  ℕ, zero, suc, ◌+◌, ◌-◌, ◌/◌, ◌*◌, Bool, true, false, ◌&&◌, ◌||◌, Option, none, some, List, [],
  ◌∷◌, ltb, ◌==◌, if◌then◌else◌,
}

-- `while (n > 1) { n >>= 1; ++ret; }`, on fuel. `__builtin_ctzll` gives the same on the numbers
-- that pass the test in front of it.
unfoldable pub shift_loop : ℕ → ℕ → ℕ → ℕ
shift_loop zero n ret = ret
shift_loop (suc fuel) n ret = elim (ltb 1 n) [
  | true ↦ shift_loop fuel (n / 2) (ret + 1)
  | false ↦ ret
]

-- `none` is the result -1. A `uint64_t` takes at most 63 rounds.
unfoldable pub power_of_2 : ℕ → Option ℕ
unfolding shift_loop
power_of_2 n = if ltb 0 n && bit_and n (n - 1) == 0 then some (shift_loop 64 n 0) else none

-- `is_uint` on the characters of a C string.
unfoldable pub is_uint : List ℕ → Bool
is_uint [] = true
is_uint (c ∷ s) = if ltb c b'0' || ltb b'9' c then false else is_uint s
