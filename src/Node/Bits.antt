-- ===== src/Node/Bits.antt =====
-- `bit_proxy` of src/fs_block_structure.h: a bit that is assigned is read back.
use coursework_file_system.Prelude.{
  ℕ, zero, suc, ◌+◌, ◌-◌, ◌/◌, ◌%◌, ◌^◌, ◌≤◌, ◌<◌, ◌≡◌, ap, Bool, true, false, arith,
}
use native.Mathlib.Nat.{pow-suc, add-div_right, div-eq_of_lt}
use native.Mathlib.Decide.{dec_lt}
use coursework_file_system.Node.{DirectoryNode, bit, set_bit, folder_bit, set_folder_bit}

pub two_pow_pos : (d : ℕ) → 0 < 2 ^ d
two_pow_pos zero = omega arith
two_pow_pos (suc d) = omega (arith, pow-suc 2 d, two_pow_pos d)

odd_quotient : (c p : ℕ) → 0 < p → c / p % 2 ≡ 1 → p ≤ c
odd_quotient c p h odd = elim (dec_lt c p) [
  | yes lt ↦ absurd (omega (arith, div-eq_of_lt lt))
  | no ge ↦ omega arith
]

sub_quotient : (c p : ℕ) → 0 < p → p ≤ c → (c - p) / p + 1 ≡ c / p
sub_quotient c p h le = omega (arith, add-div_right (c - p) h, restore)
  where
    restore : (c - p + p) / p ≡ c / p
    restore = ap (λ k. k / p) (omega arith)

-- A bit reads back as assigned, at every position of a word of any width.
pub bit-set_bit : (ch digit : ℕ) (b : Bool) → bit (set_bit ch digit b) digit ≡ b
unfolding set_bit
bit-set_bit ch digit true = ground (arith, add-div_right ch (two_pow_pos digit))
bit-set_bit ch digit false = ground (
  arith,
  odd_quotient ch (2 ^ digit) (two_pow_pos digit),
  sub_quotient ch (2 ^ digit) (two_pow_pos digit),
)

pub folder_bit-set_folder_bit : (n : DirectoryNode) (b : Bool) → folder_bit (set_folder_bit n b) ≡ b
unfolding folder_bit set_folder_bit
folder_bit-set_folder_bit n b = bit-set_bit n.attrib_bits 0 b
