-- ===== src/Drive/Checks.antt =====
-- The checks of the constructor of `virtual_drive` in src/virtual_drive.h.
use native.Mathlib.Nat.{div-div-eq-div-mul, div-mul-le_self, mul-div_cancel_left, mul-pos}
use coursework_file_system.Prelude.{
  ℕ, ◌*◌, ◌/◌, ◌^◌, ◌<◌, ◌≤◌, ◌≡◌, ◌↔◌, refl, sym, ap, ◌∙◌, Bool, true, false, not, ◌||◌, Option,
  none, some, ◌==◌, arith, ==_self, Option-cases, inl, inr,
}
use coursework_file_system.Misc.{power_of_2}
use coursework_file_system.Misc.Power.{power_of_2_iff}
use coursework_file_system.Node.Bits.{two_pow_pos}
use coursework_file_system.Drive.{product, is_none, refused}

product_fits : (b s c : ℕ) → 0 < b * s → b * s * c < 2 ^ 64 → product b s c / b / s ≡ c
product_fits b s c pos lt =
    ap (λ x. x / b / s) (omega (arith, lt))
    ∙ div-div-eq-div-mul (b * s * c) b s
    ∙ mul-div_cancel_left c pos

product_wraps : (b s c : ℕ) → product b s c / b / s ≡ c → b * s * c < 2 ^ 64
product_wraps b s c e =
    let quotient : product b s c / (b * s) ≡ c = sym (div-div-eq-div-mul (product b s c) b s) ∙ e in
    let bound : c * (b * s) ≤ product b s c =
      rw (quotient) at (div-mul-le_self (product b s c) (b * s)) in
    omega (arith, bound)

not_both : (o : Option ℕ) → o ≡ none → is_none o ≡ false → ⊥
not_both none e h = cc
not_both (some k) e h = cc

power_of_2-none : (n : ℕ) → n < 2 ^ 64 → is_none (power_of_2 n) ≡ false → (k : ℕ) × (n ≡ 2 ^ k)
power_of_2-none n lt h = elim (Option-cases (power_of_2 n)) [
  | inl e ↦ absurd (not_both (power_of_2 n) e h)
  | inr (k, e) ↦ (k, (power_of_2_iff n k lt).0 e)
]

-- The three tests, from their conjunction.
passed_parts : (x y z : Bool) → (x || (y || not z)) ≡ false → (x ≡ false) × (y ≡ false) × (z ≡ true)
passed_parts false false true h = (refl, refl, refl)
passed_parts true y z h = cc
passed_parts false true z h = cc
passed_parts false false false h = cc

eq_of_test : (a b : ℕ) → (a == b) ≡ true → a ≡ b
eq_of_test a b h = ground arith

some-two_pow : (n k : ℕ) → n < 2 ^ 64 → n ≡ 2 ^ k → is_none (power_of_2 n) ≡ false
some-two_pow n k lt e = rw ((power_of_2_iff n k lt).1 e)

-- On 64-bit arguments the constructor's checks pass exactly if the sector size and the cylinder size
-- are powers of two and the drive has fewer than 2 ^ 64 bytes.
pub refused_iff :
    (c s b : ℕ)
    → s < 2 ^ 64
    → b < 2 ^ 64
    → (refused c s b ≡ false)
      ↔ (((i : ℕ) × (b ≡ 2 ^ i)) × ((j : ℕ) × (s ≡ 2 ^ j)) × (b * s * c < 2 ^ 64))
unfolding refused
refused_iff c s b hs hb = (
  λ passed.
      let (p, q, r) =
        passed_parts (is_none (power_of_2 b)) (is_none (power_of_2 s)) (product b s c / b / s == c)
          passed in
      (power_of_2-none b hb p, power_of_2-none s hs q, product_wraps b s c (eq_of_test _ c r)),
  λ ((i, eb), (j, es), lt).
      rw
        (
          some-two_pow b i hb eb,
          some-two_pow s j hs es,
          product_fits b s c (mul-pos (rw eb (two_pow_pos i)) (rw es (two_pow_pos j))) lt,
          ==_self c,
        )
        refl,
)
