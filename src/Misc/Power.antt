-- ===== src/Misc/Power.antt =====
-- `power_of_2` of src/utils/misc.h finds the exponent of exactly the powers of two.
use Prim.Native.Nat.{bit_and, digits, bit_and-bitwise}
use native.Mathlib.Nat.{pow-suc, one-le-pow, pow-le-pow_right}
use coursework_file_system.Prelude.{
  ℕ, zero, suc, ◌+◌, ◌-◌, ◌/◌, ◌*◌, ◌%◌, ◌^◌, ◌≤◌, ◌<◌, ◌≡◌, ◌≢◌, ◌↔◌, refl, ap, ap₂, ◌∙◌, min,
  arith, some,
}
use native.Mathlib.Decide.{dec_lt, ℕ_discrete}
use coursework_file_system.Misc.{shift_loop, power_of_2}

-- `bit_and` digit by digit; the first argument bounds the number of digits.
abbrev meet : ℕ → ℕ → ℕ → ℕ
meet n a b = digits (λ _. zero) min n a b

-- Any bound that is large enough serves.
meet_bound : (n m a b : ℕ) → a ≤ n → a ≤ m → meet n a b ≡ meet m a b
meet_bound zero zero a b p q = refl
meet_bound zero (suc m) zero b p q = refl
meet_bound zero (suc m) (suc a) b p q = absurd (omega arith)
meet_bound (suc n) zero zero b p q = refl
meet_bound (suc n) zero (suc a) b p q = absurd (omega arith)
meet_bound (suc n) (suc m) zero b p q = refl
meet_bound (suc n) (suc m) (suc a) b p q =
    ap (λ r. r * 2 + min (suc a % 2) (b % 2))
      (meet_bound n m (suc a / 2) (b / 2) (omega arith) (omega arith))

-- The lowest digit of the meet, and the rest.
and_step : (a b : ℕ) → 0 < a → bit_and a b ≡ bit_and (a / 2) (b / 2) * 2 + min (a % 2) (b % 2)
and_step zero b h = absurd (omega arith)
and_step (suc a) b h = omega (
  arith,
  bit_and-bitwise (suc a) b,
  bit_and-bitwise (suc a / 2) (b / 2),
  meet_bound a (suc a / 2) (suc a / 2) (b / 2) (omega arith) (omega arith),
)

and_self : (fuel a : ℕ) → a ≤ fuel → bit_and a a ≡ a
and_self fuel zero h = refl
and_self zero (suc a) h = absurd (omega arith)
and_self (suc fuel) (suc a) h =
    omega (arith, and_step (suc a) (suc a) (omega arith), and_self fuel (suc a / 2) (omega arith))

-- `n & (n - 1)` of an even and of an odd number.
and_pred_even : (m : ℕ) → 0 < m → bit_and (2 * m) (2 * m - 1) ≡ 2 * bit_and m (m - 1)
and_pred_even m h = and_step (2 * m) (2 * m - 1) (omega arith) ∙ omega (arith, ap₂ bit_and up down)
  where
    up : 2 * m / 2 ≡ m
    up = omega arith

    down : (2 * m - 1) / 2 ≡ m - 1
    down = omega arith

and_pred_odd : (m : ℕ) → bit_and (2 * m + 1) (2 * m) ≡ 2 * m
and_pred_odd m =
    and_step (2 * m + 1) (2 * m) (omega arith)
    ∙ omega (arith, ap₂ bit_and up down, and_self m m (omega arith))
  where
    up : (2 * m + 1) / 2 ≡ m
    up = omega arith

    down : 2 * m / 2 ≡ m
    down = omega arith

and_pred_at : (n m : ℕ) → n ≡ m → bit_and n (n - 1) ≡ bit_and m (m - 1)
and_pred_at n m e = ap (λ k. bit_and k (k - 1)) e

and_pred-two_pow : (k : ℕ) → bit_and (2 ^ k) (2 ^ k - 1) ≡ 0
and_pred-two_pow zero = refl
and_pred-two_pow (suc k) = omega (
  arith,
  and_pred_at (2 ^ suc k) (2 * 2 ^ k) (omega (arith, pow-suc 2 k)),
  and_pred_even (2 ^ k) (one-le-pow k 2 (omega arith)),
  and_pred-two_pow k,
)

one_of_odd : (n : ℕ) → n % 2 ≡ 1 → bit_and n (n - 1) ≡ 0 → n ≡ 1
one_of_odd n odd h = omega (arith, and_pred_odd (n / 2), ap₂ bit_and split pred_split)
  where
    split : n ≡ 2 * (n / 2) + 1
    split = omega arith

    pred_split : n - 1 ≡ 2 * (n / 2)
    pred_split = omega arith

half_of_even : (n : ℕ) → 0 < n → n % 2 ≢ 1 → bit_and n (n - 1) ≡ 0 → bit_and (n / 2) (n / 2 - 1) ≡ 0
half_of_even n pos even h =
    omega (arith, and_pred_even (n / 2) (omega arith), and_pred_at n (2 * (n / 2)) (omega arith))

-- Clearing the lowest bit gives zero at a power of two alone.
two_pow_of_and_pred :
    (fuel n : ℕ) → n ≤ fuel → 0 < n → bit_and n (n - 1) ≡ 0 → (k : ℕ) × (n ≡ 2 ^ k)
two_pow_of_and_pred zero n le pos h = absurd (omega arith)
two_pow_of_and_pred (suc fuel) n le pos h = elim (ℕ_discrete (n % 2) 1) [
  | yes odd ↦ (0, one_of_odd n odd h)
  | no even ↦
      let (k, e) =
        two_pow_of_and_pred fuel (n / 2) (omega arith) (omega arith) (half_of_even n pos even h) in
      (suc k, omega (arith, pow-suc 2 k))
]

-- The shifts of `2 ^ k` are counted.
shift_loop-two_pow : (fuel k ret : ℕ) → k < fuel → shift_loop fuel (2 ^ k) ret ≡ ret + k
unfolding shift_loop
shift_loop-two_pow zero k ret h = absurd (omega arith)
shift_loop-two_pow (suc fuel) zero ret h = omega arith
shift_loop-two_pow (suc fuel) (suc k) ret h = ground (
  arith,
  pow-suc 2 k,
  one-le-pow k 2 (omega arith),
  ap (λ n. shift_loop fuel n (ret + 1)) half,
  shift_loop-two_pow fuel k (ret + 1) (omega arith),
)
  where
    half : 2 ^ suc k / 2 ≡ 2 ^ k
    half = omega (arith, pow-suc 2 k)

exponent-lt : (k : ℕ) → 2 ^ k < 2 ^ 64 → k < 64
exponent-lt k h = elim (dec_lt k 64) [
  | yes lt ↦ lt
  | no ge ↦
      absurd (omega (arith, pow-le-pow_right {n = 2} (omega arith) {i = 64} {j = k} (omega arith)))
]

power_of_2-two_pow : (k : ℕ) → k < 64 → power_of_2 (2 ^ k) ≡ some k
unfolding power_of_2
power_of_2-two_pow k h =
    ground (arith, and_pred-two_pow k, one-le-pow k 2 (omega arith), shift_loop-two_pow 64 k 0 h)

accepted : (n k : ℕ) → power_of_2 n ≡ some k → (0 < n) × (bit_and n (n - 1) ≡ 0)
unfolding power_of_2
accepted n k h = ground arith

exponent_unique : (n j k : ℕ) → n < 2 ^ 64 → n ≡ 2 ^ j → power_of_2 n ≡ some k → n ≡ 2 ^ k
exponent_unique n j k lt e h = cc (power_of_2-two_pow j (exponent-lt j (rw e at lt)), e, h)

two_pow_of_power_of_2 : (n k : ℕ) → n < 2 ^ 64 → power_of_2 n ≡ some k → n ≡ 2 ^ k
two_pow_of_power_of_2 n k lt h =
    let (pos, clear) = accepted n k h in
    let (j, e) = two_pow_of_and_pred n n (omega arith) pos clear in exponent_unique n j k lt e h

-- On a `uint64_t`, `power_of_2` returns `k` exactly at `2 ^ k`, and -1 at every other number.
pub power_of_2_iff : (n k : ℕ) → n < 2 ^ 64 → (power_of_2 n ≡ some k) ↔ (n ≡ 2 ^ k)
power_of_2_iff n k lt =
    (two_pow_of_power_of_2 n k lt, λ e. rw e (power_of_2-two_pow k (exponent-lt k (rw (← e) lt))))
