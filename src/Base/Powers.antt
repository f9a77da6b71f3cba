-- ===== src/Base/Powers.antt =====
-- Powers of two over the native numbers: order, sums in the exponent, products.
use Prim.Native.Nat.{ℕ, zero, suc, ◌+◌, ◌-◌, ◌*◌, ◌^◌, ◌≤◌, ◌<◌}
use mathlib.Core.Path.{◌≡◌, ap, ◌∙◌}
use native.Mathlib.Decide.{dec_lt}
use native.Mathlib.Nat.{pow-suc, one-le-pow, pow-le-pow_right}
use native.Mathlib.Omega.{arith}

pub two_pow_pos : (k : ℕ) → 1 ≤ 2 ^ k
two_pow_pos k = one-le-pow k 2 (omega arith)

pub two_pow-suc : (k : ℕ) → 2 ^ suc k ≡ 2 * 2 ^ k
two_pow-suc k = omega (arith, pow-suc 2 k)

pub two_pow-le : (a b : ℕ) → a ≤ b → 2 ^ a ≤ 2 ^ b
two_pow-le a b h = pow-le-pow_right (omega arith) h

pub two_pow-lt : (a b : ℕ) → a < b → 2 ^ a < 2 ^ b
two_pow-lt a b h = omega (arith, two_pow-le (suc a) b h, two_pow-suc a, two_pow_pos a)

pub two_pow-add : (a b : ℕ) → 2 ^ (a + b) ≡ 2 ^ a * 2 ^ b
two_pow-add zero b = grind arith
two_pow-add (suc a) b =
    let e : suc a + b ≡ suc (a + b) = omega arith in
    rw (e, two_pow-suc (a + b), two_pow-add a b, two_pow-suc a) (omega arith)

-- The order of the powers is that of the exponents.
pub lt_of_two_pow-lt : (a b : ℕ) → 2 ^ a < 2 ^ b → a < b
lt_of_two_pow-lt a b h = elim (dec_lt a b) [
  | yes p ↦ p
  | no p ↦ absurd (omega (arith, two_pow-le b a (omega arith)))
]

pub eq_of_two_pow-eq : (a b : ℕ) → 2 ^ a ≡ 2 ^ b → a ≡ b
eq_of_two_pow-eq a b h = elim (dec_lt a b) [
  | yes p ↦ absurd (omega (arith, two_pow-lt a b p))
  | no p ↦ elim (dec_lt b a) [
    | yes q ↦ absurd (omega (arith, two_pow-lt b a q))
    | no q ↦ omega arith
  ]
]

pub two_pow-sub : (a b : ℕ) → b ≤ a → 2 ^ a ≡ 2 ^ (a - b) * 2 ^ b
two_pow-sub a b h =
    let e : a ≡ a - b + b = omega arith in ap (λ (n : ℕ). 2 ^ n) e ∙ two_pow-add (a - b) b

pub lt_two_pow : (k : ℕ) → k < 2 ^ k
lt_two_pow zero = omega arith
lt_two_pow (suc k) = omega (arith, two_pow-suc k, lt_two_pow k)
