-- ===== src/Base/Bits.antt =====
-- `|`, `&` and `^` of unsigned words, as arithmetic on binary digits, at every width.
use Prim.Native.Nat.{
  ℕ, zero, suc, ◌+◌, ◌-◌, ◌*◌, ◌/◌, ◌%◌, ◌^◌, ◌≤◌, ◌<◌, min, max, digits, bit_and, bit_or, bit_xor,
  bit_and-bitwise, bit_or-bitwise, bit_xor-bitwise, differ,
}
use mathlib.Core.Path.{◌≡◌, refl, ap}
use mathlib.Core.Logic.{◌≢◌}
use native.Mathlib.Decide.{ℕ_discrete}
use native.Mathlib.Nat.{le_refl, div-div-eq-div-mul}
use native.Mathlib.Omega.{arith}
use rust_fil_proofs.Base.Powers.{two_pow-suc, two_pow_pos}

-- The native operations stand for `digits`, a recursion on the digits of both numbers whose count of
-- rounds is the first number. Any count that is no smaller gives the same.
module _ (rest : ℕ → ℕ) (digit : ℕ → ℕ → ℕ) where
  digits_rounds :
      (more x y rounds : ℕ)
      → x ≤ rounds
      → rounds ≤ more
      → digits rest digit more x y ≡ digits rest digit rounds x y
  digits_rounds zero x y zero lo hi = refl
  digits_rounds zero x y (suc rounds) lo hi = absurd (omega arith)
  digits_rounds (suc more) zero y zero lo hi = refl
  digits_rounds (suc more) zero y (suc rounds) lo hi = refl
  digits_rounds (suc more) (suc x) y zero lo hi = absurd (omega arith)
  digits_rounds (suc more) (suc x) y (suc rounds) lo hi =
      let half = digits_rounds more (suc x / 2) (y / 2) rounds (omega arith) (omega arith) in
      ap (λ (t : ℕ). t * 2 + digit (suc x % 2) (y % 2)) half

  -- One equation for the lowest digit.
  lowest_digit :
      (x y : ℕ)
      → digits rest digit (suc x) (suc x) y
        ≡ digits rest digit (suc x / 2) (suc x / 2) (y / 2) * 2 + digit (suc x % 2) (y % 2)
  lowest_digit x y =
      let half = digits_rounds x (suc x / 2) (y / 2) (suc x / 2) (omega arith) (omega arith) in
      ap (λ (t : ℕ). t * 2 + digit (suc x % 2) (y % 2)) half

pub bit_or_step : (x y : ℕ) → bit_or x y ≡ bit_or (x / 2) (y / 2) * 2 + max (x % 2) (y % 2)
bit_or_step zero y = omega (arith, bit_or-bitwise 0 y, bit_or-bitwise 0 (y / 2))
bit_or_step (suc x) y = simp bit_or-bitwise (lowest_digit (λ t. t) max x y)

pub bit_and_step : (x y : ℕ) → bit_and x y ≡ bit_and (x / 2) (y / 2) * 2 + min (x % 2) (y % 2)
bit_and_step zero y = omega (arith, bit_and-bitwise 0 y, bit_and-bitwise 0 (y / 2))
bit_and_step (suc x) y = simp bit_and-bitwise (lowest_digit (λ t. 0) min x y)

-- `differ` is the digit operation of `^`.
differ-eq-add_mod : (a b : ℕ) → a < 2 → b < 2 → differ a b ≡ (a + b) % 2
differ-eq-add_mod zero b p q = omega arith
differ-eq-add_mod (suc zero) zero p q = refl
differ-eq-add_mod (suc zero) (suc zero) p q = refl
differ-eq-add_mod (suc zero) (suc (suc b)) p q = absurd (omega arith)
differ-eq-add_mod (suc (suc a)) b p q = absurd (omega arith)

pub bit_xor_step : (a b : ℕ) → bit_xor a b ≡ bit_xor (a / 2) (b / 2) * 2 + (a % 2 + b % 2) % 2
bit_xor_step zero b = omega (arith, bit_xor-bitwise 0 b, bit_xor-bitwise 0 (b / 2))
bit_xor_step (suc a) b = simp bit_xor-bitwise (
    omega (
      arith,
      lowest_digit (λ t. t) differ a b,
      differ-eq-add_mod (suc a % 2) (b % 2) (omega arith) (omega arith),
    ))

bit_xor_cancel_fuel : (n x y : ℕ) → x + y ≤ n → bit_xor (bit_xor x y) y ≡ x
bit_xor_cancel_fuel zero zero zero h = refl
bit_xor_cancel_fuel zero zero (suc y) h = absurd (omega arith)
bit_xor_cancel_fuel zero (suc x) y h = absurd (omega arith)
bit_xor_cancel_fuel (suc n) x y h =
    let e : bit_xor x y / 2 ≡ bit_xor (x / 2) (y / 2) = omega (arith, bit_xor_step x y) in
    let ih : (x + y ≢ 0 → bit_xor (bit_xor (x / 2) (y / 2)) (y / 2) ≡ x / 2) =
      λ ne. bit_xor_cancel_fuel n (x / 2) (y / 2) (omega arith) in
    elim (ℕ_discrete (x + y) 0) [
      | yes p ↦ let ex : x ≡ 0 = omega arith in let ey : y ≡ 0 = omega arith in rw (ex, ey) refl
      | no p ↦ omega (
        arith,
        bit_xor_step x y,
        bit_xor_step (bit_xor x y) y,
        ap (λ (t : ℕ). bit_xor t (y / 2)) e,
        ih p,
      )
    ]

-- `(x ^ y) ^ y` is `x`.
pub bit_xor_cancel : (x y : ℕ) → bit_xor (bit_xor x y) y ≡ x
bit_xor_cancel x y = bit_xor_cancel_fuel (x + y) x y (le_refl _)

pub bit_xor-lt_two_pow : (k x y : ℕ) → x < 2 ^ k → y < 2 ^ k → bit_xor x y < 2 ^ k
bit_xor-lt_two_pow zero zero zero p q = omega arith
bit_xor-lt_two_pow zero zero (suc y) p q = absurd (omega arith)
bit_xor-lt_two_pow zero (suc x) y p q = absurd (omega arith)
bit_xor-lt_two_pow (suc k) x y p q = omega (
  arith,
  two_pow-suc k,
  bit_xor_step x y,
  bit_xor-lt_two_pow k (x / 2) (y / 2) (omega (arith, two_pow-suc k))
      (omega (arith, two_pow-suc k)),
)

bit_or-zero_fuel : (n a : ℕ) → a ≤ n → bit_or a 0 ≡ a
bit_or-zero_fuel n zero h = refl
bit_or-zero_fuel zero (suc a) h = absurd (omega arith)
bit_or-zero_fuel (suc n) (suc a) h =
    omega (arith, bit_or_step (suc a) 0, bit_or-zero_fuel n (suc a / 2) (omega arith))

bit_and-zero_fuel : (n a : ℕ) → a ≤ n → bit_and a 0 ≡ 0
bit_and-zero_fuel n zero h = refl
bit_and-zero_fuel zero (suc a) h = elim h [ ]
bit_and-zero_fuel (suc k) (suc b) below =
    let half = bit_and-zero_fuel k (suc b / 2) (omega arith) in
    omega (arith, half, bit_and_step (suc b) 0)

mul-two_pow-suc : (q k : ℕ) → q * 2 ^ suc k ≡ 2 * (q * 2 ^ k)
mul-two_pow-suc q k = omega (arith, ap (λ (t : ℕ). q * t) (two_pow-suc k))

-- `(q << k) | r` is a sum when `r` fits `k` bits.
pub bit_or_fields : (k q r : ℕ) → r < 2 ^ k → bit_or (q * 2 ^ k) r ≡ q * 2 ^ k + r
bit_or_fields zero q r fits = ground (arith, bit_or-zero_fuel q q (le_refl q))
bit_or_fields (suc k) q r fits = ground (
  arith,
  bit_or_step (q * 2 ^ suc k) r,
  mul-two_pow-suc q k,
  two_pow-suc k,
  bit_or_fields k q (r / 2) (omega (arith, two_pow-suc k)),
)

pub bit_or_fields_swapped : (k q r : ℕ) → r < 2 ^ k → bit_or r (q * 2 ^ k) ≡ q * 2 ^ k + r
bit_or_fields_swapped zero q zero fits = omega (arith, bit_or-bitwise 0 (q * 1))
bit_or_fields_swapped zero q (suc r) fits = absurd (omega arith)
bit_or_fields_swapped (suc k) q r fits = ground (
  arith,
  bit_or_step r (q * 2 ^ suc k),
  mul-two_pow-suc q k,
  two_pow-suc k,
  bit_or_fields_swapped k q (r / 2) (omega (arith, two_pow-suc k)),
)

bit_and_fields : (k q r : ℕ) → r < 2 ^ k → bit_and (q * 2 ^ k + r) (2 ^ k - 1) ≡ r
bit_and_fields zero q r fits = ground (arith, bit_and-zero_fuel (q * 1 + r) (q * 1 + r) (le_refl _))
bit_and_fields (suc k) q r fits = ground (
  arith,
  bit_and_step (q * 2 ^ suc k + r) (2 ^ suc k - 1),
  mul-two_pow-suc q k,
  two_pow-suc k,
  two_pow_pos k,
  bit_and_fields k q (r / 2) (omega (arith, two_pow-suc k)),
)

-- A mask of `k` low bits is the remainder by `2 ^ k`.
pub bit_and_mask : (k a : ℕ) → bit_and a (2 ^ k - 1) ≡ a % 2 ^ k
bit_and_mask k a = ground (arith, two_pow_pos k, bit_and_fields k (a / 2 ^ k) (a % 2 ^ k))

unit_div : (t : ℕ) → t / 1 ≡ t
unit_div t = omega arith

-- A mask of `n` bits above the lowest `k`, shifted down.
pub bit_and_high_mask : (k n a : ℕ) → bit_and a ((2 ^ n - 1) * 2 ^ k) / 2 ^ k ≡ a / 2 ^ k % 2 ^ n
bit_and_high_mask zero n a =
    let e : (2 ^ n - 1) * 2 ^ 0 ≡ 2 ^ n - 1 = omega arith in
    let d : (t : ℕ) → t / 2 ^ 0 ≡ t = λ t. unit_div t in
    rw (e, bit_and_mask n a, d a, d (a % 2 ^ n)) refl
bit_and_high_mask (suc k) n a =
    let m : ℕ = (2 ^ n - 1) * 2 ^ k in
    let e : (2 ^ n - 1) * 2 ^ suc k ≡ 2 * m = mul-two_pow-suc (2 ^ n - 1) k in
    let s : bit_and a (2 * m) ≡ bit_and (a / 2) m * 2 =
      let f : 2 * m / 2 ≡ m = omega arith in
      omega (arith, bit_and_step a (2 * m), ap (λ (t : ℕ). bit_and (a / 2) t) f) in
    rw (e, s, two_pow-suc k, ← div-div-eq-div-mul (bit_and (a / 2) m * 2) 2 (2 ^ k))
      (let g : bit_and (a / 2) m * 2 / 2 ≡ bit_and (a / 2) m = omega arith in
        rw (g, bit_and_high_mask k n (a / 2), div-div-eq-div-mul a 2 (2 ^ k)) refl)
