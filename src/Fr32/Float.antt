-- ===== src/Fr32/Float.antt =====
-- The conversion `n as f64` that `transform_byte_offset` (fr32/src/padding.rs) goes through.
-- An `f64` has 53 bits of precision; the conversion rounds to the nearest value, ties to even.
use rust_fil_proofs.Base.{
  ℕ, zero, suc, ◌+◌, ◌*◌, ◌/◌, ◌%◌, ◌^◌, ◌<◌, ◌≡◌, ltb, ◌==◌, if◌then◌else◌, arith, ◌&&◌, ◌||◌,
}

-- `n` rounded to a multiple of `2 ^ e`, ties to the even multiple.
pub round_even : ℕ → ℕ → ℕ
round_even n e =
    let q = n / 2 ^ e in
    let r = n % 2 ^ e in
    if ltb (2 ^ e) (2 * r) || (2 * r == 2 ^ e && q % 2 == 1) then (q + 1) * 2 ^ e else q * 2 ^ e

-- The number of bits below the 53 that are kept, counted up from `e` with `d` rounds left.
pub exponent : ℕ → ℕ → ℕ → ℕ
exponent zero e n = e
exponent (suc d) e n = let more = exponent d (e + 1) n in if ltb n (2 ^ 53 * 2 ^ e) then e else more

-- `n as f64` for a `u64`: 11 rounds are enough, since 64 - 53 is 11.
unfoldable pub as_f64 : ℕ → ℕ
unfolding round_even exponent
as_f64 n = round_even n (exponent 11 0 n)

-- Below `2 ^ 53` the conversion is exact.
pub as_f64-eq_of_lt : (n : ℕ) → n < 2 ^ 53 → as_f64 n ≡ n
unfolding as_f64
as_f64-eq_of_lt n h = ground arith
