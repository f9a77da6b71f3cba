-- ===== src/Update/Sizes.antt =====
-- The shape of an update proof at a sector of `2 ^ n` nodes, for the functions of
-- storage-proofs-update/src/constants.rs.
use native.Mathlib.Decide.{dec_le}
use rust_fil_proofs.Base.{ℕ, zero, suc, ◌*◌, ◌^◌, ◌/◌, ◌%◌, ◌<◌, ◌≤◌, ◌≡◌, refl, ap, arith}
use rust_fil_proofs.Base.Powers.{two_pow-suc, two_pow-le}
use rust_fil_proofs.Update.Constants.{partition_count, challenge_count}
use rust_fil_proofs.Update.Challenges.{trailing_zeros}

trailing_zeros-step : (bits m : ℕ) → trailing_zeros (suc bits) (2 * m) ≡ suc (trailing_zeros bits m)
unfolding trailing_zeros
trailing_zeros-step bits m =
    let e : 2 * m % 2 ≡ 0 = omega arith in let h : 2 * m / 2 ≡ m = omega arith in rw (e, h) refl

pub trailing_zeros-two_pow : (n bits : ℕ) → n < bits → trailing_zeros bits (2 ^ n) ≡ n
unfolding trailing_zeros
trailing_zeros-two_pow n zero h = absurd (omega arith)
trailing_zeros-two_pow zero (suc bits) h = refl
trailing_zeros-two_pow (suc n) (suc bits) h =
    rw (two_pow-suc n, trailing_zeros-step bits (2 ^ n))
      (ap suc (trailing_zeros-two_pow n bits (omega arith)))

-- A sector of `2 ^ n` nodes has `2 ^ p` partitions.
pub record SizeShape (n : ℕ) : Type 0 where
  pub p : ℕ
  pub partitions : partition_count (2 ^ n) ≡ 2 ^ p
  pub inside : p < n
  pub few : p ≤ 4
  pub some_challenges : 1 ≤ challenge_count (2 ^ n)
  pub few_challenges : challenge_count (2 ^ n) ≤ 86

count_cases : (s : ℕ) → (1 ≤ challenge_count s) × (challenge_count s ≤ 86)
unfolding challenge_count
count_cases s = (ground arith, ground arith)

partition_cases : (n : ℕ) → 5 ≤ n → (p : ℕ) × (partition_count (2 ^ n) ≡ 2 ^ p) × (p < n) × (p ≤ 4)
unfolding partition_count
partition_cases n h = elim (dec_le n 8) [
  | yes q ↦ (0, ground (arith, two_pow-le n 8 q), omega arith, omega arith)
  | no q ↦ elim (dec_le n 10) [
    | yes r ↦ (
      1,
      ground (arith, two_pow-le n 10 r, two_pow-le 9 n (omega arith)),
      omega arith,
      omega arith,
    )
    | no r ↦ elim (dec_le n 19) [
      | yes t ↦ (
        2,
        ground (arith, two_pow-le n 19 t, two_pow-le 11 n (omega arith)),
        omega arith,
        omega arith,
      )
      | no t ↦ (4, ground (arith, two_pow-le 20 n (omega arith)), omega arith, omega arith)
    ]
  ]
]

pub SizeShape-of_two_pow : (n : ℕ) → 5 ≤ n → SizeShape n
SizeShape-of_two_pow n h =
    let (p, e, i, f) = partition_cases n h in
    let (some_c, few_c) = count_cases (2 ^ n) in
    record {
      p = p;
      partitions = e;
      inside = i;
      few = f;
      some_challenges = some_c;
      few_challenges = few_c;
    }
