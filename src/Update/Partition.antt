-- ===== src/Update/Partition.antt =====
-- The challenges of one partition (storage-proofs-update/src/challenges.rs): how many, which, and
-- that they lie in the partition.
use native.Mathlib.Nat.{
  mod-lt, div-add-mod, mul-le-mul_right, div-mul-le_self, le-div_iff_mul-le, div-le_of_le-mul,
  mul-le-mul, zero-div, mul-div_cancel_left, zero-mod,
}
use rust_fil_proofs.Base.{
  ℕ, suc, ◌+◌, ◌-◌, ◌*◌, ◌/◌, ◌%◌, ◌^◌, ◌<◌, ◌≤◌, ◌≡◌, refl, ◌∙◌, arith, List, [], ok, ◌>>=◌, ◌==◌,
  u32, u64, sub64, ◌<<◌, lt→ltb, length, map, range_from, length-map, length-range_from, All,
  All-map_range, take, drop,
}
use rust_fil_proofs.Base.{Bool, false, length-take}
use rust_fil_proofs.Base.Powers.{two_pow-le, two_pow-sub, two_pow_pos}
use rust_fil_proofs.Update.Constants.{partition_count, challenge_count}
use rust_fil_proofs.Update.Challenges.{new, div_checked, ceil_div, collect, trailing_zeros}
use rust_fil_proofs.Update.Sizes.{SizeShape, SizeShape-of_two_pow, trailing_zeros-two_pow}
use rust_fil_proofs.Update.Yield.{challenge_at, at, collect_all, bits_value, bits_value-lt}

-- The `k`-th of the equal parts of a sector of `2 ^ n` nodes.
abbrev pub InPartition : ℕ → ℕ → ℕ → Type 0
InPartition n k c =
    (k * (2 ^ n / partition_count (2 ^ n)) ≤ c) × (c < (k + 1) * (2 ^ n / partition_count (2 ^ n)))

module _ (n : ℕ) (low : 5 ≤ n) (high : n ≤ 31) where
  shape : SizeShape n
  shape = SizeShape-of_two_pow n low

  abbrev rb : ℕ
  rb = n - shape.p

  abbrev cpd : ℕ
  cpd = 254 / rb

  abbrev count : ℕ
  count = challenge_count (2 ^ n)

  wide : 1 ≤ rb
  wide = omega (arith, shape.inside)

  narrow : rb ≤ 31
  narrow = omega arith

  per_digest : 1 ≤ cpd
  per_digest = ((le-div_iff_mul-le {k = rb} {x = 1} {y = 254} wide).1) (omega (arith, narrow))

  per_digest_fits : cpd * rb ≤ 254
  per_digest_fits = div-mul-le_self 254 rb

  digests_small : ceil_div count cpd ≤ 86
  unfolding ceil_div
  digests_small =
      let h : count + (cpd - 1) ≤ cpd * 86 = omega (arith, per_digest, shape.few_challenges) in
      let ne : (cpd == 0) ≡ false = ground (arith, per_digest) in rw ne (div-le_of_le-mul cpd h)

  partition_size : 2 ^ n ≡ 2 ^ shape.p * 2 ^ rb
  partition_size = omega (arith, two_pow-sub n shape.p (omega (arith, shape.inside)))

  module _ (k : ℕ) (h : k < partition_count (2 ^ n)) where
    k_small : k < 2 ^ shape.p
    k_small = rw (shape.partitions) at h

    end_lem : (k + 1) * 2 ^ rb ≤ 2 ^ n
    end_lem = rw partition_size (mul-le-mul_right (2 ^ rb) (omega (arith, k_small)))

    k_at_most : k < 16
    k_at_most = omega (arith, k_small, two_pow-le shape.p 4 shape.few)

    first_small : k * ceil_div count cpd ≤ 15 * 86
    first_small = mul-le-mul {n₂ = 15} (omega (arith, k_at_most)) digests_small

    bits_small : k * 2 ^ rb < 2 ^ 32
    bits_small = omega (arith, end_lem, two_pow-le n 31 high)

    new-at :
        {E : Type 0} (bits : ℕ → ℕ → List Bool) (comm : ℕ)
        → new {E = E} (2 ^ n) comm k
          ≡ ok (at bits comm rb cpd (k * ceil_div count cpd) k count 0 [])
    unfolding new div_checked
    new-at bits comm =
        let a = trailing_zeros-two_pow n 64 (omega arith) in
        let b : trailing_zeros 64 (partition_count (2 ^ n)) ≡ shape.p =
          rw shape.partitions (trailing_zeros-two_pow shape.p 64 (omega (arith, shape.few))) in
        let c : sub64 n shape.p ≡ rb = omega (arith, shape.inside) in
        let d : rb % 64 ≡ rb = omega (arith, narrow) in
        let e : (rb == 0) ≡ false = ground (arith, wide) in
        let g : u32 (u64 (k << rb)) ≡ k * 2 ^ rb = omega (arith, bits_small) in
        let i : u64 (k * ceil_div count cpd) ≡ k * ceil_div count cpd + 0 / cpd =
          omega (arith, first_small, zero-div cpd) in
        let z : count - 0 ≡ count = omega arith in
        rw (lt→ltb k (partition_count (2 ^ n)) h, a, b, c, d, e, g, i, zero-mod cpd, z) refl

    module _ (poseidon_bits : ℕ → ℕ → List Bool) (comm : ℕ) where
      abbrev ours : ℕ → ℕ
      ours = challenge_at poseidon_bits comm rb cpd (k * ceil_div count cpd) k

      ours-InPartition : (m : ℕ) → InPartition n k (ours m)
      ours-InPartition m =
          let place = m % cpd * rb in
          let bits = take rb (drop place (poseidon_bits comm (k * ceil_div count cpd + m / cpd))) in
          let short : length bits ≤ rb = omega (
            arith,
            length-take rb (drop place (poseidon_bits comm (k * ceil_div count cpd + m / cpd))),
          ) in
          let low : bits_value bits < 2 ^ rb =
            omega (arith, bits_value-lt bits, two_pow-le (length bits) rb short) in
          let size : 2 ^ n / partition_count (2 ^ n) ≡ 2 ^ rb =
            rw (shape.partitions, partition_size)
              (mul-div_cancel_left (2 ^ rb) (two_pow_pos shape.p)) in
          rw size (omega (arith, low), omega (arith, low))

      run :
          {E : Type 0}
          → ((comm d : ℕ) → 254 ≤ length (poseidon_bits comm d))
          → (new {E = E} (2 ^ n) comm k >>= collect poseidon_bits (suc count))
            ≡ ok (map ours (range_from 0 count))
      run full =
          rw
            (
              new-at poseidon_bits comm,
              collect_all poseidon_bits comm rb cpd (k * ceil_div count cpd) k count full wide
                  narrow per_digest per_digest_fits bits_small
                  (omega (arith, first_small, shape.few_challenges)),
            )
            refl

-- For a sector of `2 ^ n` nodes, `n` from 5 to 31, and one of its partitions: `new` and the calls of
-- `next` end without a panic (a digest has 254 bits or more), and yield `challenge_count`
-- challenges, all of them in that partition's part of the nodes.
pub collect-InPartition :
    (poseidon_bits : ℕ → ℕ → List Bool) (n k comm : ℕ)
    → ((comm d : ℕ) → 254 ≤ length (poseidon_bits comm d))
    → 5 ≤ n
    → n ≤ 31
    → k < partition_count (2 ^ n)
    → (cs : List ℕ) × ((new {E = ⊥} (2 ^ n) comm k
          >>= collect poseidon_bits (suc (challenge_count (2 ^ n))))
        ≡ ok cs)
      × (length cs ≡ challenge_count (2 ^ n))
      × All (InPartition n k) cs
collect-InPartition poseidon_bits n k comm full low high h =
    let count = challenge_count (2 ^ n) in
    let c = ours n low high k h poseidon_bits comm in
    (
      map c (range_from 0 count),
      run n low high k h poseidon_bits comm full,
      length-map c (range_from 0 count) ∙ length-range_from 0 count,
      All-map_range (InPartition n k) c 0 count
          (ours-InPartition n low high k h poseidon_bits comm),
    )

digest_in_range : (m count c : ℕ) → m < count → 1 ≤ c → m / c < ceil_div count c
unfolding ceil_div
digest_in_range m count c q p =
    let ne : (c == 0) ≡ false = ground arith in
    rw ne (omega (arith, div-add-mod m c, mod-lt m p, div_step))
  where
    div_step : m / c + 1 ≤ (count + (c - 1)) / c
    div_step =
        ((le-div_iff_mul-le {k = c} {x = m / c + 1} {y = count + (c - 1)} p).1)
          (omega (arith, div-mul-le_self m c))

-- For a sector of `2 ^ n` nodes, `n` from 5 to 31, one of its partitions and digests of 254 bits or
-- more, the challenges are, in order: for the `m`-th one, `rb` bits of the digest of number
-- `k * digests + m / per_digest` at place `m % per_digest`, read as a number, below the bits of
-- `k`. Here `2 ^ rb` nodes are a partition, `per_digest` is `254 / rb`, and `m / per_digest` is
-- below `digests`, so no two partitions use the same digest.
pub collect-closed :
    (poseidon_bits : ℕ → ℕ → List Bool) (n k comm : ℕ)
    → ((comm d : ℕ) → 254 ≤ length (poseidon_bits comm d))
    → 5 ≤ n
    → n ≤ 31
    → k < partition_count (2 ^ n)
    → (rb : ℕ) × (2 ^ n ≡ partition_count (2 ^ n) * 2 ^ rb)
      × ((new {E = ⊥} (2 ^ n) comm k >>= collect poseidon_bits (suc (challenge_count (2 ^ n))))
          ≡ ok (
              map
                (challenge_at poseidon_bits comm rb
                  (254 / rb)
                  (k * ceil_div (challenge_count (2 ^ n)) (254 / rb))
                  k)
                (range_from 0 (challenge_count (2 ^ n)))))
      × ((m : ℕ)
          → m < challenge_count (2 ^ n)
          → m / (254 / rb) < ceil_div (challenge_count (2 ^ n)) (254 / rb))
collect-closed poseidon_bits n k comm full low high h = (
  rb n low high,
  rw ((shape n low high).partitions) (partition_size n low high),
  run n low high k h poseidon_bits comm full,
  λ m q. digest_in_range m (challenge_count (2 ^ n)) (cpd n low high) q (per_digest n low high),
)
