-- ===== src/Update/Tests.antt =====
-- The challenges of storage-proofs-update/src/challenges.rs at small sectors, with made-up digests,
-- and the tables of storage-proofs-update/src/constants.rs at their edges.
use rust_fil_proofs.Base.{
  ℕ, suc, ◌+◌, ◌*◌, ◌^◌, ◌/◌, ◌%◌, ◌<◌, ◌≤◌, ◌≡◌, refl, arith, Bool, List, some, none, ok, ◌>>=◌,
  ◌==◌, length, map, range_from, length-map, length-range_from, All,
}
use rust_fil_proofs.Update.Constants.{
  partition_count, challenge_count, h_default, h_select, hs, position, apex_leaf_count,
  arities_expected, sector_size_8_kib, sector_size_32_gib,
}
use rust_fil_proofs.Update.Challenges.{new, collect, ceil_div}
use rust_fil_proofs.Update.Yield.{challenge_at}
use rust_fil_proofs.Update.Partition.{InPartition, collect-InPartition, collect-closed}

abbrev toy_bits : ℕ → ℕ → List Bool
toy_bits comm d = map (λ i. (i + comm * d) % 3 == 0) (range_from 0 256)

toy_bits_full : (comm d : ℕ) → 254 ≤ length (toy_bits comm d)
toy_bits_full comm d = omega (
  arith,
  length-map (λ (i : ℕ). (i + comm * d) % 3 == 0) (range_from 0 256),
  length-range_from 0 256,
)

second_partition : 1 < partition_count (2 ^ 9)
unfolding partition_count
second_partition = omega arith

h_default_32_gib : h_default sector_size_32_gib ≡ some 10
unfolding h_default hs
h_default_32_gib = refl

h_select_32_gib : h_select sector_size_32_gib 10 ≡ some 8
unfolding h_select hs position
h_select_32_gib = refl

apex_leaf_count_8_kib : apex_leaf_count sector_size_8_kib ≡ 8
unfolding apex_leaf_count
apex_leaf_count_8_kib = refl

no_shape_of_three_nodes : arities_expected 3 ≡ none
unfolding arities_expected
no_shape_of_three_nodes = refl

collect-InPartition_example :
    (cs : List ℕ) × ((new {E = ⊥} (2 ^ 9) 7 1 >>= collect toy_bits (suc (challenge_count (2 ^ 9))))
      ≡ ok cs)
    × (length cs ≡ challenge_count (2 ^ 9))
    × All (InPartition 9 1) cs
collect-InPartition_example =
    collect-InPartition toy_bits 9 1 7 toy_bits_full (omega arith) (omega arith) second_partition

collect-closed_example :
    (rb : ℕ) × (2 ^ 9 ≡ partition_count (2 ^ 9) * 2 ^ rb)
    × ((new {E = ⊥} (2 ^ 9) 7 1 >>= collect toy_bits (suc (challenge_count (2 ^ 9))))
        ≡ ok (
            map
              (challenge_at toy_bits 7 rb
                (254 / rb)
                (1 * ceil_div (challenge_count (2 ^ 9)) (254 / rb))
                1)
              (range_from 0 (challenge_count (2 ^ 9)))))
    × ((m : ℕ)
        → m < challenge_count (2 ^ 9)
        → m / (254 / rb) < ceil_div (challenge_count (2 ^ 9)) (254 / rb))
collect-closed_example =
    collect-closed toy_bits 9 1 7 toy_bits_full (omega arith) (omega arith) second_partition
