-- ===== src/Porep/Interactive.antt =====
-- Where the interactive and the non-interactive challenges lie
-- (storage-proofs-porep/src/stacked/vanilla/challenges.rs).
use native.Mathlib.Nat.{mod-lt}
use rust_fil_proofs.Base.{
  ℕ, zero, suc, ◌+◌, ◌-◌, ◌%◌, ◌^◌, ◌<◌, ◌≤◌, ◌≡◌, refl, ap, arith, List, [], ◌∷◌, ◌++◌, length,
  All, ok, from_le,
}
use rust_fil_proofs.Porep.Challenges.{
  Outcome, bigint_to_challenge, challenge_bytes, tag, interactive_challenge, ni_challenge,
  collect_range, derive_interactive, derive_ni,
}
use rust_fil_proofs.Porep.Selected.{bigint_to_challenge-eq}

-- A node of the sector that is not the first.
abbrev pub IsChallenge : ℕ → ℕ → Type 0
IsChallenge nodes c = (1 ≤ c) × (c < nodes)

module _ (nodes : ℕ) (low : 2 ≤ nodes) (high : nodes < 2 ^ 32) where
  challenge_lem : (b : ℕ) → (c : ℕ) × (bigint_to_challenge b nodes ≡ ok c) × IsChallenge nodes c
  challenge_lem b =
      let p : 0 < nodes - 1 = omega arith in
      (
        b % (nodes - 1) + 1,
        bigint_to_challenge-eq b nodes low high,
        (omega arith, omega (arith, mod-lt b p)),
      )

  collect_range-All :
      (f : ℕ → Outcome ℕ) (i count : ℕ)
      → ((n : ℕ) → (c : ℕ) × (f n ≡ ok c) × IsChallenge nodes c)
      → (cs : List ℕ) × (collect_range f i count ≡ ok cs)
        × (length cs ≡ count)
        × All (IsChallenge nodes) cs
  unfolding collect_range
  collect_range-All f i zero h = ([], refl, refl, tt)
  collect_range-All f i (suc count) h =
      let (c, e, p) = h i in
      let (cs, es, size, ps) = collect_range-All f (i + 1) count h in
      (c ∷ cs, rw (e, es) refl, ap suc size, (p, ps))

-- For a sector of 2 to `2 ^ 32 - 1` nodes, `derive` of both the interactive and the non-interactive
-- challenges returns as many challenges as a partition has, each a node other than the first.
pub derive_interactive-IsChallenge :
    (sha256 : List ℕ → List ℕ) (challenges_per_partition nodes : ℕ) (replica_id other : List ℕ)
    (k : ℕ)
    → 2 ≤ nodes
    → nodes < 2 ^ 32
    → ((cs : List ℕ) × (derive_interactive sha256 challenges_per_partition nodes replica_id other k
          ≡ ok cs)
        × (length cs ≡ challenges_per_partition)
        × All (IsChallenge nodes) cs)
      × ((cs : List ℕ) × (derive_ni sha256 challenges_per_partition nodes replica_id other k
            ≡ ok cs)
          × (length cs ≡ challenges_per_partition)
          × All (IsChallenge nodes) cs)
unfolding derive_interactive derive_ni interactive_challenge ni_challenge
derive_interactive-IsChallenge sha256 n nodes replica_id other k low high = (
  collect_range-All nodes low high (interactive_challenge sha256 n nodes replica_id other k) 0 n
      (λ i.
        challenge_lem nodes low high
          (from_le (sha256 (replica_id ++ (other ++ challenge_bytes n k i))))),
  collect_range-All nodes low high (ni_challenge sha256 n nodes replica_id other k) 0 n (λ i.
      challenge_lem nodes low high
        (from_le (sha256 ((tag sha256 ++ (replica_id ++ other)) ++ challenge_bytes n k i)))),
)
