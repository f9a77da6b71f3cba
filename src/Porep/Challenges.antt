-- ===== src/Porep/Challenges.antt =====
-- The interactive and the non-interactive challenges of
-- storage-proofs-porep/src/stacked/vanilla/challenges.rs. SHA-256 is a parameter.
use rust_fil_proofs.Base.{
  ℕ, zero, suc, ◌+◌, ◌*◌, ◌%◌, List, [], ◌∷◌, ◌++◌, Result, ok, panic, ◌>>=◌, ◌==◌, if◌then◌else◌,
  u32, u64, sub64, le_bytes, from_le,
}

-- Nothing here returns an error: it is a panic or a result.
abbrev pub Outcome {ℓ} : Type ℓ → Type ℓ
Outcome A = Result ⊥ A

-- The lowest 32-bit digit is the remainder; a division by zero panics.
unfoldable pub bigint_to_challenge : ℕ → ℕ → Outcome ℕ
bigint_to_challenge bigint sector_nodes =
    if sub64 sector_nodes 1 == 0 then panic else ok (u32 (bigint % sub64 sector_nodes 1 + 1))

-- The index `j` over all partitions, as four bytes.
unfoldable pub challenge_bytes : ℕ → ℕ → ℕ → List ℕ
challenge_bytes challenges_per_partition k i =
    le_bytes 4 (u32 (u64 (u64 (challenges_per_partition * k) + i)))

module _ (sha256 : List ℕ → List ℕ) where
  unfoldable pub interactive_challenge : ℕ → ℕ → List ℕ → List ℕ → ℕ → ℕ → Outcome ℕ
  interactive_challenge challenges_per_partition sector_nodes replica_id seed k i =
      let hash = sha256 (replica_id ++ (seed ++ challenge_bytes challenges_per_partition k i)) in
      bigint_to_challenge (from_le hash) sector_nodes

  -- The bytes of "filecoin.io|PoRep|1|NonInteractive|1".
  abbrev pub tag : List ℕ
  tag =
      102 ∷ 105 ∷ 108 ∷ 101 ∷ 99 ∷ 111 ∷ 105 ∷ 110 ∷ 46 ∷ 105 ∷ 111 ∷ 124 ∷ 80 ∷ 111 ∷ 82 ∷ 101
      ∷ 112 ∷ 124 ∷ 49 ∷ 124 ∷ 78 ∷ 111 ∷ 110 ∷ 73 ∷ 110 ∷ 116 ∷ 101 ∷ 114 ∷ 97 ∷ 99 ∷ 116 ∷ 105
      ∷ 118 ∷ 101 ∷ 124 ∷ 49 ∷ []

  unfoldable pub ni_challenge : ℕ → ℕ → List ℕ → List ℕ → ℕ → ℕ → Outcome ℕ
  ni_challenge challenges_per_partition sector_nodes replica_id comm_r k i =
      let hash_init = tag ++ (replica_id ++ comm_r) in
      let hash = sha256 (hash_init ++ challenge_bytes challenges_per_partition k i) in
      bigint_to_challenge (from_le hash) sector_nodes

-- The map over `i..i + count` that collects its results.
unfoldable pub collect_range : (ℕ → Outcome ℕ) → ℕ → ℕ → Outcome (List ℕ)
collect_range f i zero = ok []
collect_range f i (suc count) = do x ← f i; xs ← collect_range f (i + 1) count; ok (x ∷ xs)

module _ (sha256 : List ℕ → List ℕ) where
  unfoldable pub derive_interactive : ℕ → ℕ → List ℕ → List ℕ → ℕ → Outcome (List ℕ)
  derive_interactive challenges_per_partition sector_nodes replica_id seed k =
      collect_range
        (interactive_challenge sha256 challenges_per_partition sector_nodes replica_id seed k) 0
        challenges_per_partition

  unfoldable pub derive_ni : ℕ → ℕ → List ℕ → List ℕ → ℕ → Outcome (List ℕ)
  derive_ni challenges_per_partition sector_nodes replica_id comm_r k =
      collect_range (ni_challenge sha256 challenges_per_partition sector_nodes replica_id comm_r k)
        0 challenges_per_partition
