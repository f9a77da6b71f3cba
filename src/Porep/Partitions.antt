-- ===== src/Porep/Partitions.antt =====
-- The interactive and the non-interactive challenges in `prove_layers` of
-- storage-proofs-porep/src/stacked/vanilla/proof.rs: one list of proofs for each partition.
use rust_fil_proofs.Base.{
  ℕ, zero, suc, ◌+◌, List, [], ◌∷◌, Result, ok, ◌>>=◌, ◌>>◌, assert, ltb, u8,
}
use rust_fil_proofs.Graph.Stacked.{StackedGraph}
use rust_fil_proofs.Porep.Challenges.{derive_interactive, derive_ni}
use rust_fil_proofs.Porep.Labeling.{Domain, StackedError, Externals, or_panic, MerkleProof}
use rust_fil_proofs.Porep.Proofs.{PublicInputs, Proof, size, of_outcome}
use rust_fil_proofs.Porep.Layers.{ProofTree, TemporaryAuxCache, Detector, prove_layers_generate}

module _ (ext : Externals) (detected : Detector) {TD PD T P : Type 0} (trees_d : ProofTree TD PD)
    (merkle_d : MerkleProof PD) (trees : ProofTree T P) (merkle : MerkleProof P) where
  -- The partitions from the `k`-th on, with the challenges that `derive` gives for each.
  unfoldable pub prove_partitions :
      (ℕ → Result StackedError (List ℕ))
      → StackedGraph
      → PublicInputs
      → Domain
      → TemporaryAuxCache TD T
      → ℕ
      → ℕ
      → ℕ
      → Result StackedError (List (List (Proof PD P)))
  prove_partitions derive graph pub_inputs comm_c t_aux num_layers k zero = ok []
  prove_partitions derive graph pub_inputs comm_c t_aux num_layers k (suc count) = do
    challenge_positions ← derive k
    proofs ←
        prove_layers_generate ext detected trees_d merkle_d trees merkle graph pub_inputs comm_c
          t_aux challenge_positions num_layers
    rest ← prove_partitions derive graph pub_inputs comm_c t_aux num_layers (k + 1) count
    ok (proofs ∷ rest)

  -- `Challenges::Interactive`, with the challenges of a partition.
  unfoldable pub prove_interactive :
      ℕ
      → StackedGraph
      → PublicInputs
      → Domain
      → TemporaryAuxCache TD T
      → ℕ
      → ℕ
      → Result StackedError (List (List (Proof PD P)))
  prove_interactive challenges graph pub_inputs comm_c t_aux num_layers partition_count = do
    assert (ltb 0 num_layers)
    tau ← or_panic pub_inputs.tau
    seed ← or_panic pub_inputs.seed
    prove_partitions
        (λ k.
          of_outcome (
            derive_interactive ext.sha256 challenges (size graph) pub_inputs.replica_id seed
              (u8 k)))
        graph pub_inputs comm_c t_aux num_layers 0 partition_count

  -- `Challenges::Ni`.
  unfoldable pub prove_ni :
      ℕ
      → StackedGraph
      → PublicInputs
      → Domain
      → TemporaryAuxCache TD T
      → ℕ
      → ℕ
      → Result StackedError (List (List (Proof PD P)))
  prove_ni challenges graph pub_inputs comm_c t_aux num_layers partition_count = do
    assert (ltb 0 num_layers)
    tau ← or_panic pub_inputs.tau
    prove_partitions
        (λ k.
          of_outcome
            (derive_ni ext.sha256 challenges (size graph) pub_inputs.replica_id tau.comm_r (u8 k)))
        graph pub_inputs comm_c t_aux num_layers 0 partition_count
