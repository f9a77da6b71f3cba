-- ===== src/Porep/Proofs.antt =====
-- storage-proofs-porep/src/stacked/vanilla: the proofs and their verification of params.rs, and
-- `verify_all_partitions` of proof_scheme.rs.
use rust_fil_proofs.Base.{
  ℕ, zero, suc, ◌+◌, ◌-◌, Bool, true, false, List, [], ◌∷◌, Option, none, some, Result, ok, err,
  panic, stuck, ◌>>=◌, ◌>>◌, ensure, assert, ltb, ◌==◌, if◌then◌else◌, u8, u32, length, replicate,
  get_elem?, bytes_eq,
}
use rust_fil_proofs.Graph.Bucket.{GraphError}
use rust_fil_proofs.Graph.Stacked.{StackedGraph, stacked_parents}
use rust_fil_proofs.Porep.Challenges.{Outcome, derive_interactive, derive_ni}
use rust_fil_proofs.Porep.Synthetic.{derive_synth, derive_synthetic}
use rust_fil_proofs.Porep.Labeling.{
  Domain, StackedError, no_seed, Externals, Field, LabelingProof, EncodingProof, verify_labeling,
  verify_encoding, Column, get_node_at_layer, or_panic, MerkleProof, proves_challenge, ColumnProof,
  check, check_result, verify_column,
}

abbrev pub total_parents : ℕ
total_parents = 37

pub record Tau : Type 0 where
  pub comm_d : Domain
  pub comm_r : Domain

-- The number of challenges of a partition.
pub data Challenges : Type 0 where
  interactive synth ni : ℕ → Challenges

pub record PublicParams : Type 0 where
  pub graph : StackedGraph
  pub challenges : Challenges
  pub num_layers : ℕ

pub record PublicInputs : Type 0 where
  pub replica_id : Domain
  pub seed : Option Domain
  pub tau : Option Tau
  pub k : Option ℕ

pub record ReplicaColumnProof (P : Type 0) : Type 0 where
  pub c_x : ColumnProof P
  pub drg_parents : List (ColumnProof P)
  pub exp_parents : List (ColumnProof P)

-- `PD` are the proofs of inclusion in the tree of the data, `P` those of the other trees.
pub record Proof (PD P : Type 0) : Type 0 where
  pub comm_d_proofs : PD
  pub comm_r_last_proof : P
  pub replica_column_proofs : ReplicaColumnProof P
  pub labeling_proofs : List LabelingProof
  pub encoding_proof : EncodingProof

-- `expect`, on a result of the graph and on an option.
abbrev pub expect_graph {ℓ} : {A : Type ℓ} → Result GraphError A → Result StackedError A
expect_graph (ok a) = ok a
expect_graph (err e) = panic
expect_graph panic = panic
expect_graph stuck = stuck

abbrev pub of_outcome {ℓ} : {A : Type ℓ} → Outcome A → Result StackedError A
of_outcome (ok a) = ok a
of_outcome (err e) = absurd e
of_outcome panic = panic
of_outcome stuck = stuck

abbrev pub size : StackedGraph → ℕ
size g = g.base_graph.nodes

module _ (ext : Externals) {P : Type 0} (merkle : MerkleProof P) where
  -- The columns with their parents, as long as there are both.
  unfoldable pub verify_columns : List (ColumnProof P) → List ℕ → Domain → Result StackedError Bool
  verify_columns [] parents expected_comm_c = ok true
  verify_columns (proof ∷ proofs) [] expected_comm_c = ok true
  verify_columns (proof ∷ proofs) (parent ∷ parents) expected_comm_c =
      check_result (verify_column ext merkle proof parent expected_comm_c)
        (verify_columns proofs parents expected_comm_c)

  -- The parents behind the first `n`.
  unfoldable pub skip : ℕ → List ℕ → List ℕ
  skip zero parents = parents
  skip (suc n) [] = []
  skip (suc n) (p ∷ parents) = skip n parents

  unfoldable pub verify_replica_columns :
      ReplicaColumnProof P → ℕ → List ℕ → Result StackedError Bool
  verify_replica_columns proof challenge parents =
      let expected_comm_c = merkle.root proof.c_x.inclusion_proof in
      check_result (verify_column ext merkle proof.c_x (u32 challenge) expected_comm_c) (
        check_result (verify_columns proof.drg_parents parents expected_comm_c) (
          verify_columns proof.exp_parents (skip (length proof.drg_parents) parents)
            expected_comm_c))

module _ (ext : Externals) {PD P F : Type 0} (merkle_d : MerkleProof PD) (merkle : MerkleProof P)
    (field : Field F) where
  unfoldable pub comm_r_last : Proof PD P → Domain
  comm_r_last proof = merkle.root proof.comm_r_last_proof

  unfoldable pub comm_c : Proof PD P → Domain
  comm_c proof = merkle.root proof.replica_column_proofs.c_x.inclusion_proof

  abbrev pub verify_label : Option LabelingProof → Column → Domain → ℕ → Result StackedError Bool
  verify_label none column replica_id layer = ok false
  verify_label (some labeling_proof) column replica_id layer = do
    labeled_node ← get_node_at_layer column layer
    verify_labeling ext labeling_proof replica_id labeled_node

  -- The loop over the layers, from `layer` on, `count` of them.
  unfoldable pub verify_labels :
      ℕ → ℕ → List LabelingProof → Column → Domain → Result StackedError Bool
  verify_labels layer zero labeling_proofs column replica_id = ok true
  verify_labels layer (suc count) labeling_proofs column replica_id =
      check_result (verify_label (get_elem? labeling_proofs (layer - 1)) column replica_id layer)
        (verify_labels (layer + 1) count labeling_proofs column replica_id)

  unfoldable pub verify_final_replica_layer : Proof PD P → ℕ → Result StackedError Bool
  verify_final_replica_layer proof challenge =
      check (proves_challenge merkle proof.comm_r_last_proof challenge) (ok true)

  abbrev pub verify_with_tau :
      Proof PD P → PublicParams → Domain → Option Tau → ℕ → StackedGraph → Result StackedError Bool
  verify_with_tau proof pub_params replica_id none challenge graph = ok false
  verify_with_tau proof pub_params replica_id (some tau) challenge graph =
      check (proves_challenge merkle_d proof.comm_d_proofs challenge) (
        check (bytes_eq (merkle_d.root proof.comm_d_proofs) tau.comm_d) (do
          parents ← expect_graph (
              stacked_parents ext.blake2b ext.rng ext.log2_ceil graph challenge
                (replicate (graph.base_graph.base_degree + graph.expansion_degree) 0))
          check_result
              (verify_replica_columns ext merkle proof.replica_column_proofs challenge parents)
              (check_result (verify_final_replica_layer proof challenge) (
                check_result
                  (verify_labels 1 pub_params.num_layers proof.labeling_proofs
                    proof.replica_column_proofs.c_x.column replica_id)
                  (check_result
                    (verify_encoding ext field proof.encoding_proof replica_id
                      (merkle.leaf proof.comm_r_last_proof) (merkle_d.leaf proof.comm_d_proofs))
                    (ok true))))))

  unfoldable pub verify_proof :
      Proof PD P → PublicParams → PublicInputs → ℕ → StackedGraph → Result StackedError Bool
  verify_proof proof pub_params pub_inputs challenge graph =
      check (ltb challenge (size graph))
        (verify_with_tau proof pub_params pub_inputs.replica_id pub_inputs.tau challenge graph)

  -- `PublicInputs::challenges`.
  abbrev pub synth_challenges_of :
      ℕ → Domain → Option Domain → Domain → ℕ → ℕ → Result StackedError (List ℕ)
  synth_challenges_of count replica_id (some seed) comm_r sector_nodes k = of_outcome (
      derive_synth ext.keyed_blake2b ext.keystream count sector_nodes replica_id comm_r seed (u8 k))
  synth_challenges_of count replica_id none comm_r sector_nodes k = do
    assert (k == 0)
    of_outcome (derive_synthetic ext.keyed_blake2b ext.keystream sector_nodes replica_id comm_r)

  abbrev pub or_zero : Option ℕ → ℕ
  or_zero none = 0
  or_zero (some k) = k

  unfoldable pub challenges_of :
      PublicInputs → Challenges → ℕ → Option ℕ → Result StackedError (List ℕ)
  challenges_of pub_inputs (interactive count) sector_nodes k = do
    seed ← or_panic pub_inputs.seed
    of_outcome (
        derive_interactive ext.sha256 count sector_nodes pub_inputs.replica_id seed
          (u8 (or_zero k)))
  challenges_of pub_inputs (synth count) sector_nodes k = do
    tau ← or_panic pub_inputs.tau
    synth_challenges_of count pub_inputs.replica_id pub_inputs.seed tau.comm_r sector_nodes
        (or_zero k)
  challenges_of pub_inputs (ni count) sector_nodes k = do
    tau ← or_panic pub_inputs.tau
    of_outcome
        (derive_ni ext.sha256 count sector_nodes pub_inputs.replica_id tau.comm_r (u8 (or_zero k)))

  -- The proofs of a partition with their challenges; `first` is the partition's first proof.
  unfoldable pub verify_partition :
      PublicParams
      → PublicInputs
      → Proof PD P
      → List (Proof PD P)
      → List ℕ
      → Result StackedError Bool
  verify_partition pub_params pub_inputs first [] challenges = ok true
  verify_partition pub_params pub_inputs first (proof ∷ proofs) [] = panic
  verify_partition pub_params pub_inputs first (proof ∷ proofs) (challenge ∷ challenges) =
      check_result
        (check (bytes_eq (comm_c proof) (comm_c first)) (
          check (bytes_eq (comm_r_last proof) (comm_r_last first))
            (verify_proof proof pub_params pub_inputs challenge pub_params.graph)))
        (verify_partition pub_params pub_inputs first proofs challenges)

  -- The partitions, from the `k`-th on.
  unfoldable pub verify_partitions :
      PublicParams → PublicInputs → Domain → ℕ → List (List (Proof PD P)) → Result StackedError Bool
  verify_partitions pub_params pub_inputs expected_comm_r k [] = ok true
  verify_partitions pub_params pub_inputs expected_comm_r k ([] ∷ partitions) = panic
  verify_partitions pub_params pub_inputs expected_comm_r k ((first ∷ proofs) ∷ partitions) =
      check_result
        (check (bytes_eq expected_comm_r (ext.hash2 (comm_c first) (comm_r_last first))) (do
          challenges ←
              challenges_of pub_inputs pub_params.challenges (size pub_params.graph) (some k)
          check (length (first ∷ proofs) == length challenges)
              (verify_partition pub_params pub_inputs first (first ∷ proofs) challenges)))
        (verify_partitions pub_params pub_inputs expected_comm_r (k + 1) partitions)

  -- `skip_synth_verification`.
  abbrev pub only_generated : Challenges → Option Domain → Bool
  only_generated (synth count) none = true
  only_generated (synth count) (some seed) = false
  only_generated (interactive count) seed = false
  only_generated (ni count) seed = false

  abbrev pub is_some : {A : Type 0} → Option A → Bool
  is_some none = false
  is_some (some a) = true

  abbrev pub verify_all_with_tau :
      PublicParams → PublicInputs → Option Tau → List (List (Proof PD P)) → Result StackedError Bool
  verify_all_with_tau pub_params pub_inputs none partition_proofs = ok false
  verify_all_with_tau pub_params pub_inputs (some tau) partition_proofs =
      let checked = (do
        ensure (is_some pub_inputs.seed) no_seed
        verify_partitions pub_params pub_inputs tau.comm_r 0 partition_proofs) in
      if only_generated pub_params.challenges pub_inputs.seed then ok true else checked

  unfoldable pub verify_porep_partitions :
      PublicParams → PublicInputs → List (List (Proof PD P)) → Result StackedError Bool
  verify_porep_partitions pub_params pub_inputs partition_proofs =
      verify_all_with_tau pub_params pub_inputs pub_inputs.tau partition_proofs
