-- ===== src/Porep/Layers.antt =====
-- `prove_layers_generate` of storage-proofs-porep/src/stacked/vanilla/proof.rs, with the caches of
-- labels of params.rs and column proofs of column.rs. The challenges and parents of a parallel
-- iterator are taken in order. The validations that the thread pool runs beside the main thread
-- are a list of outcomes; `detected` says which failures the main thread finds recorded when it looks.
use rust_fil_proofs.Base.{
  ℕ, zero, suc, ◌+◌, ◌-◌, Bool, not, List, [], ◌∷◌, ◌++◌, Option, none, some, Result, ok, err,
  panic, stuck, ◌>>=◌, ◌>>◌, ensure, assert, ltb, leb, ◌==◌, if◌then◌else◌, u32, length, replicate,
  get_elem?, bytes_eq, take, min,
}
use rust_fil_proofs.Graph.Bucket.{GraphError, parents}
use rust_fil_proofs.Graph.Stacked.{StackedGraph, stacked_parents, generate_expanded_parents}
use rust_fil_proofs.Porep.Labeling.{
  Domain, StackedError, invalid_comm_d, invalid_comm_r, invalid_encoding_proof, store_error,
  tree_error, graph_error, Externals, LabelingProof, verify_labeling, Column, get_node_at_layer,
  or_panic, MerkleProof, validate, ColumnProof,
}
use rust_fil_proofs.Porep.Proofs.{total_parents, PublicInputs, Proof, ReplicaColumnProof, size}

-- A tree with its root, and the proofs that it generates.
pub record ProofTree (T P : Type 0) : Type 0 where
  pub gen_proof : T → ℕ → Option P
  pub tree_root : T → Domain

-- `TemporaryAuxCache`, of which the stores of labels are lists.
pub record TemporaryAuxCache (TD T : Type 0) : Type 0 where
  pub labels : List (List Domain)
  pub tree_d : Option TD
  pub tree_c : Option T
  pub tree_r_last : T

-- `read_at` of a store.
unfoldable pub read_at : List Domain → ℕ → Result StackedError Domain
read_at [] i = err store_error
read_at (x ∷ store) zero = ok x
read_at (x ∷ store) (suc i) = read_at store i

-- `labels_for_layer` of the cache.
unfoldable pub labels_for_layer : List (List Domain) → ℕ → Result StackedError (List Domain)
labels_for_layer labels layer = do
  assert (not (layer == 0))
  assert (leb layer (length labels))
  or_panic (get_elem? labels (layer - 1))

unfoldable pub domain_node_at_layer : List (List Domain) → ℕ → ℕ → Result StackedError Domain
domain_node_at_layer labels layer node = do
  store ← labels_for_layer labels layer
  read_at store node

unfoldable pub read_rows : List (List Domain) → ℕ → Result StackedError (List Domain)
read_rows [] node = ok []
read_rows (store ∷ labels) node = do
  row ← read_at store node
  rows ← read_rows labels node
  ok (row ∷ rows)

unfoldable pub column_of : List (List Domain) → ℕ → Result StackedError Column
column_of labels node = do rows ← read_rows labels node; ok (record { index = node; rows = rows })

unfoldable pub columns_of : List (List Domain) → List ℕ → Result StackedError (List Column)
columns_of labels [] = ok []
columns_of labels (parent ∷ parents) = do
  column ← column_of labels parent
  rest ← columns_of labels parents
  ok (column ∷ rest)

-- A proof that the tree cannot generate is an error.
abbrev pub generated {ℓ} : {P : Type ℓ} → Option P → Result StackedError P
generated none = err tree_error
generated (some p) = ok p

abbrev pub of_graph {ℓ} : {A : Type ℓ} → Result GraphError A → Result StackedError A
of_graph (ok a) = ok a
of_graph (err e) = err (graph_error e)
of_graph panic = panic
of_graph stuck = stuck

-- The chunks of the buffer for all parents, filled with the parents again and again; `remaining`
-- places are left. A chunk of size 0 panics.
unfoldable pub fill_chunks : ℕ → List Domain → ℕ → Result StackedError (List Domain)
fill_chunks zero parents_data zero = ok []
fill_chunks zero parents_data (suc remaining) = stuck
fill_chunks (suc fuel) parents_data remaining = do
  let rest = fill_chunks fuel parents_data (remaining - min (length parents_data) remaining)
  if remaining == 0 then ok [] else (do
    filled ← rest
    ok (take (min (length parents_data) remaining) parents_data ++ filled))

unfoldable pub repeat_parents : List Domain → Result StackedError (List Domain)
repeat_parents parents_data = do
  assert (not (length parents_data == 0))
  fill_chunks total_parents parents_data total_parents

-- The outcomes of the validations so far, each list for one of the three flags.
pub record Jobs : Type 0 where
  pub comm_d : List Bool
  pub comm_r : List Bool
  pub encoding : List Bool

pub data Flag : Type 0 where
  flag_comm_d flag_comm_r flag_encoding : Flag

-- What the main thread finds in a flag at a layer of a challenge.
abbrev pub Detector : Type 0
Detector = Flag → ℕ → ℕ → List Bool → Bool

unfoldable pub check_flags : Detector → ℕ → ℕ → Jobs → Result StackedError (Unit {0})
check_flags detected challenge_index layer jobs = do
  ensure (not (detected flag_comm_d challenge_index layer jobs.comm_d)) invalid_comm_d
  ensure (not (detected flag_comm_r challenge_index layer jobs.comm_r)) invalid_comm_r
  ensure (not (detected flag_encoding challenge_index layer jobs.encoding)) invalid_encoding_proof

module _ {T P : Type 0} (trees : ProofTree T P) where
  unfoldable pub into_proof : T → Column → Result StackedError (ColumnProof P)
  into_proof tree_c column = do
    inclusion_proof ← generated (trees.gen_proof tree_c column.index)
    ok (record { column = column; inclusion_proof = inclusion_proof })

  unfoldable pub into_proofs : T → List Column → Result StackedError (List (ColumnProof P))
  into_proofs tree_c [] = ok []
  into_proofs tree_c (column ∷ columns) = do
    proof ← into_proof tree_c column
    proofs ← into_proofs tree_c columns
    ok (proof ∷ proofs)

module _ (ext : Externals) where
  unfoldable pub get_drg_parents_columns :
      StackedGraph → List (List Domain) → ℕ → Result StackedError (List Column)
  get_drg_parents_columns graph labels x = do
    drg_parents ← of_graph (
        parents ext.rng ext.log2_ceil graph.base_graph x (replicate graph.base_graph.base_degree 0))
    columns_of labels drg_parents

  unfoldable pub get_exp_parents_columns :
      StackedGraph → List (List Domain) → ℕ → Result StackedError (List Column)
  get_exp_parents_columns graph labels x = do
    exp_parents ←
        of_graph
          (generate_expanded_parents ext.blake2b graph x 0 (replicate graph.expansion_degree 0))
    columns_of labels exp_parents

  -- The labels of the parents from the `i`-th on; the first `base_count` are of the layer, the
  -- others of the layer before.
  unfoldable pub parent_labels :
      List (List Domain) → ℕ → ℕ → ℕ → List ℕ → Result StackedError (List Domain)
  parent_labels labels layer base_count i [] = ok []
  parent_labels labels layer base_count i (parent ∷ parents) = do
    label ← domain_node_at_layer labels (if ltb i base_count then layer else layer - 1) parent
    rest ← parent_labels labels layer base_count (i + 1) parents
    ok (label ∷ rest)

  unfoldable pub parents_data_at :
      StackedGraph → List (List Domain) → ℕ → ℕ → Result StackedError (List Domain)
  parents_data_at graph labels layer challenge =
      if layer == 1
      then (do
        drg_parents ← of_graph (
            parents ext.rng ext.log2_ceil graph.base_graph challenge
              (replicate graph.base_graph.base_degree 0))
        parent_labels labels layer (length drg_parents) 0 drg_parents)
      else (do
        all_parents ← of_graph (
            stacked_parents ext.blake2b ext.rng ext.log2_ceil graph challenge
              (replicate (graph.base_graph.base_degree + graph.expansion_degree) 0))
        parent_labels labels layer graph.base_graph.base_degree 0 all_parents)

  unfoldable pub parents_data_full_at :
      StackedGraph → List (List Domain) → ℕ → ℕ → Result StackedError (List Domain)
  parents_data_full_at graph labels layer challenge = do
    parents_data ← parents_data_at graph labels layer challenge
    repeat_parents parents_data

  -- The loop over the layers, from `layer` on, `count` of them: the labeling proofs, the parents of
  -- the last layer, and the jobs.
  unfoldable pub prove_labels :
      Detector
      → StackedGraph
      → List (List Domain)
      → Domain
      → Column
      → ℕ
      → ℕ
      → Jobs
      → ℕ
      → ℕ
      → List Domain
      → Result StackedError (List LabelingProof × List Domain × Jobs)
  prove_labels detected graph labels replica_id c_x challenge_index challenge jobs layer zero last =
      ok ([], last, jobs)
  prove_labels detected graph labels replica_id c_x challenge_index challenge jobs layer (suc count)
        last =
      do
        parents_data_full ← parents_data_full_at graph labels layer challenge
        let proof : LabelingProof = record {
          parents = parents_data_full;
          layer_index = u32 layer;
          node = challenge;
        }
        labeled_node ← get_node_at_layer c_x layer
        valid ← verify_labeling ext proof replica_id labeled_node
        let more : Jobs = record {
          comm_d = jobs.comm_d;
          comm_r = jobs.comm_r;
          encoding = valid ∷ jobs.encoding;
        }
        check_flags detected challenge_index layer more
        (proofs, final, after) ←
            prove_labels detected graph labels replica_id c_x challenge_index challenge more
              (layer + 1) count parents_data_full
        ok (proof ∷ proofs, final, after)

module _ (ext : Externals) {T P : Type 0} (trees : ProofTree T P) where
  -- The part of a challenge's proof before the layers.
  unfoldable pub open_columns :
      {TD : Type 0}
      → StackedGraph
      → Domain
      → TemporaryAuxCache TD T
      → ℕ
      → Result StackedError (ReplicaColumnProof P)
  open_columns graph comm_c t_aux challenge = do
    tree_c ← or_panic t_aux.tree_c
    assert (bytes_eq comm_c (trees.tree_root tree_c))
    column ← column_of t_aux.labels (u32 challenge)
    c_x ← into_proof trees tree_c column
    drg_columns ← get_drg_parents_columns ext graph t_aux.labels challenge
    drg_parents ← into_proofs trees tree_c drg_columns
    exp_columns ← get_exp_parents_columns ext graph t_aux.labels challenge
    exp_parents ← into_proofs trees tree_c exp_columns
    ok (record { c_x = c_x; drg_parents = drg_parents; exp_parents = exp_parents })

-- The trees and proofs of a prover: of the data, and of the columns and the replica.
module _ (ext : Externals) (detected : Detector) {TD PD T P : Type 0} (trees_d : ProofTree TD PD)
    (merkle_d : MerkleProof PD) (trees : ProofTree T P) (merkle : MerkleProof P) where
  unfoldable pub prove_challenge :
      StackedGraph
      → Domain
      → Domain
      → TemporaryAuxCache TD T
      → ℕ
      → ℕ
      → Jobs
      → ℕ
      → Result StackedError (Proof PD P × Jobs)
  prove_challenge graph replica_id comm_c t_aux num_layers challenge_index jobs challenge = do
    assert (ltb challenge (size graph))
    assert (ltb 0 challenge)
    tree_d ← or_panic t_aux.tree_d
    comm_d_proof ← generated (trees_d.gen_proof tree_d challenge)
    rcp ← open_columns ext trees graph comm_c t_aux challenge
    comm_r_last_proof ← generated (trees.gen_proof t_aux.tree_r_last challenge)
    let started : Jobs = record {
      comm_d = validate merkle_d comm_d_proof challenge ∷ jobs.comm_d;
      comm_r = validate merkle comm_r_last_proof challenge ∷ jobs.comm_r;
      encoding = jobs.encoding;
    }
    (labeling_proofs, last, after) ←
        prove_labels ext detected graph t_aux.labels replica_id rcp.c_x.column challenge_index
          challenge started 1 num_layers []
    assert (ltb 0 num_layers)
    ok (
      record {
        comm_d_proofs = comm_d_proof;
        comm_r_last_proof = comm_r_last_proof;
        replica_column_proofs = rcp;
        labeling_proofs = labeling_proofs;
        encoding_proof = record { parents = last; layer_index = u32 num_layers; node = challenge };
      },
      after,
    )

  -- The challenges, from number `challenge_index` on.
  unfoldable pub prove_challenges :
      StackedGraph
      → Domain
      → Domain
      → TemporaryAuxCache TD T
      → ℕ
      → ℕ
      → Jobs
      → List ℕ
      → Result StackedError (List (Proof PD P))
  prove_challenges graph replica_id comm_c t_aux num_layers challenge_index jobs [] = ok []
  prove_challenges graph replica_id comm_c t_aux num_layers challenge_index jobs
        (challenge ∷ challenges) =
      do
        (proof, after) ←
            prove_challenge graph replica_id comm_c t_aux num_layers challenge_index jobs challenge
        proofs ←
            prove_challenges graph replica_id comm_c t_aux num_layers (challenge_index + 1) after
              challenges
        ok (proof ∷ proofs)

  unfoldable pub prove_layers_generate :
      StackedGraph
      → PublicInputs
      → Domain
      → TemporaryAuxCache TD T
      → List ℕ
      → ℕ
      → Result StackedError (List (Proof PD P))
  prove_layers_generate graph pub_inputs comm_c t_aux challenges num_layers = do
    assert (length t_aux.labels == num_layers)
    tau ← or_panic pub_inputs.tau
    tree_d ← or_panic t_aux.tree_d
    assert (bytes_eq tau.comm_d (trees_d.tree_root tree_d))
    prove_challenges graph pub_inputs.replica_id comm_c t_aux num_layers 0
        (record { comm_d = []; comm_r = []; encoding = [] }) challenges
