-- ===== src/Porep/ToySector.antt =====
-- A sealed sector of 12 nodes and two layers, with toy hashes: the hypotheses on a sealed sector can
-- hold.
use rust_fil_proofs.Base.{
  All, ◌*◌, ◌+◌, ◌++◌, take, drop, u32, length-replicate, ℕ, zero, suc, ◌-◌, ◌≤◌, ◌<◌, ◌≡◌, inl,
  refl, arith, true, not, all, List, [], ◌∷◌, none, some, ok, length, replicate, get_elem?,
}
use rust_fil_proofs.Api.{v1_1_0}
use rust_fil_proofs.Graph.ToyGraph.{
  toy_hash, log2_floor, log2_floor-IsLog2, toy_graph, toy_graph-IsGraph,
}
use rust_fil_proofs.Fr32.Convert.{bytes_into_fr_repr_safe, mask_at}
use rust_fil_proofs.Porep.Labeling.{
  Domain, Externals, Field, MerkleProof, create_label_of, encode, encode_fr,
}
use rust_fil_proofs.Porep.Partitions.{prove_interactive, prove_ni}
use rust_fil_proofs.Porep.Replication.{prove_interactive-verify_porep_partitions}
use rust_fil_proofs.Porep.Proofs.{
  interactive, ni, verify_porep_partitions, Proof, verify_partition, comm_c, comm_r_last,
}
use rust_fil_proofs.Porep.Layers.{
  ProofTree, TemporaryAuxCache, read_at, read_rows, Detector, prove_layers_generate, repeat_parents,
}
use rust_fil_proofs.Graph.Stacked.{read_nodes}
use rust_fil_proofs.Porep.Labels.{create_label, create_label_exp}
use rust_fil_proofs.Porep.Streams.{Within}
use rust_fil_proofs.Porep.LabelsEqual.{
  create_label_exp-create_label_of, create_label-create_label_of,
}
use rust_fil_proofs.Porep.Sealed.{IsDetector, IsSealed}
use rust_fil_proofs.Porep.Completeness.{prove_layers_generate-verify_partition}

abbrev z : Domain
z = replicate 32 0

abbrev toy : Externals
toy = record {
  sha256 = λ bytes. z;
  poseidon = λ column. z;
  hash2 = λ a b. z;
  blake2b = toy_hash;
  rng = toy_hash;
  log2_ceil = log2_floor;
  keyed_blake2b = λ purpose bytes. z;
  keystream = toy_hash;
}

abbrev toy_field : Field Domain
toy_field = record { into_fr = λ x. x; into_domain = λ x. x; fr_add = λ a b. a; fr_sub = λ a b. a }

-- A proof is the index of its leaf; all leaves and roots are zero.
abbrev toy_merkle : MerkleProof ℕ
toy_merkle = record { verify_path = λ p. true; leaf = λ p. z; root = λ p. z; path_index = λ p. p }

abbrev toy_trees : ProofTree Domain ℕ
toy_trees = record { gen_proof = λ tree i. some i; tree_root = λ tree. z }

abbrev toy_aux : TemporaryAuxCache Domain Domain
toy_aux = record {
  labels = replicate 12 z ∷ replicate 12 z ∷ [];
  tree_d = some z;
  tree_c = some z;
  tree_r_last = z;
}

read_at-replicate : (n i : ℕ) → i < n → read_at (replicate n z) i ≡ ok z
unfolding read_at
read_at-replicate zero i h = absurd (omega arith)
read_at-replicate (suc n) zero h = refl
read_at-replicate (suc n) (suc i) h = read_at-replicate n i (omega arith)

toy_rows : (i : ℕ) → i < 12 → read_rows toy_aux.labels i ≡ ok (z ∷ z ∷ [])
unfolding read_rows
toy_rows i h = let e = read_at-replicate 12 i h in rw e refl

row_of_layer : (layer : ℕ) → 1 ≤ layer → layer ≤ 2 → get_elem? (z ∷ z ∷ []) (layer - 1) ≡ some z
row_of_layer zero a b = absurd (omega arith)
row_of_layer (suc zero) a b = refl
row_of_layer (suc (suc zero)) a b = refl
row_of_layer (suc (suc (suc layer))) a b = absurd (omega arith)

toy_aux-IsSealed :
    IsSealed toy toy_field toy_trees toy_merkle toy_trees toy_merkle
      (toy_graph v1_1_0)
      12
      2
      z
      z
      z
      z
      toy_aux
unfolding create_label_of bytes_into_fr_repr_safe mask_at encode encode_fr
toy_aux-IsSealed = record {
  tree_d = z;
  tree_c = z;
  column_at = λ i. z ∷ z ∷ [];
  layers = inl refl;
  stores = refl;
  rows = toy_rows;
  has_tree_d = refl;
  has_tree_c = refl;
  tree_d_root = refl;
  tree_c_root = refl;
  opens_d = λ i h. (i, refl, record { verified = refl; index = refl; rooted = refl });
  opens_c = λ i h. (i, refl, record { verified = refl; index = refl; rooted = refl }, refl);
  opens_r = λ i h. (i, refl, record { verified = refl; index = refl; rooted = refl });
  labeled = λ layer node data_ a b c h e. (z, row_of_layer layer a b, refl);
  encoded = λ i d r label proof_d proof_r found. (let same : some z ≡ some label = found in cc);
}

-- A failure is recorded when one of the validations so far has failed.
abbrev eager : Detector
eager f challenge_index layer jobs = not (all (λ b. b) jobs)

eager-IsDetector : IsDetector eager
eager-IsDetector f i layer [] valid = refl
eager-IsDetector f i layer (b ∷ jobs) (e, valid) = rw e (eager-IsDetector f i layer jobs valid)

prove_layers_generate-verify_partition_example :
    (proof : Proof ℕ ℕ) × (proofs : List (Proof ℕ ℕ)) × (prove_layers_generate toy eager toy_trees
        toy_merkle toy_trees toy_merkle
        (toy_graph v1_1_0)
        (record {
          replica_id = z;
          seed = some z;
          tau = some (record { comm_d = z; comm_r = z });
          k = none;
        })
        z
        toy_aux
        (7 ∷ 3 ∷ [])
        2
      ≡ ok (proof ∷ proofs))
    × (comm_c toy toy_merkle toy_merkle toy_field proof ≡ z)
    × (comm_r_last toy toy_merkle toy_merkle toy_field proof ≡ z)
    × (verify_partition toy toy_merkle toy_merkle toy_field
          (record { graph = toy_graph v1_1_0; challenges = interactive 2; num_layers = 2 })
          (record {
            replica_id = z;
            seed = some z;
            tau = some (record { comm_d = z; comm_r = z });
            k = none;
          })
          proof
          (proof ∷ proofs)
          (7 ∷ 3 ∷ [])
        ≡ ok true)
    × (length (proof ∷ proofs) ≡ 2)
prove_layers_generate-verify_partition_example =
    prove_layers_generate-verify_partition toy log2_floor-IsLog2 toy_field toy_trees toy_merkle
      toy_trees toy_merkle (toy_graph v1_1_0) 12 2 v1_1_0 (toy_graph-IsGraph v1_1_0) z z z z toy_aux
      toy_aux-IsSealed eager eager-IsDetector (interactive 2) (some z) z none 7 (3 ∷ [])
      ((omega arith, omega arith), ((omega arith, omega arith), tt))

abbrev toy_base : List ℕ
toy_base = 6 ∷ 4 ∷ 6 ∷ 5 ∷ 3 ∷ 6 ∷ []

abbrev toy_expanded : List ℕ
toy_expanded = 7 ∷ 0 ∷ 1 ∷ 5 ∷ 2 ∷ 7 ∷ 3 ∷ 3 ∷ []

abbrev toy_labels : List ℕ
toy_labels = replicate 256 0

toy-Within : (p : ℕ) → p < 8 → Within toy_labels p
toy-Within p h = let e = length-replicate {A = ℕ} 256 0 in omega (arith, e)

toy_base-All : All (Within toy_labels) toy_base
toy_base-All = (
  toy-Within 6 (omega arith),
  (
    toy-Within 4 (omega arith),
    (
      toy-Within 6 (omega arith),
      (toy-Within 5 (omega arith), (toy-Within 3 (omega arith), (toy-Within 6 (omega arith), tt))),
    ),
  ),
)

toy_expanded-All : All (Within toy_labels) toy_expanded
toy_expanded-All = (
  toy-Within 7 (omega arith),
  (
    toy-Within 0 (omega arith),
    (
      toy-Within 1 (omega arith),
      (
        toy-Within 5 (omega arith),
        (
          toy-Within 2 (omega arith),
          (
            toy-Within 7 (omega arith),
            (toy-Within 3 (omega arith), (toy-Within 3 (omega arith), tt)),
          ),
        ),
      ),
    ),
  ),
)

create_label_exp-create_label_of_example :
    (base_nodes : List (List ℕ)) × (exp_nodes : List (List ℕ)) × (repeated : List Domain)
    × (label : Domain) × (read_nodes 0 6 (toy_base ++ toy_expanded) toy_labels ≡ ok base_nodes)
    × (read_nodes 6 8 (toy_base ++ toy_expanded) toy_labels ≡ ok exp_nodes)
    × (repeat_parents (base_nodes ++ exp_nodes) ≡ ok repeated)
    × (create_label_of toy (record { parents = repeated; layer_index = u32 2; node = 7 }) z
        ≡ ok label)
    × (create_label_exp toy.sha256 (toy_base ++ toy_expanded) z toy_labels toy_labels 2 7
        ≡ ok (take (7 * 32) toy_labels ++ (label ++ drop (7 * 32 + 32) toy_labels)))
create_label_exp-create_label_of_example =
    create_label_exp-create_label_of toy toy_base toy_expanded z toy_labels toy_labels 2 7
      (λ bytes. refl) refl refl toy_base-All toy_expanded-All (omega arith)
      (toy-Within 7 (omega arith)) (let e = length-replicate {A = ℕ} 256 0 in omega (arith, e))

create_label-create_label_of_example :
    (nodes : List (List ℕ)) × (repeated : List Domain) × (label : Domain) × (read_nodes 0 6
        (toy_base ++ toy_expanded)
        toy_labels
      ≡ ok nodes)
    × (repeat_parents nodes ≡ ok repeated)
    × (create_label_of toy (record { parents = repeated; layer_index = u32 1; node = 7 }) z
        ≡ ok label)
    × (create_label toy.sha256 (toy_base ++ toy_expanded) z toy_labels 1 7
        ≡ ok (take (7 * 32) toy_labels ++ (label ++ drop (7 * 32 + 32) toy_labels)))
create_label-create_label_of_example =
    create_label-create_label_of toy toy_base toy_expanded z toy_labels 1 7 (λ bytes. refl) refl
      toy_base-All (omega arith) (toy-Within 7 (omega arith))
      (let e = length-replicate {A = ℕ} 256 0 in omega (arith, e))

prove_interactive-verify_porep_partitions_example :
    ((proofs : List (List (Proof ℕ ℕ))) × (prove_interactive toy eager toy_trees toy_merkle
          toy_trees toy_merkle 2
          (toy_graph v1_1_0)
          (record {
            replica_id = z;
            seed = some z;
            tau = some (record { comm_d = z; comm_r = z });
            k = none;
          })
          z
          toy_aux
          2
          3
        ≡ ok proofs)
      × (length proofs ≡ 3)
      × (verify_porep_partitions toy toy_merkle toy_merkle toy_field
            (record { graph = toy_graph v1_1_0; challenges = interactive 2; num_layers = 2 })
            (record {
              replica_id = z;
              seed = some z;
              tau = some (record { comm_d = z; comm_r = z });
              k = none;
            })
            proofs
          ≡ ok true))
    × ((proofs : List (List (Proof ℕ ℕ))) × (prove_ni toy eager toy_trees toy_merkle toy_trees
            toy_merkle 2
            (toy_graph v1_1_0)
            (record {
              replica_id = z;
              seed = some z;
              tau = some (record { comm_d = z; comm_r = z });
              k = none;
            })
            z
            toy_aux
            2
            3
          ≡ ok proofs)
        × (length proofs ≡ 3)
        × (verify_porep_partitions toy toy_merkle toy_merkle toy_field
              (record { graph = toy_graph v1_1_0; challenges = ni 2; num_layers = 2 })
              (record {
                replica_id = z;
                seed = some z;
                tau = some (record { comm_d = z; comm_r = z });
                k = none;
              })
              proofs
            ≡ ok true))
prove_interactive-verify_porep_partitions_example =
    prove_interactive-verify_porep_partitions toy log2_floor-IsLog2 toy_field toy_trees toy_merkle
      toy_trees toy_merkle (toy_graph v1_1_0) 12 2 v1_1_0 (toy_graph-IsGraph v1_1_0) z z z z toy_aux
      toy_aux-IsSealed eager eager-IsDetector z none 2 (omega arith) (omega arith) 3
