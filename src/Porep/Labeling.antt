-- ===== src/Porep/Labeling.antt =====
-- labeling_proof.rs, encoding_proof.rs, column.rs, column_proof.rs and hash.rs of
-- storage-proofs-porep/src/stacked/vanilla, and encode.rs beside it. A domain element is its list of 32
-- bytes. SHA-256, Poseidon, the other hashes and the arithmetic of the field are parameters.
use rust_fil_proofs.Base.{
  ℕ, zero, suc, ◌-◌, ◌*◌, ◌==◌, Bool, true, false, List, [], ◌∷◌, ◌++◌, Option, none, some, Result,
  ok, panic, ◌>>=◌, ◌>>◌, assert, ltb, if◌then◌else◌, u8, ◌>>>◌, length, replicate, get_elem?,
  bytes_eq,
}
use rust_fil_proofs.Fr32.Convert.{bytes_into_fr_repr_safe}
use rust_fil_proofs.Graph.Bucket.{GraphError}
use rust_fil_proofs.Porep.Synthetic.{Purpose}

abbrev pub Domain : Type 0
Domain = List ℕ

pub data StackedError : Type 0 where
  invalid_comm_d invalid_comm_r invalid_encoding_proof partitions_zero no_seed store_error
        tree_error :
      StackedError
  graph_error : GraphError → StackedError

-- What other packages compute.
pub record Externals : Type 0 where
  pub sha256 : List ℕ → List ℕ
  pub poseidon : List Domain → Domain
  pub hash2 : Domain → Domain → Domain
  pub blake2b : List ℕ → ℕ → ℕ
  pub rng : List ℕ → ℕ → ℕ
  pub log2_ceil : ℕ → ℕ
  pub keyed_blake2b : Purpose → List ℕ → List ℕ
  pub keystream : List ℕ → ℕ → ℕ

pub record Field (F : Type 0) : Type 0 where
  pub into_fr : Domain → F
  pub into_domain : F → Domain
  pub fr_add : F → F → F
  pub fr_sub : F → F → F

-- `to_be_bytes` of a word of `width` bytes.
unfoldable pub to_be_bytes : ℕ → ℕ → List ℕ
to_be_bytes zero x = []
to_be_bytes (suc width) x = u8 (x >>> (8 * width)) ∷ to_be_bytes width x

-- The arithmetic of encode.rs.
module _ {F : Type 0} (field : Field F) where
  unfoldable pub encode_fr : F → F → F
  encode_fr key value = field.fr_add key value

  unfoldable pub encode : Domain → Domain → Domain
  encode key value = field.into_domain (encode_fr (field.into_fr key) (field.into_fr value))

  unfoldable pub decode : Domain → Domain → Domain
  decode key value = field.into_domain (field.fr_sub (field.into_fr value) (field.into_fr key))

pub record LabelingProof : Type 0 where
  pub parents : List Domain
  pub layer_index : ℕ
  pub node : ℕ

pub record EncodingProof : Type 0 where
  pub parents : List Domain
  pub layer_index : ℕ
  pub node : ℕ

-- `hasher.update` for all of a list.
unfoldable pub update_all : List ℕ → List Domain → List ℕ
update_all hasher [] = hasher
update_all hasher (parent ∷ parents) = update_all (hasher ++ parent) parents

-- The buffer of 64 bytes that is hashed first.
abbrev pub label_buffer : Domain → ℕ → ℕ → List ℕ
label_buffer replica_id layer_index node =
    replica_id ++ (to_be_bytes 4 layer_index ++ (to_be_bytes 8 node ++ replicate 20 0))

module _ (ext : Externals) where
  -- `LabelingProof::create_label`.
  unfoldable pub create_label_of : LabelingProof → Domain → Result StackedError Domain
  create_label_of proof replica_id =
      bytes_into_fr_repr_safe (
        ext.sha256
          (update_all (label_buffer replica_id proof.layer_index proof.node) proof.parents))

  unfoldable pub verify_labeling : LabelingProof → Domain → Domain → Result StackedError Bool
  verify_labeling proof replica_id expected_label = do
    label ← create_label_of proof replica_id
    ok (bytes_eq expected_label label)

  -- `EncodingProof::create_key`.
  unfoldable pub encoding_key : EncodingProof → Domain → Result StackedError Domain
  encoding_key proof replica_id =
      bytes_into_fr_repr_safe (
        ext.sha256
          (update_all (label_buffer replica_id proof.layer_index proof.node) proof.parents))

  unfoldable pub verify_encoding :
      {F : Type 0} → Field F → EncodingProof → Domain → Domain → Domain → Result StackedError Bool
  verify_encoding field proof replica_id exp_encoded_node decoded_node = do
    key ← encoding_key proof replica_id
    ok (
        bytes_eq exp_encoded_node
          (encode field key (field.into_domain (field.into_fr decoded_node))))

pub record Column : Type 0 where
  pub index : ℕ
  pub rows : List Domain

module _ (ext : Externals) where
  unfoldable pub hash_single_column : List Domain → Result StackedError Domain
  hash_single_column column =
      if length column == 2
      then ok (ext.poseidon column)
      else if length column == 11
      then ok (ext.poseidon column)
      else panic

  unfoldable pub column_hash : Column → Result StackedError Domain
  column_hash column = hash_single_column column.rows

-- An index out of range panics.
abbrev pub or_panic {ℓ} : {A : Type ℓ} → Option A → Result StackedError A
or_panic none = panic
or_panic (some a) = ok a

unfoldable pub get_node_at_layer : Column → ℕ → Result StackedError Domain
get_node_at_layer column layer = do
  assert (ltb 0 layer)
  or_panic (get_elem? column.rows (layer - 1))

-- What a proof of inclusion in a Merkle tree offers; the trees below it are of other packages.
pub record MerkleProof (P : Type 0) : Type 0 where
  pub verify_path : P → Bool
  pub leaf : P → Domain
  pub root : P → Domain
  pub path_index : P → ℕ

-- The methods of `MerkleProofTrait` in storage-proofs-core/src/merkle/proof.rs that are the same for
-- all proofs.
module _ {P : Type 0} (merkle : MerkleProof P) where
  unfoldable pub validate : P → ℕ → Bool
  validate proof node = if merkle.verify_path proof then node == merkle.path_index proof else false

  unfoldable pub validate_data : P → Domain → Bool
  validate_data proof data_ =
      if merkle.verify_path proof then bytes_eq (merkle.leaf proof) data_ else false

  unfoldable pub proves_challenge : P → ℕ → Bool
  proves_challenge proof challenge = merkle.path_index proof == challenge

pub record ColumnProof (P : Type 0) : Type 0 where
  pub column : Column
  pub inclusion_proof : P

-- `check!` and `check_eq!`: a failed check ends the function with `false`.
abbrev pub check : Bool → Result StackedError Bool → Result StackedError Bool
check b rest = if b then rest else ok false

abbrev pub check_result :
    Result StackedError Bool → Result StackedError Bool → Result StackedError Bool
check_result first rest = do b ← first; check b rest

module _ (ext : Externals) {P : Type 0} (merkle : MerkleProof P) where
  unfoldable pub verify_column : ColumnProof P → ℕ → Domain → Result StackedError Bool
  verify_column proof challenge expected_root = do
    c_i ← column_hash ext proof.column
    check (bytes_eq (merkle.root proof.inclusion_proof) expected_root) (
        check (validate_data merkle proof.inclusion_proof c_i)
          (check (validate merkle proof.inclusion_proof challenge) (ok true)))
