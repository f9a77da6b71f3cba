-- ===== src/Merkle/Paths.antt =====
-- The inclusion paths and proofs of storage-proofs-core/src/merkle/proof.rs. The hash of the nodes below a
-- node is a parameter, given their height. `none` is a panic.
use rust_fil_proofs.Base.{
  ℕ, zero, suc, ◌+◌, ◌*◌, Bool, List, [], ◌∷◌, ◌++◌, Option, none, some, ◌==◌, if◌then◌else◌, u64,
  bytes_eq,
}
use rust_fil_proofs.Feistel.Network.{◌>>=◌}

abbrev pub Domain : Type 0
Domain = List ℕ

pub record PathElement : Type 0 where
  pub hashes : List Domain
  pub index : ℕ

-- `Vec::insert`, which panics behind the end.
unfoldable pub insert : ℕ → Domain → List Domain → Option (List Domain)
insert zero h nodes = some (h ∷ nodes)
insert (suc i) h [] = none
insert (suc i) h (n ∷ nodes) = do rest ← insert i h nodes; some (n ∷ rest)

module _ (multi_node : List Domain → ℕ → Domain) where
  -- `InclusionPath::root`, from a height on.
  unfoldable pub path_root : ℕ → Domain → List PathElement → Option Domain
  path_root height h [] = some h
  path_root height h (element ∷ path) = do
    nodes ← insert element.index h element.hashes
    path_root (height + 1) (multi_node nodes height) path

-- `InclusionPath::path_index`: the fold begins at the last element.
unfoldable pub path_index : ℕ → List PathElement → ℕ
path_index arity [] = 0
path_index arity (element ∷ path) = u64 (u64 (path_index arity path * arity) + element.index)

pub record SingleProof : Type 0 where
  pub root : Domain
  pub leaf : Domain
  pub path : List PathElement

pub record SubProof : Type 0 where
  pub base_proof : List PathElement
  pub sub_proof : List PathElement
  pub root : Domain
  pub leaf : Domain

pub record TopProof : Type 0 where
  pub base_proof : List PathElement
  pub sub_proof : List PathElement
  pub top_proof : List PathElement
  pub root : Domain
  pub leaf : Domain

pub data ProofData : Type 0 where
  single : SingleProof → ProofData
  sub : SubProof → ProofData
  top : TopProof → ProofData

-- The arities of the layers of a tree; 0 for a layer that is not there.
pub record Arities : Type 0 where
  pub base_arity : ℕ
  pub sub_arity : ℕ
  pub top_arity : ℕ

abbrev pub leaf_of : ProofData → Domain
leaf_of (single p) = p.leaf
leaf_of (sub p) = p.leaf
leaf_of (top p) = p.leaf

abbrev pub root_of : ProofData → Domain
root_of (single p) = p.root
root_of (sub p) = p.root
root_of (top p) = p.root

module _ (multi_node : List Domain → ℕ → Domain) where
  unfoldable pub verify_single : SingleProof → Option Bool
  verify_single p = do
    calculated_root ← path_root multi_node 0 p.leaf p.path
    some (bytes_eq p.root calculated_root)

  unfoldable pub verify_sub : SubProof → Option Bool
  verify_sub p = do
    sub_leaf ← path_root multi_node 0 p.leaf p.base_proof
    calculated_root ← path_root multi_node 0 sub_leaf p.sub_proof
    some (bytes_eq p.root calculated_root)

  unfoldable pub verify_top : TopProof → Option Bool
  verify_top p = do
    sub_leaf ← path_root multi_node 0 p.leaf p.base_proof
    top_leaf ← path_root multi_node 0 sub_leaf p.sub_proof
    calculated_root ← path_root multi_node 0 top_leaf p.top_proof
    some (bytes_eq p.root calculated_root)

  unfoldable pub verify : ProofData → Option Bool
  verify (single p) = verify_single p
  verify (sub p) = verify_sub p
  verify (top p) = verify_top p

-- The leaves below a base tree: the arity to the length of its path.
unfoldable pub base_leaves : ℕ → List PathElement → ℕ
base_leaves arity [] = 1
base_leaves arity (element ∷ path) = u64 (base_leaves arity path * arity)

unfoldable pub sub_proof_index : Arities → SubProof → ℕ
sub_proof_index t p = u64 (
    u64 (path_index t.sub_arity p.sub_proof * base_leaves t.base_arity p.base_proof)
    + path_index t.base_arity p.base_proof)

unfoldable pub top_proof_index : Arities → TopProof → ℕ
top_proof_index t p =
    let base_proof_leaves = base_leaves t.base_arity p.base_proof in
    let sub_proof_leaves = u64 (base_proof_leaves * t.sub_arity) in
    u64 (
      u64 (
        u64 (path_index t.sub_arity p.sub_proof * base_proof_leaves)
        + u64 (path_index t.top_arity p.top_proof * sub_proof_leaves))
      + path_index t.base_arity p.base_proof)

abbrev pub proof_index : Arities → ProofData → ℕ
proof_index t (single p) = path_index t.base_arity p.path
proof_index t (sub p) = sub_proof_index t p
proof_index t (top p) = top_proof_index t p

abbrev pub sub_proof_path : SubProof → List PathElement
sub_proof_path p = p.base_proof ++ p.sub_proof

abbrev pub top_proof_path : TopProof → List PathElement
top_proof_path p = (p.base_proof ++ p.sub_proof) ++ p.top_proof

abbrev pub proof_path : ProofData → List PathElement
proof_path (single p) = p.path
proof_path (sub p) = sub_proof_path p
proof_path (top p) = top_proof_path p

-- `Vec::pop`: the elements before the last, and the last.
unfoldable pub pop : List PathElement → Option (List PathElement × PathElement)
pop [] = none
pop (e ∷ []) = some ([], e)
pop (e ∷ (f ∷ path)) = do (rest, last) ← pop (f ∷ path); some (e ∷ rest, last)

unfoldable pub from_parts : Arities → Domain → Domain → List PathElement → Option ProofData
from_parts t leaf root path =
    if t.sub_arity == 0
    then some (single (record { root = root; leaf = leaf; path = path }))
    else if t.top_arity == 0
    then (do
      (base_path, sub_elem) ← pop path
      some (
          sub (record {
            base_proof = base_path;
            sub_proof = sub_elem ∷ [];
            root = root;
            leaf = leaf;
          })))
    else (do
      (below, top_elem) ← pop path
      (base_path, sub_elem) ← pop below
      some (
          top (record {
            base_proof = base_path;
            sub_proof = sub_elem ∷ [];
            top_proof = top_elem ∷ [];
            root = root;
            leaf = leaf;
          })))
