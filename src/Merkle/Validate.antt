-- ===== src/Merkle/Validate.antt =====
-- What `validate` accepts, and the length of a whole path (storage-proofs-core/src/merkle/proof.rs). The
-- height of a tree is a function of the merkletree package and a parameter; `none` is a panic.
use rust_fil_proofs.Base.{
  ℕ, ◌+◌, ◌/◌, Bool, false, Option, none, some, ltb, ◌==◌, if◌then◌else◌, u64, sub64,
}
use rust_fil_proofs.Feistel.Network.{◌>>=◌}
use rust_fil_proofs.Merkle.Paths.{Domain, ProofData, Arities, verify, proof_index}
use rust_fil_proofs.Base.{List}

unfoldable pub validate : (List Domain → ℕ → Domain) → Arities → ProofData → ℕ → Option Bool
validate multi_node t p node = do
  verified ← verify multi_node p
  some (if verified then node == proof_index t p else false)

module _ (graph_height : ℕ → ℕ → ℕ) where
  unfoldable pub base_path_length : Arities → ℕ → Option ℕ
  base_path_length t leaves = do
    base_leaves ←
        (if ltb 0 t.top_arity
          then (if t.sub_arity == 0 then none else some (leaves / t.top_arity / t.sub_arity))
          else if ltb 0 t.sub_arity
          then some (leaves / t.sub_arity)
          else some leaves)
    some (sub64 (graph_height base_leaves t.base_arity) 1)

  -- `expected_len` of every proof of a tree.
  unfoldable pub compound_path_length : Arities → ℕ → Option ℕ
  compound_path_length t leaves = do
    len ← base_path_length t leaves
    let with_sub = (if ltb 0 t.sub_arity then u64 (len + 1) else len)
    some (if ltb 0 t.top_arity then u64 (with_sub + 1) else with_sub)
