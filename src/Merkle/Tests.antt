-- ===== src/Merkle/Tests.antt =====
-- The proofs of storage-proofs-core/src/merkle/proof.rs on small trees, with a node that is the list of
-- the first bytes of the nodes below it.
use rust_fil_proofs.Base.{ℕ, ◌+◌, ◌≡◌, arith, ◌⊎◌, refl, true, List, [], ◌∷◌, some, bytes_eq}
use rust_fil_proofs.Merkle.Paths.{
  Domain, PathElement, path_root, path_index, ProofData, Arities, verify, verify_top, proof_index,
  top_proof_index, proof_path, base_leaves, from_parts, insert,
}
use rust_fil_proofs.Merkle.Binding.{Collision, SamePlace, verify-binding}
use rust_fil_proofs.Merkle.Places.{InRows}
use rust_fil_proofs.Merkle.Index.{InTree, SameShape, proof_index-SamePlace}
use rust_fil_proofs.Merkle.RoundTrip.{Fits, from_parts-proof_path}

abbrev first_bytes : List Domain → ℕ → Domain
first_bytes [] height = []
first_bytes ([] ∷ nodes) height = 0 ∷ first_bytes nodes height
first_bytes ((b ∷ node) ∷ nodes) height = (b + height) ∷ first_bytes nodes height

abbrev row : List Domain → ℕ → PathElement
row hashes index = record { hashes = hashes; index = index }

abbrev toy_arities : Arities
toy_arities = record { base_arity = 2; sub_arity = 4; top_arity = 2 }

-- A tree of 2 trees, each of 4 trees with 4 leaves.
abbrev toy_proof : Domain → ProofData
toy_proof leaf = ProofData.top (record {
  base_proof = row ((5 ∷ []) ∷ []) 1 ∷ (row ((7 ∷ []) ∷ []) 0 ∷ []);
  sub_proof = row ((1 ∷ []) ∷ ((2 ∷ []) ∷ ((3 ∷ []) ∷ []))) 2 ∷ [];
  top_proof = row ((9 ∷ []) ∷ []) 1 ∷ [];
  root = 9 ∷ (1 ∷ []);
  leaf = leaf;
})

toy_verified : verify first_bytes (toy_proof (4 ∷ [])) ≡ some true
unfolding verify verify_top path_root insert bytes_eq
toy_verified = refl

toy_other_verified : verify first_bytes (toy_proof (4 ∷ (6 ∷ []))) ≡ some true
unfolding verify verify_top path_root insert bytes_eq
toy_other_verified = refl

toy_index : proof_index toy_arities (toy_proof (4 ∷ [])) ≡ 25
unfolding top_proof_index path_index base_leaves
toy_index = refl

verify-binding_example : Collision first_bytes ⊎ Path Domain (4 ∷ []) (4 ∷ (6 ∷ []))
verify-binding_example =
    verify-binding (toy_proof (4 ∷ [])) (toy_proof (4 ∷ (6 ∷ []))) (SamePlace.top refl refl refl)
      refl toy_verified toy_other_verified

from_parts-proof_path_example :
    from_parts toy_arities (4 ∷ []) (9 ∷ (1 ∷ [])) (proof_path (toy_proof (4 ∷ [])))
    ≡ some (toy_proof (4 ∷ []))
from_parts-proof_path_example =
    from_parts-proof_path toy_arities (toy_proof (4 ∷ [])) (Fits.top refl refl)

toy_proof-InTree : (leaf : Domain) → InTree toy_arities (toy_proof leaf)
toy_proof-InTree leaf =
    InTree.top (InRows.above (omega arith) (InRows.above (omega arith) InRows.bottom))
      (InRows.above (omega arith) InRows.bottom) (InRows.above (omega arith) InRows.bottom)
      (omega arith) (omega arith) (omega arith) refl (omega arith)

proof_index-SamePlace_example : SamePlace (toy_proof (4 ∷ [])) (toy_proof (4 ∷ (6 ∷ [])))
unfolding top_proof_index
proof_index-SamePlace_example =
    proof_index-SamePlace toy_arities (toy_proof (4 ∷ [])) (toy_proof (4 ∷ (6 ∷ [])))
      (SameShape.top refl refl refl) (toy_proof-InTree (4 ∷ [])) (toy_proof-InTree (4 ∷ (6 ∷ [])))
      refl
