-- ===== src/Post/Inclusions.antt =====
-- The proof of spacetime over the inclusion proofs of storage-proofs-core/src/merkle/proof.rs, which fill
-- the interface of Merkle trees of storage-proofs-post/src/fallback/vanilla.rs.
use rust_fil_proofs.Base.{
  ℕ, ◌≡◌, ◌⊎◌, refl, ap, Bool, true, false, List, map, All, Option, none, some, ok, length,
}
use rust_fil_proofs.Post.Types.{Domain, PublicParams, PublicSector, SectorProof, MerkleTree}
use rust_fil_proofs.Post.Verify.{verify_sector}
use rust_fil_proofs.Post.Binding.{Binds, PairCollision, verify_sector-binding}
use rust_fil_proofs.Merkle.Paths.{ProofData, Arities, leaf_of, root_of, proof_path}
use rust_fil_proofs.Merkle.Validate.{validate, compound_path_length}
use rust_fil_proofs.Merkle.Binding.{Collision}
use rust_fil_proofs.Merkle.Index.{InTree}
use rust_fil_proofs.Merkle.RoundTrip.{Fits}
use rust_fil_proofs.Merkle.Openings.{validate-binding}

-- A panic of `validate` accepts nothing.
abbrev pub accepts : Option Bool → Bool
accepts none = false
accepts (some b) = b

accepts_lem : (o : Option Bool) → accepts o ≡ true → o ≡ some true
accepts_lem none h = cc
accepts_lem (some b) h = ap (λ c. some c) h

-- A top layer without a layer below it, where the length of a path panics, is no shape of a tree.
abbrev pub length_of : Option ℕ → ℕ
length_of none = 0
length_of (some n) = n

module _ {Tree : Type 0} (leafs : Tree → ℕ) (gen_cached_proof : Tree → ℕ → ℕ → Option ProofData)
    (multi_node : List Domain → ℕ → Domain) (graph_height : ℕ → ℕ → ℕ) (t : Arities) where
  -- The builder of the trees is a parameter.
  abbrev pub inclusion_tree : MerkleTree Tree ProofData
  inclusion_tree = record {
    leafs = leafs;
    arity = t.base_arity;
    gen_cached_proof = gen_cached_proof;
    validate = λ proof node. accepts (validate multi_node t proof node);
    root = root_of;
    expected_len = λ proof leaves. length_of (compound_path_length graph_height t leaves);
    path_len = λ proof. length (proof_path proof);
  }

  -- The shape that the arities ask for, with places below the arities, of fewer than 2 ^ 64 leaves.
  abbrev pub WellFormed : ProofData → Type 0
  WellFormed p = Fits t p × InTree t p

  inclusion_tree-Binds : Binds inclusion_tree leaf_of WellFormed (Collision multi_node)
  inclusion_tree-Binds = record {
    one_length = λ p q nodes. refl;
    one_leaf = λ p q node good_p good_q one_root len v w.
        validate-binding multi_node t p q node good_p.0 good_q.0 good_p.1 good_q.1 one_root len
          (accepts_lem (validate multi_node t p node) v)
          (accepts_lem (validate multi_node t q node) w);
  }

  -- Two proofs for one sector that verify_sector accepts for the same randomness and place of the
  -- sector, whose inclusion proofs have the shape that the arities ask for, with places below the
  -- arities, in a tree of fewer than 2 ^ 64 leaves, open the same leaves, challenge for challenge,
  -- unless two different pairs have one hash under `hash2`, or two different rows of nodes have one
  -- under `multi_node` at one height.
  pub verify_sector-leaves :
      (sha256 : List ℕ → List ℕ) (hash2 : Domain → Domain → Domain) (pub_params : PublicParams)
      (randomness : Domain) (sector_index : ℕ) (pub_sector : PublicSector)
      (proof other : SectorProof ProofData)
      → All WellFormed proof.inclusion_proofs
      → All WellFormed other.inclusion_proofs
      → verify_sector inclusion_tree sha256 hash2 pub_params randomness sector_index
          (pub_sector, proof)
        ≡ ok true
      → verify_sector inclusion_tree sha256 hash2 pub_params randomness sector_index
          (pub_sector, other)
        ≡ ok true
      → PairCollision hash2
        ⊎ (Collision multi_node
            ⊎ (map leaf_of proof.inclusion_proofs ≡ map leaf_of other.inclusion_proofs))
  verify_sector-leaves sha256 hash2 =
      verify_sector-binding inclusion_tree leaf_of WellFormed (Collision multi_node)
        inclusion_tree-Binds sha256 hash2
