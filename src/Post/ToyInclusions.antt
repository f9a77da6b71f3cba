-- ===== src/Post/ToyInclusions.antt =====
-- Two proofs of one sector of four nodes (storage-proofs-post/src/fallback/vanilla.rs), whose inclusion
-- proofs differ in the leaf, with a hash of a row that keeps the first byte of each node.
use rust_fil_proofs.Base.{
  ℕ, ◌+◌, ◌≡◌, ◌⊎◌, refl, arith, true, List, [], ◌∷◌, ◌++◌, map, none, ok, bytes_eq, le_bytes,
  from_le,
}
use rust_fil_proofs.Api.{v1_2_0}
use rust_fil_proofs.Post.Types.{Domain, PublicParams, PublicSector, SectorProof}
use rust_fil_proofs.Post.Leaves.{get_challenge_index, generate_leaf_challenge_inner, rem_checked}
use rust_fil_proofs.Post.Verify.{verify_sector, verify_challenges, inclusion_valid}
use rust_fil_proofs.Post.Binding.{PairCollision}
use rust_fil_proofs.Post.Inclusions.{inclusion_tree, WellFormed, verify_sector-leaves}
use rust_fil_proofs.Merkle.Paths.{
  path_root, path_index, ProofData, Arities, verify, verify_single, leaf_of, insert,
}
use rust_fil_proofs.Merkle.Validate.{validate, base_path_length, compound_path_length}
use rust_fil_proofs.Merkle.Binding.{Collision}
use rust_fil_proofs.Merkle.Places.{InRows}
use rust_fil_proofs.Merkle.Index.{InTree}
use rust_fil_proofs.Merkle.RoundTrip.{Fits}

abbrev first_bytes : List Domain → ℕ → Domain
first_bytes [] height = []
first_bytes ([] ∷ nodes) height = 0 ∷ first_bytes nodes height
first_bytes ((b ∷ node) ∷ nodes) height = (b + height) ∷ first_bytes nodes height

abbrev binary : Arities
binary = record { base_arity = 2; sub_arity = 0; top_arity = 0 }

abbrev toy_sha256 : List ℕ → List ℕ
toy_sha256 bytes = 6 ∷ []

abbrev toy_hash2 : Domain → Domain → Domain
toy_hash2 a b = a ++ b

abbrev toy_params : PublicParams
toy_params = record {
  sector_size = 128;
  challenge_count = 2;
  sector_count = 1;
  api_version = v1_2_0;
}

abbrev toy_sector : PublicSector
toy_sector = record { id = 4; comm_r = 5 ∷ 9 ∷ 4 ∷ [] }

-- The leaf 2, which each challenge draws.
abbrev opening : Domain → ProofData
opening leaf = ProofData.single (record {
  root = 9 ∷ 4 ∷ [];
  leaf = leaf;
  path =
      record { hashes = (7 ∷ []) ∷ []; index = 0 }
      ∷ record { hashes = (8 ∷ []) ∷ []; index = 1 }
      ∷ [];
})

abbrev sector_proof : Domain → SectorProof ProofData
sector_proof leaf = record {
  inclusion_proofs = opening leaf ∷ opening leaf ∷ [];
  comm_c = 5 ∷ [];
  comm_r_last = 9 ∷ 4 ∷ [];
}

opening-WellFormed :
    (leaf : Domain)
    → WellFormed {Tree = ℕ}
        (λ tree. 4)
        (λ tree leaf rows. none)
        first_bytes
        (λ leaves arity. 3)
        binary
        (opening leaf)
opening-WellFormed leaf = (
  Fits.single refl,
  InTree.single (InRows.above (omega arith) (InRows.above (omega arith) InRows.bottom))
      (omega arith),
)

toy_accepted :
    verify_sector
      (inclusion_tree {Tree = ℕ}
        (λ tree. 4)
        (λ tree leaf rows. none)
        first_bytes
        (λ leaves arity. 3)
        binary)
      toy_sha256
      toy_hash2
      toy_params
      (1 ∷ [])
      0
      (toy_sector, sector_proof (3 ∷ []))
    ≡ ok true
unfolding verify_sector verify_challenges inclusion_valid get_challenge_index
    generate_leaf_challenge_inner rem_checked bytes_eq le_bytes from_le validate base_path_length
    compound_path_length verify verify_single path_root path_index insert
toy_accepted = refl

toy_other_accepted :
    verify_sector
      (inclusion_tree {Tree = ℕ}
        (λ tree. 4)
        (λ tree leaf rows. none)
        first_bytes
        (λ leaves arity. 3)
        binary)
      toy_sha256
      toy_hash2
      toy_params
      (1 ∷ [])
      0
      (toy_sector, sector_proof (3 ∷ 1 ∷ []))
    ≡ ok true
unfolding verify_sector verify_challenges inclusion_valid get_challenge_index
    generate_leaf_challenge_inner rem_checked bytes_eq le_bytes from_le validate base_path_length
    compound_path_length verify verify_single path_root path_index insert
toy_other_accepted = refl

verify_sector-leaves_example :
    PairCollision toy_hash2
    ⊎ (Collision first_bytes
        ⊎ (map leaf_of (opening (3 ∷ []) ∷ opening (3 ∷ []) ∷ [])
            ≡ map leaf_of (opening (3 ∷ 1 ∷ []) ∷ opening (3 ∷ 1 ∷ []) ∷ [])))
verify_sector-leaves_example =
    verify_sector-leaves {Tree = ℕ} (λ tree. 4) (λ tree leaf rows. none) first_bytes
      (λ leaves arity. 3) binary toy_sha256 toy_hash2 toy_params (1 ∷ []) 0 toy_sector
      (sector_proof (3 ∷ [])) (sector_proof (3 ∷ 1 ∷ []))
      (opening-WellFormed (3 ∷ []), (opening-WellFormed (3 ∷ []), tt))
      (opening-WellFormed (3 ∷ 1 ∷ []), (opening-WellFormed (3 ∷ 1 ∷ []), tt)) toy_accepted
      toy_other_accepted
