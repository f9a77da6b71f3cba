-- ===== src/Post/Tests.antt =====
-- The fallback proof of spacetime (storage-proofs-post/src/fallback) for three sectors in partitions
-- of two, over trees whose proofs are just the challenged leaf.
use rust_fil_proofs.Base.{
  ℕ, ◌*◌, ◌/◌, ◌<◌, ◌≡◌, refl, arith, true, List, [], ◌∷◌, ◌++◌, some, ok, ◌==◌, length, All,
  bytes_eq, le_bytes, from_le,
}
use rust_fil_proofs.Api.{v1_2_0}
use rust_fil_proofs.Post.Types.{
  PublicParams, PublicInputs, PublicSector, PrivateSector, SectorProof, Proof, MerkleTree,
}
use rust_fil_proofs.Post.Leaves.{
  node_size, get_challenge_index, generate_leaf_challenge_inner, rem_checked,
  generate_leaf_challenges, generate_leaf_challenges-All,
}
use rust_fil_proofs.Post.Prove.{
  default_rows_to_discard, append, insert, zip, chunks, chunks_loop, last_of, pad_proofs,
  prove_challenges, prove_sector, prove_sectors, prove_chunks, prove_all_partitions,
}
use rust_fil_proofs.Post.Verify.{verify_all_partitions}
use rust_fil_proofs.Post.Completeness.{prove_all_partitions-verify_all_partitions}

abbrev toy_tree : MerkleTree ℕ ℕ
toy_tree = record {
  leafs = λ tree. 64;
  arity = 8;
  gen_cached_proof = λ tree leaf rows. some leaf;
  validate = λ proof leaf. proof == leaf;
  root = λ proof. 7 ∷ [];
  expected_len = λ proof nodes. 2;
  path_len = λ proof. 2;
}

abbrev toy_sha256 : List ℕ → List ℕ
toy_sha256 [] = 3 ∷ []
toy_sha256 (b ∷ bytes) = b * 5 ∷ toy_sha256 bytes

abbrev toy_hash2 : List ℕ → List ℕ → List ℕ
toy_hash2 a b = a ++ b

abbrev toy_params : PublicParams
toy_params = record {
  sector_size = 2048;
  challenge_count = 2;
  sector_count = 2;
  api_version = v1_2_0;
}

abbrev public_sector : ℕ → PublicSector
public_sector id = record { id = id; comm_r = 5 ∷ 7 ∷ [] }

abbrev private_sector : PrivateSector ℕ
private_sector = record { tree = 0; comm_c = 5 ∷ []; comm_r_last = 7 ∷ [] }

abbrev toy_inputs : PublicInputs
toy_inputs = record {
  randomness = 1 ∷ [];
  prover_id = 2 ∷ [];
  sectors = public_sector 4 ∷ public_sector 9 ∷ public_sector 6 ∷ [];
  k = some 0;
}

abbrev toy_privates : List (PrivateSector ℕ)
toy_privates = private_sector ∷ private_sector ∷ private_sector ∷ []

abbrev sector_proof : List ℕ → SectorProof ℕ
sector_proof paths = record { inclusion_proofs = paths; comm_c = 5 ∷ []; comm_r_last = 7 ∷ [] }

abbrev toy_proofs : List (Proof ℕ)
toy_proofs =
    record { sectors = sector_proof (5 ∷ 5 ∷ []) ∷ sector_proof (5 ∷ 5 ∷ []) ∷ [] }
    ∷ record { sectors = sector_proof (5 ∷ 5 ∷ []) ∷ sector_proof (5 ∷ 5 ∷ []) ∷ [] }
    ∷ []

proved :
    prove_all_partitions toy_tree toy_sha256 toy_hash2
      (λ leafs arity. 3)
      2
      toy_params
      toy_inputs
      toy_privates
      2
    ≡ ok toy_proofs
unfolding prove_all_partitions prove_chunks prove_sectors prove_sector prove_challenges
    get_challenge_index generate_leaf_challenge_inner rem_checked zip chunks chunks_loop last_of
    pad_proofs append insert default_rows_to_discard bytes_eq le_bytes from_le
proved = refl

prove_all_partitions-verify_all_partitions_example :
    verify_all_partitions toy_tree toy_sha256 toy_hash2 toy_params toy_inputs toy_proofs ≡ ok true
prove_all_partitions-verify_all_partitions_example =
    prove_all_partitions-verify_all_partitions toy_tree toy_sha256 toy_hash2 (λ leafs arity. 3) 2
      toy_params toy_inputs toy_privates 2 toy_proofs (λ tree leaf discarded proof made. refl)
      (omega arith) (omega arith) proved

generate_leaf_challenges-All_example :
    (leaves : List ℕ) × (generate_leaf_challenges toy_sha256 toy_params (1 ∷ []) 4 10 ≡ ok leaves)
    × (length leaves ≡ 10)
    × All (λ leaf. leaf < 2048 / node_size) leaves
generate_leaf_challenges-All_example =
    generate_leaf_challenges-All toy_sha256 toy_params (1 ∷ []) 4 10 (omega arith)
