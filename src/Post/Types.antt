-- ===== src/Post/Types.antt =====
-- The data of storage-proofs-post/src/fallback/vanilla.rs. A domain element is its list of bytes.
use rust_fil_proofs.Base.{ℕ, Bool, List, Option}
use rust_fil_proofs.Api.{ApiVersion}

abbrev pub Domain : Type 0
Domain = List ℕ

pub data PostError : Type 0 where
  multiple_sectors invalid_proof inconsistent_sectors too_many_sectors no_partition_index
        too_many_public_sectors sector_proof_count inclusion_proof_count :
      PostError
  -- `Error::FaultySectors` with the sorted sectors.
  faulty_sectors : List ℕ → PostError
  merkle_error : PostError

pub record SetupParams : Type 0 where
  pub sector_size : ℕ
  pub challenge_count : ℕ
  pub sector_count : ℕ
  pub api_version : ApiVersion

pub record PublicParams : Type 0 where
  pub sector_size : ℕ
  pub challenge_count : ℕ
  pub sector_count : ℕ
  pub api_version : ApiVersion

pub record ChallengeRequirements : Type 0 where
  pub minimum_challenge_count : ℕ

pub record PublicSector : Type 0 where
  pub id : ℕ
  pub comm_r : Domain

pub record PublicInputs : Type 0 where
  pub randomness : Domain
  pub prover_id : Domain
  pub sectors : List PublicSector
  -- Partition index.
  pub k : Option ℕ

pub record PrivateSector (Tree : Type 0) : Type 0 where
  pub tree : Tree
  pub comm_c : Domain
  pub comm_r_last : Domain

pub record SectorProof (Inclusion : Type 0) : Type 0 where
  pub inclusion_proofs : List Inclusion
  pub comm_c : Domain
  pub comm_r_last : Domain

pub record Proof (Inclusion : Type 0) : Type 0 where
  pub sectors : List (SectorProof Inclusion)

-- What the proofs use of Merkle trees and their inclusion proofs (storage-proofs-core/src/merkle,
-- with the trees of other packages below it).
pub record MerkleTree (Tree Inclusion : Type 0) : Type 0 where
  pub leafs : Tree → ℕ
  pub arity : ℕ
  pub gen_cached_proof : Tree → ℕ → ℕ → Option Inclusion
  pub validate : Inclusion → ℕ → Bool
  pub root : Inclusion → Domain
  pub expected_len : Inclusion → ℕ → ℕ
  pub path_len : Inclusion → ℕ
