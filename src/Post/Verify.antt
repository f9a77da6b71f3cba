-- ===== src/Post/Verify.antt =====
-- The verifier of storage-proofs-post/src/fallback/vanilla.rs: `verify` and
-- `verify_all_partitions`.
use rust_fil_proofs.Base.{
  ℕ, ◌+◌, ◌*◌, ◌/◌, Bool, true, false, ◌&&◌, List, [], ◌∷◌, ◌++◌, Option, none, some, Result, ok,
  err, ◌>>=◌, ◌>>◌, ensure, leb, ◌==◌, if◌then◌else◌, u64, length, le_bytes, bytes_eq,
}
use rust_fil_proofs.Post.Types.{
  Domain, PostError, PublicParams, PublicSector, PublicInputs, SectorProof, Proof, MerkleTree,
  inconsistent_sectors, no_partition_index, too_many_public_sectors, sector_proof_count,
  inclusion_proof_count,
}
use rust_fil_proofs.Post.Leaves.{node_size, get_challenge_index, generate_leaf_challenge_inner}
use rust_fil_proofs.Post.Prove.{zip, chunks, first_of}

-- `|all_valid, is_valid| Ok(all_valid? && is_valid?)`: the second is not looked at if the first is
-- false.
unfoldable pub both_valid : Result PostError Bool → Result PostError Bool → Result PostError Bool
both_valid all_valid is_valid = do valid ← all_valid; if valid then is_valid else ok false

module _ {Tree Inclusion : Type 0} (merkle : MerkleTree Tree Inclusion) (sha256 : List ℕ → List ℕ)
    (hash2 : Domain → Domain → Domain) where
  -- The checks on one inclusion proof, for the leaf it should be about.
  unfoldable pub inclusion_valid : PublicParams → Domain → ℕ → Inclusion → Bool
  inclusion_valid pub_params comm_r_last leaf proof =
      bytes_eq (merkle.root proof) comm_r_last
      && (merkle.expected_len proof (pub_params.sector_size / node_size) == merkle.path_len proof
          && merkle.validate proof leaf)

  -- The inclusion proofs of a sector, from the `n`-th on.
  unfoldable pub verify_challenges :
      PublicParams → List ℕ → ℕ → Domain → ℕ → List Inclusion → Result PostError Bool
  verify_challenges pub_params hasher sector_index comm_r_last n [] = ok true
  verify_challenges pub_params hasher sector_index comm_r_last n (proof ∷ proofs) = do
    let challenge_index =
        get_challenge_index pub_params.api_version sector_index pub_params.challenge_count n
    leaf ← generate_leaf_challenge_inner sha256 hasher pub_params challenge_index
    rest ← verify_challenges pub_params hasher sector_index comm_r_last (n + 1) proofs
    ok (inclusion_valid pub_params comm_r_last leaf proof && rest)

  unfoldable pub verify_sector :
      PublicParams → Domain → ℕ → PublicSector × SectorProof Inclusion → Result PostError Bool
  verify_sector pub_params randomness sector_index (pub_sector, sector_proof) = do
    first ← first_of sector_proof.inclusion_proofs
    let comm_r_last = merkle.root first
    let checked = (do
      ensure (pub_params.challenge_count == length sector_proof.inclusion_proofs)
          inclusion_proof_count
      verify_challenges pub_params (randomness ++ le_bytes 8 pub_sector.id) sector_index comm_r_last
          0 sector_proof.inclusion_proofs)
    if bytes_eq (hash2 sector_proof.comm_c comm_r_last) pub_sector.comm_r then checked else ok false

  -- The sectors of partition `j`, from the `i`-th on.
  unfoldable pub verify_sectors :
      PublicParams
      → Domain
      → ℕ
      → ℕ
      → List (PublicSector × SectorProof Inclusion)
      → Result PostError Bool
  verify_sectors pub_params randomness j i [] = ok true
  verify_sectors pub_params randomness j i (sector ∷ sectors) =
      both_valid
        (verify_sector pub_params randomness (u64 (j * pub_params.sector_count + i)) sector)
        (verify_sectors pub_params randomness j (i + 1) sectors)

  abbrev pub verify_partition :
      PublicParams → PublicInputs → Proof Inclusion → Option ℕ → Result PostError Bool
  verify_partition pub_params pub_inputs proof none = err no_partition_index
  verify_partition pub_params pub_inputs proof (some j) = do
    ensure (leb (length pub_inputs.sectors) pub_params.sector_count) too_many_public_sectors
    ensure (length proof.sectors == pub_params.sector_count) sector_proof_count
    verify_sectors pub_params pub_inputs.randomness j 0 (zip pub_inputs.sectors proof.sectors)

  unfoldable pub verify : PublicParams → PublicInputs → Proof Inclusion → Result PostError Bool
  verify pub_params pub_inputs partition_proof =
      verify_partition pub_params pub_inputs partition_proof pub_inputs.k

  -- The loop over the partitions, from the `j`-th on.
  unfoldable pub verify_chunks :
      PublicParams
      → PublicInputs
      → ℕ
      → List (Proof Inclusion × List PublicSector)
      → Result PostError Bool
  verify_chunks pub_params pub_inputs j [] = ok true
  verify_chunks pub_params pub_inputs j ((proof, pub_sectors_chunk) ∷ rest) = do
    is_valid ←
        verify pub_params
          (record {
            randomness = pub_inputs.randomness;
            prover_id = pub_inputs.prover_id;
            sectors = pub_sectors_chunk;
            k = some j;
          })
          proof
    let more = verify_chunks pub_params pub_inputs (j + 1) rest
    if is_valid then more else ok false

  unfoldable pub verify_all_partitions :
      PublicParams → PublicInputs → List (Proof Inclusion) → Result PostError Bool
  verify_all_partitions pub_params pub_inputs partition_proofs = do
    ensure
        (leb (length pub_inputs.sectors) (u64 (pub_params.sector_count * length partition_proofs)))
        inconsistent_sectors
    pub_chunks ← chunks pub_params.sector_count pub_inputs.sectors
    verify_chunks pub_params pub_inputs 0 (zip partition_proofs pub_chunks)
