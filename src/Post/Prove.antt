-- ===== src/Post/Prove.antt =====
-- The prover of storage-proofs-post/src/fallback/vanilla.rs: `vanilla_proof`, `prove` and
-- `prove_all_partitions`. The parallel folds keep the order of their lists.
use rust_fil_proofs.Base.{
  ℕ, zero, suc, ◌+◌, ◌-◌, ◌*◌, min, Bool, ◌&&◌, List, [], ◌∷◌, ◌++◌, Option, none, some, Result, ok,
  err, panic, ◌>>=◌, ◌>>◌, ensure, assert, ltb, leb, ◌==◌, if◌then◌else◌, u64, length, take, drop,
  le_bytes, bytes_eq,
}
use rust_fil_proofs.Post.Types.{
  Domain, PostError, SetupParams, PublicParams, ChallengeRequirements, PublicSector, PublicInputs,
  PrivateSector, SectorProof, Proof, MerkleTree, multiple_sectors, invalid_proof,
  inconsistent_sectors, too_many_sectors, faulty_sectors, merkle_error,
}
use rust_fil_proofs.Post.Leaves.{get_challenge_index, generate_leaf_challenge_inner}

-- `default_rows_to_discard` of storage-proofs-core/src/util.rs. The rows of a tree are counted by
-- another package; the number of rows to discard is a setting.
unfoldable pub default_rows_to_discard : (ℕ → ℕ → ℕ) → ℕ → ℕ → ℕ → ℕ
default_rows_to_discard get_merkle_tree_row_count rows_to_discard leafs arity =
    let row_count = get_merkle_tree_row_count leafs arity in
    let max_rows_to_discard = row_count - 2 in
    if leb row_count 2
    then 0
    else if row_count == 3
    then 1
    else if arity == 2
    then min max_rows_to_discard 7
    else if arity == 4
    then min max_rows_to_discard 5
    else min max_rows_to_discard rows_to_discard

-- `BTreeSet::insert`, on the sorted list of elements.
unfoldable pub insert : ℕ → List ℕ → List ℕ
insert x [] = x ∷ []
insert x (y ∷ ys) =
    let rest = insert x ys in if ltb x y then x ∷ y ∷ ys else if x == y then y ∷ ys else y ∷ rest

-- `BTreeSet::append`.
unfoldable pub append : List ℕ → List ℕ → List ℕ
append [] ys = ys
append (x ∷ xs) ys = insert x (append xs ys)

-- `slice::chunks`; a chunk size of zero panics. Each chunk takes at least one element, so the
-- length is fuel enough.
unfoldable pub chunks_loop : {A : Type 0} → ℕ → ℕ → List A → List (List A)
chunks_loop zero size xs = []
chunks_loop (suc fuel) size [] = []
chunks_loop (suc fuel) size (x ∷ xs) =
    take size (x ∷ xs) ∷ chunks_loop fuel size (drop size (x ∷ xs))

unfoldable pub chunks : {A : Type 0} → ℕ → List A → Result PostError (List (List A))
unfolding chunks_loop
chunks size xs = if size == 0 then panic else ok (chunks_loop (length xs) size xs)

unfoldable pub zip : {A B : Type 0} → List A → List B → List (A × B)
zip [] ys = []
zip (x ∷ xs) [] = []
zip (x ∷ xs) (y ∷ ys) = (x, y) ∷ zip xs ys

unfoldable pub setup : SetupParams → PublicParams
setup sp = record {
  sector_size = sp.sector_size;
  challenge_count = sp.challenge_count;
  sector_count = sp.sector_count;
  api_version = sp.api_version;
}

-- `proofs.push(proofs[proofs.len() - 1].clone())` until there are `sector_count`, with `missing`
-- still to come.
unfoldable pub last_of : {A : Type 0} → List A → Option A
last_of [] = none
last_of (x ∷ []) = some x
last_of (x ∷ y ∷ xs) = last_of (y ∷ xs)

abbrev pub push_last : {A : Type 0} → List A → Option A → Result PostError (List A)
push_last xs none = panic
push_last xs (some x) = ok (xs ++ x ∷ [])

unfoldable pub pad_proofs : {A : Type 0} → ℕ → List A → Result PostError (List A)
pad_proofs zero proofs = ok proofs
pad_proofs (suc missing) proofs = do
  longer ← push_last proofs (last_of proofs)
  pad_proofs missing longer

-- Index 0.
abbrev pub first_of : {A : Type 0} → List A → Result PostError A
first_of [] = panic
first_of (x ∷ xs) = ok x

abbrev pub partition_or_zero : Option ℕ → ℕ
partition_or_zero none = 0
partition_or_zero (some k) = k

unfoldable pub satisfies_requirements :
    PublicParams → ChallengeRequirements → ℕ → Result PostError Bool
satisfies_requirements public_params requirements partitions = do
  let checked = u64 (partitions * public_params.sector_count)
  assert (partitions * public_params.sector_count == checked)
  assert (checked * public_params.challenge_count == u64 (checked * public_params.challenge_count))
  ok (leb requirements.minimum_challenge_count (u64 (checked * public_params.challenge_count)))

module _ {Tree Inclusion : Type 0} (merkle : MerkleTree Tree Inclusion) (sha256 : List ℕ → List ℕ)
    (hash2 : Domain → Domain → Domain) (get_merkle_tree_row_count : ℕ → ℕ → ℕ)
    (rows_setting : ℕ) where
  -- The rows to discard for the tree of a sector.
  abbrev pub rows : Tree → ℕ
  rows tree =
      default_rows_to_discard get_merkle_tree_row_count rows_setting (merkle.leafs tree)
        merkle.arity

  abbrev pub checked_proof : PrivateSector Tree → ℕ → Option Inclusion → Result PostError Inclusion
  checked_proof priv_sector leaf none = err merkle_error
  checked_proof priv_sector leaf (some proof) = do
    ensure (merkle.validate proof leaf && bytes_eq (merkle.root proof) priv_sector.comm_r_last)
        invalid_proof
    ok proof

  unfoldable pub vanilla_paths : PrivateSector Tree → List ℕ → Result PostError (List Inclusion)
  vanilla_paths priv_sector [] = ok []
  vanilla_paths priv_sector (leaf ∷ leaves) = do
    proof ←
        checked_proof priv_sector leaf
          (merkle.gen_cached_proof priv_sector.tree leaf (rows priv_sector.tree))
    rest ← vanilla_paths priv_sector leaves
    ok (proof ∷ rest)

  unfoldable pub vanilla_proof :
      List (PrivateSector Tree) → List ℕ → Result PostError (Proof Inclusion)
  vanilla_proof [] challenges = err multiple_sectors
  vanilla_proof (first ∷ second ∷ sectors) challenges = err multiple_sectors
  vanilla_proof (priv_sector ∷ []) challenges = do
    inclusion_proofs ← vanilla_paths priv_sector challenges
    ok (record {
      sectors =
          record {
            inclusion_proofs = inclusion_proofs;
            comm_c = priv_sector.comm_c;
            comm_r_last = priv_sector.comm_r_last;
          }
          ∷ [];
    })

  -- The `match` on a generated proof: the proof is kept, or the sector is faulty.
  abbrev pub keep_or_fault :
      PublicSector
      → PrivateSector Tree
      → ℕ
      → Option Inclusion
      → List Inclusion × List ℕ
      → List Inclusion × List ℕ
  keep_or_fault pub_sector priv_sector leaf none (inclusion_proofs, faults) =
      (inclusion_proofs, insert pub_sector.id faults)
  keep_or_fault pub_sector priv_sector leaf (some proof) (inclusion_proofs, faults) =
      if merkle.validate proof leaf
        && (bytes_eq (merkle.root proof) priv_sector.comm_r_last
            && bytes_eq pub_sector.comm_r (hash2 priv_sector.comm_c priv_sector.comm_r_last))
      then (inclusion_proofs ++ proof ∷ [], faults)
      else (inclusion_proofs, insert pub_sector.id faults)

  -- The fold over the challenges of a sector: `count` challenges from number `n` on.
  unfoldable pub prove_challenges :
      PublicParams
      → PublicSector
      → PrivateSector Tree
      → List ℕ
      → ℕ
      → ℕ
      → ℕ
      → List Inclusion × List ℕ
      → Result PostError (List Inclusion × List ℕ)
  prove_challenges pub_params pub_sector priv_sector hasher sector_index n zero acc = ok acc
  prove_challenges pub_params pub_sector priv_sector hasher sector_index n (suc count) acc = do
    let challenge_index =
        get_challenge_index pub_params.api_version sector_index pub_params.challenge_count n
    leaf ← generate_leaf_challenge_inner sha256 hasher pub_params challenge_index
    let proof = merkle.gen_cached_proof priv_sector.tree leaf (rows priv_sector.tree)
    prove_challenges pub_params pub_sector priv_sector hasher sector_index (n + 1) count
        (keep_or_fault pub_sector priv_sector leaf proof acc)

  unfoldable pub prove_sector :
      PublicParams
      → Domain
      → ℕ
      → PublicSector × PrivateSector Tree
      → Result PostError (SectorProof Inclusion × List ℕ)
  prove_sector pub_params randomness sector_index (pub_sector, priv_sector) = do
    let hasher = randomness ++ le_bytes 8 pub_sector.id
    (inclusion_proofs, faults) ←
        prove_challenges pub_params pub_sector priv_sector hasher sector_index 0
          pub_params.challenge_count ([], [])
    ok (
      record {
        inclusion_proofs = inclusion_proofs;
        comm_c = priv_sector.comm_c;
        comm_r_last = priv_sector.comm_r_last;
      },
      faults,
    )

  -- The sectors of chunk `j`, from the `i`-th on.
  unfoldable pub prove_sectors :
      PublicParams
      → Domain
      → ℕ
      → ℕ
      → List (PublicSector × PrivateSector Tree)
      → Result PostError (List (SectorProof Inclusion) × List ℕ)
  prove_sectors pub_params randomness j i [] = ok ([], [])
  prove_sectors pub_params randomness j i (sector ∷ sectors) = do
    (proof, faults) ←
        prove_sector pub_params randomness (u64 (j * pub_params.sector_count + i)) sector
    (proofs, more_faults) ← prove_sectors pub_params randomness j (i + 1) sectors
    ok (proof ∷ proofs, append faults more_faults)

  -- The loop over the chunks, from the `j`-th on.
  unfoldable pub prove_chunks :
      PublicParams
      → Domain
      → ℕ
      → List (List PublicSector × List (PrivateSector Tree))
      → Result PostError (List (Proof Inclusion) × List ℕ)
  prove_chunks pub_params randomness j [] = ok ([], [])
  prove_chunks pub_params randomness j ((pub_chunk, priv_chunk) ∷ rest) = do
    (proofs, faults) ← prove_sectors pub_params randomness j 0 (zip pub_chunk priv_chunk)
    padded ← pad_proofs (pub_params.sector_count - length proofs) proofs
    (partition_proofs, more_faults) ← prove_chunks pub_params randomness (j + 1) rest
    ok (record { sectors = padded } ∷ partition_proofs, append faults more_faults)

  abbrev pub or_faulty : List (Proof Inclusion) × List ℕ → Result PostError (List (Proof Inclusion))
  or_faulty (proofs, []) = ok proofs
  or_faulty (proofs, fault ∷ faults) = err (faulty_sectors (fault ∷ faults))

  unfoldable pub prove_all_partitions :
      PublicParams
      → PublicInputs
      → List (PrivateSector Tree)
      → ℕ
      → Result PostError (List (Proof Inclusion))
  prove_all_partitions pub_params pub_inputs priv_sectors partition_count = do
    ensure (length priv_sectors == length pub_inputs.sectors) inconsistent_sectors
    ensure (leb (length pub_inputs.sectors) (u64 (partition_count * pub_params.sector_count)))
        too_many_sectors
    pub_chunks ← chunks pub_params.sector_count pub_inputs.sectors
    priv_chunks ← chunks pub_params.sector_count priv_sectors
    result ← prove_chunks pub_params pub_inputs.randomness 0 (zip pub_chunks priv_chunks)
    or_faulty result

  unfoldable pub prove :
      PublicParams → PublicInputs → List (PrivateSector Tree) → Result PostError (Proof Inclusion)
  prove pub_params pub_inputs priv_sectors = do
    proofs ← prove_all_partitions pub_params pub_inputs priv_sectors 1
    assert (ltb (partition_or_zero pub_inputs.k) 1)
    first_of proofs
