-- ===== src/Post/Leaves.antt =====
-- The challenges of storage-proofs-post/src/fallback: which sector, which leaf, and the index from
-- which a leaf is drawn (vanilla.rs, utils.rs), and where they lie. SHA-256 is a parameter.
use native.Mathlib.Nat.{mod-lt}
use rust_fil_proofs.Base.{
  ℕ, zero, suc, ◌+◌, ◌*◌, ◌/◌, ◌%◌, ◌<◌, ◌≤◌, ◌≡◌, refl, ap, arith, false, List, [], ◌∷◌, ◌++◌,
  Result, ok, panic, ◌>>=◌, ◌==◌, if◌then◌else◌, u64, take, length, All, le_bytes, from_le,
}
use rust_fil_proofs.Api.{ApiVersion, v1_0_0, v1_1_0, v1_2_0}
use rust_fil_proofs.Post.Types.{Domain, PublicParams, PostError}

abbrev pub node_size : ℕ
node_size = 32

-- `get_challenge_index` of utils.rs.
unfoldable pub get_challenge_index : ApiVersion → ℕ → ℕ → ℕ → ℕ
get_challenge_index v1_0_0 sector_index challenge_count_per_sector challenge_index =
    u64 (sector_index * challenge_count_per_sector + challenge_index)
get_challenge_index v1_1_0 sector_index challenge_count_per_sector challenge_index =
    u64 (sector_index * challenge_count_per_sector + challenge_index)
get_challenge_index v1_2_0 sector_index challenge_count_per_sector challenge_index = challenge_index

-- `%` by zero panics.
unfoldable pub rem_checked : ℕ → ℕ → Result PostError ℕ
rem_checked a b = if b == 0 then panic else ok (a % b)

module _ (sha256 : List ℕ → List ℕ) where
  unfoldable pub generate_sector_challenge : Domain → ℕ → ℕ → Domain → Result PostError ℕ
  generate_sector_challenge randomness n sector_set_len prover_id =
      let hash = sha256 (prover_id ++ (randomness ++ le_bytes 8 n)) in
      rem_checked (from_le (take 8 hash)) sector_set_len

  -- The challenges with the numbers from `n` on, `count` of them.
  unfoldable pub sector_challenges_from : ℕ → ℕ → Domain → ℕ → Domain → Result PostError (List ℕ)
  sector_challenges_from n zero randomness sector_set_len prover_id = ok []
  sector_challenges_from n (suc count) randomness sector_set_len prover_id = do
    challenge ← generate_sector_challenge randomness n sector_set_len prover_id
    rest ← sector_challenges_from (n + 1) count randomness sector_set_len prover_id
    ok (challenge ∷ rest)

  unfoldable pub generate_sector_challenges : Domain → ℕ → ℕ → Domain → Result PostError (List ℕ)
  generate_sector_challenges randomness challenge_count sector_set_len prover_id =
      sector_challenges_from 0 challenge_count randomness sector_set_len prover_id

  -- A hasher is the list of bytes that it was given.
  unfoldable pub generate_leaf_challenge_inner : List ℕ → PublicParams → ℕ → Result PostError ℕ
  generate_leaf_challenge_inner hasher pub_params leaf_challenge_index =
      let hash = sha256 (hasher ++ le_bytes 8 leaf_challenge_index) in
      rem_checked (from_le (take 8 hash)) (pub_params.sector_size / node_size)

  unfoldable pub generate_leaf_challenge : PublicParams → Domain → ℕ → ℕ → Result PostError ℕ
  generate_leaf_challenge pub_params randomness sector_id leaf_challenge_index =
      generate_leaf_challenge_inner (randomness ++ le_bytes 8 sector_id) pub_params
        leaf_challenge_index

  unfoldable pub leaf_challenges_from : List ℕ → PublicParams → ℕ → ℕ → Result PostError (List ℕ)
  leaf_challenges_from hasher pub_params challenge_index zero = ok []
  leaf_challenges_from hasher pub_params challenge_index (suc count) = do
    challenge ← generate_leaf_challenge_inner hasher pub_params challenge_index
    rest ← leaf_challenges_from hasher pub_params (challenge_index + 1) count
    ok (challenge ∷ rest)

  unfoldable pub generate_leaf_challenges :
      PublicParams → Domain → ℕ → ℕ → Result PostError (List ℕ)
  generate_leaf_challenges pub_params randomness sector_id challenge_count =
      leaf_challenges_from (randomness ++ le_bytes 8 sector_id) pub_params 0 challenge_count

module _ (sha256 : List ℕ → List ℕ) where
  leaf_lem :
      (hasher : List ℕ) (pub_params : PublicParams) (n : ℕ)
      → 1 ≤ pub_params.sector_size / node_size
      → (leaf : ℕ) × (generate_leaf_challenge_inner sha256 hasher pub_params n ≡ ok leaf)
        × (leaf < pub_params.sector_size / node_size)
  unfolding generate_leaf_challenge_inner rem_checked
  leaf_lem hasher pub_params n h =
      let nodes = pub_params.sector_size / node_size in
      let x = from_le (take 8 (sha256 (hasher ++ le_bytes 8 n))) in
      let ne : (nodes == 0) ≡ false = ground arith in (x % nodes, rw ne refl, mod-lt x h)

  leaves_lem :
      (hasher : List ℕ) (pub_params : PublicParams) (n count : ℕ)
      → 1 ≤ pub_params.sector_size / node_size
      → (leaves : List ℕ) × (leaf_challenges_from sha256 hasher pub_params n count ≡ ok leaves)
        × (length leaves ≡ count)
        × All (λ leaf. leaf < pub_params.sector_size / node_size) leaves
  unfolding leaf_challenges_from
  leaves_lem hasher pub_params n zero h = ([], refl, refl, tt)
  leaves_lem hasher pub_params n (suc count) h =
      let (leaf, e, p) = leaf_lem hasher pub_params n h in
      let (leaves, es, size, ps) = leaves_lem hasher pub_params (n + 1) count h in
      (leaf ∷ leaves, rw (e, es) refl, ap suc size, (p, ps))

  -- For a sector of one node or more, `generate_leaf_challenges` returns as many challenges as it is
  -- asked for, each a node of the sector.
  pub generate_leaf_challenges-All :
      (pub_params : PublicParams) (randomness : Domain) (sector_id count : ℕ)
      → 1 ≤ pub_params.sector_size / node_size
      → (leaves : List ℕ) × (generate_leaf_challenges sha256 pub_params randomness sector_id count
          ≡ ok leaves)
        × (length leaves ≡ count)
        × All (λ leaf. leaf < pub_params.sector_size / node_size) leaves
  unfolding generate_leaf_challenges
  generate_leaf_challenges-All pub_params randomness sector_id count h =
      leaves_lem (randomness ++ le_bytes 8 sector_id) pub_params 0 count h
