-- ===== src/Post/Sound.antt =====
-- What the acceptance of a sector means (storage-proofs-post/src/fallback/vanilla.rs).
use rust_fil_proofs.Base.{
  ℕ, ◌+◌, ◌≡◌, refl, sym, ap, ◌∙◌, Bool, true, false, List, [], ◌∷◌, ◌++◌, Result, ok, ◌>>◌,
  >>=-eq-ok, ensure, ◌==◌, ==_iff, length, le_bytes, bytes_eq, eq_of_bytes_eq, both_true,
  Bool-cases, inl, inr,
}
use rust_fil_proofs.Post.Types.{
  Domain, PostError, PublicParams, PublicSector, SectorProof, MerkleTree, inclusion_proof_count,
}
use rust_fil_proofs.Post.Leaves.{get_challenge_index, generate_leaf_challenge_inner}
use rust_fil_proofs.Post.Prove.{first_of}
use rust_fil_proofs.Post.Verify.{inclusion_valid, verify_challenges, verify_sector}
use rust_fil_proofs.Post.Complete.{ok_inj, GoodPaths}

ensure_lem :
    {E : Type 0} {A : Type 0} (b : Bool) (e : E) (rest : Result E A) (a : A)
    → (ensure b e >> rest) ≡ ok a
    → (b ≡ true) × (rest ≡ ok a)
ensure_lem true e rest a h = (refl, h)
ensure_lem false e rest a h = cc

module _ {Tree Inclusion : Type 0} (merkle : MerkleTree Tree Inclusion) (sha256 : List ℕ → List ℕ)
    (hash2 : Domain → Domain → Domain) (row_count : ℕ → ℕ → ℕ) (rows_setting : ℕ)
    (pub_params : PublicParams) where
  GoodPaths-of_verify_challenges :
      (hasher : List ℕ) (sector_index : ℕ) (comm_r_last : Domain) (n : ℕ) (proofs : List Inclusion)
      → verify_challenges merkle sha256 hash2 pub_params hasher sector_index comm_r_last n proofs
        ≡ ok true
      → GoodPaths merkle sha256 hash2 row_count rows_setting pub_params hasher sector_index
          comm_r_last n
          (length proofs)
          proofs
  unfolding verify_challenges
  GoodPaths-of_verify_challenges hasher sector_index comm_r_last n [] h = GoodPaths.done n
  GoodPaths-of_verify_challenges hasher sector_index comm_r_last n (proof ∷ proofs) h =
      let (leaf, drawn, h1) =
        >>=-eq-ok
          (generate_leaf_challenge_inner sha256 hasher pub_params
            (get_challenge_index pub_params.api_version sector_index pub_params.challenge_count n))
          _ h in
      let (rest, e, h2) =
        >>=-eq-ok
          (verify_challenges merkle sha256 hash2 pub_params hasher sector_index comm_r_last (n + 1)
            proofs)
          _ h1 in
      let (valid, last) =
        both_true (inclusion_valid merkle sha256 hash2 pub_params comm_r_last leaf proof) rest
          (ok_inj h2) in
      GoodPaths.more n (length proofs) leaf proof proofs drawn valid (
        GoodPaths-of_verify_challenges hasher sector_index comm_r_last (n + 1) proofs
          (e ∙ ap (λ (b : Bool). ok b) last))

  recount :
      (hasher : List ℕ) (sector_index : ℕ) (comm_r_last : Domain) (n : ℕ) (proofs : List Inclusion)
      (c d : ℕ)
      → c ≡ d
      → GoodPaths merkle sha256 hash2 row_count rows_setting pub_params hasher sector_index
          comm_r_last n c proofs
      → GoodPaths merkle sha256 hash2 row_count rows_setting pub_params hasher sector_index
          comm_r_last n d proofs
  recount hasher sector_index comm_r_last n proofs c d e good = rw e at good

  -- A sector proof that `verify_sector` accepts has as many inclusion proofs as there are
  -- challenges; the hash of its `comm_c` and the root of its first inclusion proof is the sector's
  -- `comm_r`; and the inclusion proofs, in order, are valid for the leaves that the challenges draw,
  -- with the expected path length and that root.
  pub verify_sector-GoodPaths :
      (randomness : Domain) (sector_index : ℕ) (pub_sector : PublicSector)
      (sector_proof : SectorProof Inclusion)
      → verify_sector merkle sha256 hash2 pub_params randomness sector_index
          (pub_sector, sector_proof)
        ≡ ok true
      → (first : Inclusion) × (first_of sector_proof.inclusion_proofs ≡ ok first)
        × (hash2 sector_proof.comm_c (merkle.root first) ≡ pub_sector.comm_r)
        × GoodPaths merkle sha256 hash2 row_count rows_setting pub_params
            (randomness ++ le_bytes 8 pub_sector.id)
            sector_index
            (merkle.root first)
            0
            pub_params.challenge_count
            sector_proof.inclusion_proofs
  unfolding verify_sector
  verify_sector-GoodPaths randomness sector_index pub_sector sector_proof h =
      let (first, head, h1) = >>=-eq-ok (first_of sector_proof.inclusion_proofs) _ h in
      elim (Bool-cases
        (bytes_eq (hash2 sector_proof.comm_c (merkle.root first)) pub_sector.comm_r)) [
          | inl same ↦
              let h2 = rw same at h1 in
              let (counted, h3) =
                ensure_lem (pub_params.challenge_count == length sector_proof.inclusion_proofs)
                  inclusion_proof_count _ true h2 in
              let size : pub_params.challenge_count ≡ length sector_proof.inclusion_proofs =
                (==_iff pub_params.challenge_count (length sector_proof.inclusion_proofs)).0
                  counted in
              (
                first,
                head,
                eq_of_bytes_eq _ _ same,
                recount (randomness ++ le_bytes 8 pub_sector.id) sector_index (merkle.root first) 0
                    sector_proof.inclusion_proofs _ _ (sym size)
                    (GoodPaths-of_verify_challenges (randomness ++ le_bytes 8 pub_sector.id)
                      sector_index (merkle.root first) 0 sector_proof.inclusion_proofs h3),
              )
          | inr other ↦
              let h2 : ◌≡◌ {A = Result PostError Bool} (ok false) (ok true) = rw other at h1 in cc
        ]
