-- ===== src/Post/Completeness.antt =====
-- The completeness of the fallback proof of spacetime (storage-proofs-post/src/fallback/vanilla.rs).
use rust_fil_proofs.Base.{
  ℕ, zero, suc, ◌+◌, ◌*◌, ◌≤◌, ◌^◌, ◌≡◌, refl, sym, arith, Bool, true, false, List, [], ◌∷◌, Result,
  ok, >>=-eq-ok, ensure, ◌==◌, ==_iff, leb, le→leb, u64, length,
}
use rust_fil_proofs.Post.Types.{
  Domain, PostError, PublicParams, PublicInputs, PublicSector, PrivateSector, Proof, MerkleTree,
  inconsistent_sectors, too_many_sectors,
}
use rust_fil_proofs.Post.Prove.{
  zip, chunks, chunks_loop, or_faulty, prove_chunks, prove_all_partitions,
}
use rust_fil_proofs.Post.Verify.{verify_all_partitions}
use rust_fil_proofs.Post.Complete.{ok_inj, PathsFit}
use rust_fil_proofs.Post.Partitions.{prove_chunks-verify_chunks}

ensure-eq-ok : {E : Type 0} (b : Bool) (e : E) {u : Unit {0}} → ensure b e ≡ ok u → b ≡ true
ensure-eq-ok true e h = refl
ensure-eq-ok false e h = cc

chunks-eq-ok :
    {A : Type 0} (size : ℕ) (xs : List A) (out : List (List A))
    → chunks size xs ≡ ok out
    → (1 ≤ size) × (out ≡ chunks_loop (length xs) size xs)
unfolding chunks
chunks-eq-ok zero xs out h = cc
chunks-eq-ok {A = A} (suc size) xs out h =
    let ne : (suc size == 0) ≡ false = ground arith in
    let h' : ◌≡◌ {A = Result PostError (List (List A))} (ok (chunks_loop (length xs) (suc size) xs))
        (ok out) =
      rw ne at h in
    (omega arith, sym (ok_inj h'))

chunks-suc :
    {A : Type 0} (size : ℕ) (xs : List A)
    → 1 ≤ size
    → chunks size xs ≡ ok (chunks_loop (length xs) size xs)
unfolding chunks
chunks-suc zero xs h = absurd (omega arith)
chunks-suc (suc size) xs h = let ne : (suc size == 0) ≡ false = ground arith in rw ne refl

or_faulty-eq-ok :
    {Tree Inclusion : Type 0} (merkle : MerkleTree Tree Inclusion) (sha256 : List ℕ → List ℕ)
    (hash2 : Domain → Domain → Domain) (row_count : ℕ → ℕ → ℕ) (rows_setting : ℕ)
    (proofs : List (Proof Inclusion)) (faults : List ℕ) (out : List (Proof Inclusion))
    → or_faulty merkle sha256 hash2 row_count rows_setting (proofs, faults) ≡ ok out
    → (faults ≡ []) × (proofs ≡ out)
or_faulty-eq-ok merkle sha256 hash2 row_count rows_setting proofs [] out h = (refl, ok_inj h)
or_faulty-eq-ok merkle sha256 hash2 row_count rows_setting proofs (f ∷ faults) out h = cc

-- The run of the prover with everything that is known put in.
settled :
    {Tree Inclusion : Type 0} (merkle : MerkleTree Tree Inclusion) (sha256 : List ℕ → List ℕ)
    (hash2 : Domain → Domain → Domain) (row_count : ℕ → ℕ → ℕ) (rows_setting : ℕ)
    (pub_params : PublicParams) (randomness : Domain) (n : ℕ) (pubs : List PublicSector)
    (privs : List (PrivateSector Tree)) (pub_chunks : List (List PublicSector))
    (priv_chunks : List (List (PrivateSector Tree))) (found proofs : List (Proof Inclusion))
    (faults : List ℕ)
    → length privs ≡ length pubs
    → pub_chunks ≡ chunks_loop (length pubs) n pubs
    → priv_chunks ≡ chunks_loop (length privs) n privs
    → faults ≡ []
    → found ≡ proofs
    → prove_chunks merkle sha256 hash2 row_count rows_setting pub_params randomness 0
        (zip pub_chunks priv_chunks)
      ≡ ok (found, faults)
    → prove_chunks merkle sha256 hash2 row_count rows_setting pub_params randomness 0
        (zip (chunks_loop (length pubs) n pubs) (chunks_loop (length pubs) n privs))
      ≡ ok (proofs, [])
settled merkle sha256 hash2 row_count rows_setting pub_params randomness n pubs privs pub_chunks
      priv_chunks found proofs faults equal c1 c2 clean out run =
    rw (c1, c2, equal, clean, out) at run

-- With one challenge or more per sector, and generated paths of the length that the verifier
-- expects: the proofs that `prove_all_partitions` returns, for any number of sectors, are accepted
-- by `verify_all_partitions` for the same parameters and public inputs (the number of sectors and
-- the sectors of a partition together at most 2 ^ 64).
pub prove_all_partitions-verify_all_partitions :
    {Tree Inclusion : Type 0} (merkle : MerkleTree Tree Inclusion) (sha256 : List ℕ → List ℕ)
    (hash2 : Domain → Domain → Domain) (row_count : ℕ → ℕ → ℕ) (rows_setting : ℕ)
    (pub_params : PublicParams) (pub_inputs : PublicInputs) (privs : List (PrivateSector Tree))
    (partition_count : ℕ) (proofs : List (Proof Inclusion))
    → PathsFit merkle sha256 hash2 row_count rows_setting pub_params
    → 1 ≤ pub_params.challenge_count
    → length pub_inputs.sectors + pub_params.sector_count ≤ 2 ^ 64
    → prove_all_partitions merkle sha256 hash2 row_count rows_setting pub_params pub_inputs privs
        partition_count
      ≡ ok proofs
    → verify_all_partitions merkle sha256 hash2 pub_params pub_inputs proofs ≡ ok true
unfolding prove_all_partitions verify_all_partitions
prove_all_partitions-verify_all_partitions merkle sha256 hash2 row_count rows_setting pub_params
      pub_inputs privs partition_count proofs fit some_challenges small h =
    let n = pub_params.sector_count in
    let pubs = pub_inputs.sectors in
    let (_, same, h1) = >>=-eq-ok (ensure (length privs == length pubs) inconsistent_sectors) _ h in
    let equal : length privs ≡ length pubs =
      (==_iff (length privs) (length pubs)).0
        (ensure-eq-ok (length privs == length pubs) inconsistent_sectors same) in
    let (_, _, h2) =
      >>=-eq-ok (ensure (leb (length pubs) (u64 (partition_count * n))) too_many_sectors) _ h1 in
    let (pub_chunks, e1, h3) = >>=-eq-ok (chunks n pubs) _ h2 in
    let (priv_chunks, e2, h4) = >>=-eq-ok (chunks n privs) _ h3 in
    let (size, c1) = chunks-eq-ok n pubs pub_chunks e1 in
    let (_, c2) = chunks-eq-ok n privs priv_chunks e2 in
    let (result, run, h5) =
      >>=-eq-ok
        (prove_chunks merkle sha256 hash2 row_count rows_setting pub_params pub_inputs.randomness 0
          (zip pub_chunks priv_chunks))
        _ h4 in
    let (clean, out) =
      or_faulty-eq-ok merkle sha256 hash2 row_count rows_setting result.0 result.1 proofs h5 in
    let run' =
      settled merkle sha256 hash2 row_count rows_setting pub_params pub_inputs.randomness n pubs
        privs pub_chunks priv_chunks result.0 proofs result.1 equal c1 c2 clean out run in
    let (valid, covers, tight) =
      prove_chunks-verify_chunks merkle sha256 hash2 row_count rows_setting pub_params fit
        some_challenges pub_inputs.randomness pub_inputs refl (length pubs) 0 pubs privs proofs size
        (sym equal) (omega arith) run' in
    let word : u64 (n * length proofs) ≡ n * length proofs = omega (arith, tight) in
    rw (word, le→leb (length pubs) (n * length proofs) covers, chunks-suc n pubs size) valid
