-- ===== src/Post/Partitions.antt =====
-- Proving and verifying all partitions (storage-proofs-post/src/fallback/vanilla.rs): what
-- `prove_all_partitions` returns, `verify_all_partitions` accepts.
use rust_fil_proofs.Base.{
  ℕ, zero, suc, ◌+◌, ◌-◌, ◌*◌, ◌≤◌, ◌<◌, ◌≡◌, refl, sym, ap, ◌∙◌, arith, true, List, [], ◌∷◌, ◌++◌,
  Option, none, some, ok, >>=-eq-ok, ==_iff, le→leb, u64, length, take, drop, length-take,
  length-drop, length-append,
}
use rust_fil_proofs.Post.Types.{
  Domain, PublicParams, PublicInputs, PublicSector, PrivateSector, SectorProof, Proof, MerkleTree,
}
use rust_fil_proofs.Post.Prove.{
  append, zip, chunks_loop, last_of, push_last, pad_proofs, prove_sector, prove_sectors,
  prove_chunks,
}
use rust_fil_proofs.Post.Verify.{both_valid, verify_sectors, verify, verify_chunks}
use rust_fil_proofs.Post.Complete.{
  ok_inj, insert-not_empty, append_nil, append_assoc, PathsFit, prove_sector-verify_sector,
}

append_empty : (xs ys : List ℕ) → append xs ys ≡ [] → (xs ≡ []) × (ys ≡ [])
unfolding append
append_empty [] ys h = (refl, h)
append_empty (x ∷ xs) ys h = absurd (insert-not_empty x (append xs ys) h)

pad_proofs-extends :
    {A : Type 0} (missing : ℕ) (xs out : List A)
    → pad_proofs missing xs ≡ ok out
    → (extra : List A) × (out ≡ xs ++ extra) × (length extra ≡ missing)
unfolding pad_proofs
pad_proofs-extends zero xs out h = ([], sym (ok_inj h) ∙ sym (append_nil xs), refl)
pad_proofs-extends {A = A} (suc missing) xs out h =
    let (longer, pushed, h') = >>=-eq-ok (push_last xs (last_of xs)) _ h in
    let (x, grown) = push_last-extends (last_of xs) longer pushed in
    let (extra, all, size) = pad_proofs-extends missing longer out h' in
    (
      x ∷ extra,
      all ∙ ap (λ (l : List A). l ++ extra) grown ∙ append_assoc xs (x ∷ []) extra,
      ap suc size,
    )
  where
    push_last-extends :
        (o : Option A) (longer : List A)
        → push_last xs o ≡ ok longer
        → (x : A) × (longer ≡ xs ++ x ∷ [])
    push_last-extends none longer h = cc
    push_last-extends (some x) longer h = (x, sym (ok_inj h))

-- One more chunk of `n` in front of `m` that cover what is left of `l`.
one_more :
    (n l m : ℕ)
    → 1 ≤ l
    → 1 ≤ n
    → l - n ≤ n * m
    → n * m < l - n + n
    → (l ≤ n * suc m) × (n * suc m < l + n)
one_more n l zero a b c d = (omega arith, omega arith)
one_more n l (suc m) a b c d = (omega arith, omega arith)

module _ {Tree Inclusion : Type 0} (merkle : MerkleTree Tree Inclusion) (sha256 : List ℕ → List ℕ)
    (hash2 : Domain → Domain → Domain) (row_count : ℕ → ℕ → ℕ) (rows_setting : ℕ)
    (pub_params : PublicParams)
    (fit : PathsFit merkle sha256 hash2 row_count rows_setting pub_params)
    (some_challenges : 1 ≤ pub_params.challenge_count) (randomness : Domain) where
  -- The sectors of a chunk, all without faults, are accepted, whatever padding follows them.
  prove_sectors-verify_sectors :
      (j i : ℕ) (pubs : List PublicSector) (privs : List (PrivateSector Tree))
      (proofs extra : List (SectorProof Inclusion))
      → length pubs ≡ length privs
      → prove_sectors merkle sha256 hash2 row_count rows_setting pub_params randomness j i
          (zip pubs privs)
        ≡ ok (proofs, [])
      → (verify_sectors merkle sha256 hash2 pub_params randomness j i (zip pubs (proofs ++ extra))
          ≡ ok true)
        × (length proofs ≡ length pubs)
  unfolding prove_sectors verify_sectors zip both_valid
  prove_sectors-verify_sectors j i [] [] proofs extra same h =
      let e : [] ≡ proofs = ap (λ p. p.0) (ok_inj h) in (refl, ap length (sym e))
  prove_sectors-verify_sectors j i [] (priv ∷ privs) proofs extra same h = absurd (omega arith)
  prove_sectors-verify_sectors j i (p ∷ pubs) [] proofs extra same h = absurd (omega arith)
  prove_sectors-verify_sectors j i (p ∷ pubs) (priv ∷ privs) proofs extra same h =
      let (one, run, h') =
        >>=-eq-ok
          (prove_sector merkle sha256 hash2 row_count rows_setting pub_params randomness
            (u64 (j * pub_params.sector_count + i)) (p, priv))
          _ h in
      let (rest, run_rest, h'') =
        >>=-eq-ok
          (prove_sectors merkle sha256 hash2 row_count rows_setting pub_params randomness j (i + 1)
            (zip pubs privs))
          _ h' in
      let e = ok_inj h'' in
      let (a, b) = append_empty one.1 rest.1 (ap (λ q. q.1) e) in
      let clean = run ∙ ap (λ (f : List ℕ). ok (one.0, f)) a in
      let clean_rest = run_rest ∙ ap (λ (f : List ℕ). ok (rest.0, f)) b in
      let valid =
        prove_sector-verify_sector merkle sha256 hash2 row_count rows_setting pub_params fit
          randomness (u64 (j * pub_params.sector_count + i)) p priv one.0 some_challenges clean in
      let (valid_rest, size) =
        prove_sectors-verify_sectors j (i + 1) pubs privs rest.0 extra (omega (arith, same))
          clean_rest in
      let shape : one.0 ∷ rest.0 ≡ proofs = ap (λ q. q.0) e in
      rw (sym shape) (rw (valid, valid_rest) refl, ap suc size)

  module _ (pub_inputs : PublicInputs) (ours : pub_inputs.randomness ≡ randomness) where
    chunk_inputs : ℕ → List PublicSector → PublicInputs
    chunk_inputs j pubs = record {
      randomness = pub_inputs.randomness;
      prover_id = pub_inputs.prover_id;
      sectors = pubs;
      k = some j;
    }

    verify-chunk :
        (j : ℕ) (pubs : List PublicSector) (privs : List (PrivateSector Tree))
        (proofs padded : List (SectorProof Inclusion))
        → length pubs ≡ length privs
        → length pubs ≤ pub_params.sector_count
        → prove_sectors merkle sha256 hash2 row_count rows_setting pub_params randomness j 0
            (zip pubs privs)
          ≡ ok (proofs, [])
        → pad_proofs (pub_params.sector_count - length proofs) proofs ≡ ok padded
        → verify merkle sha256 hash2 pub_params (chunk_inputs j pubs) (record { sectors = padded })
          ≡ ok true
    unfolding verify chunk_inputs
    verify-chunk j pubs privs proofs padded same fits h pad =
        let (extra, all, missing) =
          pad_proofs-extends (pub_params.sector_count - length proofs) proofs padded pad in
        let (valid, size) = prove_sectors-verify_sectors j 0 pubs privs proofs extra same h in
        let full : length padded ≡ pub_params.sector_count =
          ap length all ∙ omega (arith, length-append proofs extra, missing, size) in
        rw
          (
            le→leb (length pubs) pub_params.sector_count fits,
            (==_iff (length padded) pub_params.sector_count).1 full,
            all,
            ours,
          )
          valid

    pub prove_chunks-verify_chunks :
        (fuel j : ℕ) (pubs : List PublicSector) (privs : List (PrivateSector Tree))
        (proofs : List (Proof Inclusion))
        → 1 ≤ pub_params.sector_count
        → length pubs ≡ length privs
        → length pubs ≤ fuel
        → prove_chunks merkle sha256 hash2 row_count rows_setting pub_params randomness j (
            zip
              (chunks_loop fuel pub_params.sector_count pubs)
              (chunks_loop fuel pub_params.sector_count privs))
          ≡ ok (proofs, [])
        → (verify_chunks merkle sha256 hash2 pub_params pub_inputs j
              (zip proofs (chunks_loop fuel pub_params.sector_count pubs))
            ≡ ok true)
          × (length pubs ≤ pub_params.sector_count * length proofs)
          × (pub_params.sector_count * length proofs < length pubs + pub_params.sector_count)
    unfolding prove_chunks verify_chunks zip chunks_loop chunk_inputs
    prove_chunks-verify_chunks zero j [] privs proofs size same enough h =
        let e : [] ≡ proofs = ap (λ p. p.0) (ok_inj h) in
        rw (sym e) (refl, omega arith, omega arith)
    prove_chunks-verify_chunks zero j (p ∷ pubs) privs proofs size same enough h =
        absurd (omega arith)
    prove_chunks-verify_chunks (suc fuel) j [] [] proofs size same enough h =
        let e : [] ≡ proofs = ap (λ p. p.0) (ok_inj h) in
        rw (sym e) (refl, omega arith, omega arith)
    prove_chunks-verify_chunks (suc fuel) j [] (priv ∷ privs) proofs size same enough h =
        absurd (omega arith)
    prove_chunks-verify_chunks (suc fuel) j (p ∷ pubs) [] proofs size same enough h =
        absurd (omega arith)
    prove_chunks-verify_chunks (suc fuel) j (p ∷ pubs) (priv ∷ privs) proofs size same enough h =
        let n = pub_params.sector_count in
        let (chunk, run, h1) =
          >>=-eq-ok
            (prove_sectors merkle sha256 hash2 row_count rows_setting pub_params randomness j 0
              (zip (take n (p ∷ pubs)) (take n (priv ∷ privs))))
            _ h in
        let (padded, pad, h2) = >>=-eq-ok (pad_proofs (n - length chunk.0) chunk.0) _ h1 in
        let (rest, run_rest, h3) =
          >>=-eq-ok
            (prove_chunks merkle sha256 hash2 row_count rows_setting pub_params randomness (j + 1) (
              zip (chunks_loop fuel n (drop n (p ∷ pubs)))
                (chunks_loop fuel n (drop n (priv ∷ privs)))))
            _ h2 in
        let e = ok_inj h3 in
        let (a, b) = append_empty chunk.1 rest.1 (ap (λ q. q.1) e) in
        let shape : record { sectors = padded } ∷ rest.0 ≡ proofs = ap (λ q. q.0) e in
        let lt = length-take n (p ∷ pubs) in
        let lt' = length-take n (priv ∷ privs) in
        let ld = length-drop n (p ∷ pubs) in
        let ld' = length-drop n (priv ∷ privs) in
        let valid =
          verify-chunk j (take n (p ∷ pubs)) (take n (priv ∷ privs)) chunk.0 padded
            (omega (arith, lt, lt')) (omega (arith, lt))
            (run ∙ ap (λ (f : List ℕ). ok (chunk.0, f)) a) pad in
        let (valid_rest, covers, tight) =
          prove_chunks-verify_chunks fuel (j + 1) (drop n (p ∷ pubs)) (drop n (priv ∷ privs)) rest.0
            size (omega (arith, ld, ld')) (omega (arith, ld))
            (run_rest ∙ ap (λ (f : List ℕ). ok (rest.0, f)) b) in
        let (covers', tight') =
          one_more n (length (p ∷ pubs)) (length rest.0) (omega arith) size
            (omega (arith, ld, covers)) (omega (arith, ld, tight)) in
        rw (sym shape) (rw (valid, valid_rest) refl, covers', tight')
