-- ===== src/Post/Complete.antt =====
-- A proof that the prover of storage-proofs-post/src/fallback/vanilla.rs returns is accepted by its
-- verifier: the sectors.
use rust_fil_proofs.Base.{
  ℕ, zero, suc, ◌+◌, ◌/◌, ◌≤◌, ◌≡◌, refl, sym, ap, ◌∙◌, arith, true, ◌&&◌, List, [], ◌∷◌, ◌++◌,
  Option, none, some, Result, ok, >>=-eq-ok, ==_iff, length, le_bytes, bytes_eq, bytes_eq_refl,
  eq_of_bytes_eq, both_true, ◌⊎◌, inl, inr, Bool-cases,
}
use rust_fil_proofs.Post.Types.{
  Domain, PublicParams, PublicSector, PrivateSector, SectorProof, MerkleTree,
}
use rust_fil_proofs.Post.Leaves.{node_size, get_challenge_index, generate_leaf_challenge_inner}
use rust_fil_proofs.Post.Prove.{
  first_of, insert, rows, keep_or_fault, prove_challenges, prove_sector,
}
use rust_fil_proofs.Post.Verify.{inclusion_valid, verify_challenges, verify_sector}

pub insert-not_empty : (x : ℕ) (xs : List ℕ) → ¬ (insert x xs ≡ [])
unfolding insert
insert-not_empty x [] h = cc
insert-not_empty x (y ∷ ys) h = ground arith

pub ok_inj {ℓ} : {E : Type 0} {A : Type ℓ} {a b : A} → ◌≡◌ {A = Result E A} (ok a) (ok b) → a ≡ b
ok_inj h = cc

pub append_nil {ℓ} : {A : Type ℓ} (xs : List A) → xs ++ [] ≡ xs
append_nil [] = refl
append_nil (x ∷ xs) = rw (append_nil xs) refl

pub append_assoc {ℓ} : {A : Type ℓ} (xs ys zs : List A) → (xs ++ ys) ++ zs ≡ xs ++ (ys ++ zs)
append_assoc [] ys zs = refl
append_assoc (x ∷ xs) ys zs = rw (append_assoc xs ys zs) refl

module _ {Tree Inclusion : Type 0} (merkle : MerkleTree Tree Inclusion) (sha256 : List ℕ → List ℕ)
    (hash2 : Domain → Domain → Domain) (row_count : ℕ → ℕ → ℕ) (rows_setting : ℕ)
    (pub_params : PublicParams) where
  -- The inclusion proofs for the challenges from number `n` on, `count` of them: each is about the
  -- leaf that the challenge draws, has the right path and the right root.
  pub data GoodPaths (hasher : List ℕ) (sector_index : ℕ) (comm_r_last : Domain)
      : ℕ → ℕ → List Inclusion → Type 0 where
    done : (n : ℕ) → GoodPaths hasher sector_index comm_r_last n 0 []
    more :
        (n count leaf : ℕ) (proof : Inclusion) (proofs : List Inclusion)
        → generate_leaf_challenge_inner sha256 hasher pub_params
            (get_challenge_index pub_params.api_version sector_index pub_params.challenge_count n)
          ≡ ok leaf
        → inclusion_valid merkle sha256 hash2 pub_params comm_r_last leaf proof ≡ true
        → GoodPaths hasher sector_index comm_r_last (n + 1) count proofs
        → GoodPaths hasher sector_index comm_r_last n (suc count) (proof ∷ proofs)

  verify_challenges-GoodPaths :
      {hasher : List ℕ} {sector_index : ℕ} {comm_r_last : Domain} {n count : ℕ}
      {proofs : List Inclusion}
      → GoodPaths hasher sector_index comm_r_last n count proofs
      → (verify_challenges merkle sha256 hash2 pub_params hasher sector_index comm_r_last n proofs
          ≡ ok true)
        × (length proofs ≡ count)
  unfolding verify_challenges
  verify_challenges-GoodPaths (GoodPaths.done n) = (refl, refl)
  verify_challenges-GoodPaths (GoodPaths.more n count leaf proof proofs e v rest) =
      let (valid, size) = verify_challenges-GoodPaths rest in (rw (e, valid, v) refl, ap suc size)

  -- What the prover found when it kept a proof.
  record Kept (pub_sector : PublicSector) (priv_sector : PrivateSector Tree) (leaf : ℕ)
      (proof : Inclusion) : Type 0 where
    pub generated :
        merkle.gen_cached_proof priv_sector.tree leaf
          (rows merkle sha256 hash2 row_count rows_setting priv_sector.tree)
        ≡ some proof
    pub validated : merkle.validate proof leaf ≡ true
    pub rooted : bytes_eq (merkle.root proof) priv_sector.comm_r_last ≡ true
    pub committed :
        bytes_eq pub_sector.comm_r (hash2 priv_sector.comm_c priv_sector.comm_r_last) ≡ true

  keep-Kept :
      (pub_sector : PublicSector) (priv_sector : PrivateSector Tree) (leaf : ℕ)
      (o : Option Inclusion) (kept : List Inclusion) (faults : List ℕ) (out : List Inclusion)
      → merkle.gen_cached_proof priv_sector.tree leaf
          (rows merkle sha256 hash2 row_count rows_setting priv_sector.tree)
        ≡ o
      → keep_or_fault merkle sha256 hash2 row_count rows_setting pub_sector priv_sector leaf o
          (kept, faults)
        ≡ (out, [])
      → (proof : Inclusion) × Kept pub_sector priv_sector leaf proof
        × (out ≡ kept ++ proof ∷ [])
        × (faults ≡ [])
  keep-Kept pub_sector priv_sector leaf none kept faults out g h =
      absurd (insert-not_empty pub_sector.id faults (ap (λ p. p.1) h))
  keep-Kept pub_sector priv_sector leaf (some proof) kept faults out g h =
      elim (Bool-cases (
        merkle.validate proof leaf
        && (bytes_eq (merkle.root proof) priv_sector.comm_r_last
            && bytes_eq pub_sector.comm_r (hash2 priv_sector.comm_c priv_sector.comm_r_last)))) [
              | inl t ↦
                  let (validated, rest) = both_true (merkle.validate proof leaf) _ t in
                  let (rooted, committed) =
                    both_true (bytes_eq (merkle.root proof) priv_sector.comm_r_last) _ rest in
                  let e : (kept ++ proof ∷ [], faults) ≡ (out, []) = rw t at h in
                  (
                    proof,
                    record {
                      generated = g;
                      validated = validated;
                      rooted = rooted;
                      committed = committed;
                    },
                    sym (ap (λ p. p.0) e),
                    ap (λ p. p.1) e,
                  )
              | inr f ↦
                  let e : (kept, insert pub_sector.id faults) ≡ (out, []) = rw f at h in
                  absurd (insert-not_empty pub_sector.id faults (ap (λ p. p.1) e))
            ]

  -- The paths of generated proofs have the length that the verifier expects.
  abbrev pub PathsFit : Type 0
  PathsFit =
      (tree : Tree) (leaf discarded : ℕ) (proof : Inclusion)
      → merkle.gen_cached_proof tree leaf discarded ≡ some proof
      → merkle.expected_len proof (pub_params.sector_size / node_size) ≡ merkle.path_len proof

  module _ (fit : PathsFit) where
    Kept-inclusion_valid :
        (pub_sector : PublicSector) (priv_sector : PrivateSector Tree) (leaf : ℕ)
        (proof : Inclusion)
        → Kept pub_sector priv_sector leaf proof
        → inclusion_valid merkle sha256 hash2 pub_params priv_sector.comm_r_last leaf proof ≡ true
    unfolding inclusion_valid
    Kept-inclusion_valid pub_sector priv_sector leaf proof k =
        let len = fit priv_sector.tree leaf _ proof k.generated in
        rw
          (
            k.rooted,
            k.validated,
            (==_iff (merkle.expected_len proof (pub_params.sector_size / node_size))
                  (merkle.path_len proof)).1
                len,
          )
          refl

    record Proved (pub_sector : PublicSector) (priv_sector : PrivateSector Tree) (hasher : List ℕ)
        (sector_index n count : ℕ) (kept : List Inclusion) (faults : List ℕ) (out : List Inclusion)
        : Type 0 where
      pub new : List Inclusion
      pub grown : out ≡ kept ++ new
      pub good : GoodPaths hasher sector_index priv_sector.comm_r_last n count new
      pub no_faults : faults ≡ []
      pub commitment :
          (count ≡ 0) ⊎ (pub_sector.comm_r ≡ hash2 priv_sector.comm_c priv_sector.comm_r_last)

    prove_challenges-Proved :
        (pub_sector : PublicSector) (priv_sector : PrivateSector Tree) (hasher : List ℕ)
        (sector_index n count : ℕ) (kept : List Inclusion) (faults : List ℕ) (out : List Inclusion)
        → prove_challenges merkle sha256 hash2 row_count rows_setting pub_params pub_sector
            priv_sector hasher sector_index n count
            (kept, faults)
          ≡ ok (out, [])
        → Proved pub_sector priv_sector hasher sector_index n count kept faults out
    unfolding prove_challenges
    prove_challenges-Proved pub_sector priv_sector hasher sector_index n zero kept faults out h =
        let e : ◌≡◌ {A = List Inclusion × List ℕ} (kept, faults) (out, []) = ok_inj h in
        record {
          new = [];
          grown = sym (ap (λ p. p.0) e) ∙ sym (append_nil kept);
          good = GoodPaths.done n;
          no_faults = ap (λ p. p.1) e;
          commitment = inl refl;
        }
    prove_challenges-Proved pub_sector priv_sector hasher sector_index n (suc count) kept faults out
          h =
        let (leaf, drawn, h') =
          >>=-eq-ok
            (generate_leaf_challenge_inner sha256 hasher pub_params (
              get_challenge_index pub_params.api_version sector_index pub_params.challenge_count n))
            _ h in
        let o =
          merkle.gen_cached_proof priv_sector.tree leaf
            (rows merkle sha256 hash2 row_count rows_setting priv_sector.tree) in
        let step =
          keep_or_fault merkle sha256 hash2 row_count rows_setting pub_sector priv_sector leaf o
            (kept, faults) in
        let rest =
          prove_challenges-Proved pub_sector priv_sector hasher sector_index (n + 1) count step.0
            step.1 out h' in
        let (proof, k, added, none_before) =
          keep-Kept pub_sector priv_sector leaf o kept faults step.0 refl
            (ap (λ (f : List ℕ). (step.0, f)) rest.no_faults) in
        record {
          new = proof ∷ rest.new;
          grown =
              rest.grown
              ∙ ap (λ (l : List Inclusion). l ++ rest.new) added
              ∙ append_assoc kept (proof ∷ []) rest.new;
          good =
              GoodPaths.more n count leaf proof rest.new drawn
                (Kept-inclusion_valid pub_sector priv_sector leaf proof k) rest.good;
          no_faults = none_before;
          commitment = inr (eq_of_bytes_eq _ _ k.committed);
        }

    head_root :
        {hasher : List ℕ} {comm_r_last : Domain} {sector_index n count : ℕ}
        {proofs : List Inclusion}
        → 1 ≤ count
        → GoodPaths hasher sector_index comm_r_last n count proofs
        → (first : Inclusion) × (first_of proofs ≡ ok first) × (merkle.root first ≡ comm_r_last)
    unfolding inclusion_valid
    head_root some_challenges (GoodPaths.done n) = absurd (omega arith)
    head_root {comm_r_last = comm_r_last} some_challenges
          (GoodPaths.more n count leaf proof proofs e v rest) =
        let (rooted, _) = both_true (bytes_eq (merkle.root proof) comm_r_last) _ v in
        (proof, refl, eq_of_bytes_eq _ _ rooted)

    accepted :
        (randomness : Domain) (sector_index : ℕ) (pub_sector : PublicSector)
        (comm_c comm_r_last : Domain) (paths : List Inclusion)
        → 1 ≤ pub_params.challenge_count
        → GoodPaths
            (randomness ++ le_bytes 8 pub_sector.id)
            sector_index
            comm_r_last
            0
            pub_params.challenge_count
            paths
        → pub_sector.comm_r ≡ hash2 comm_c comm_r_last
        → verify_sector merkle sha256 hash2 pub_params randomness sector_index (
          pub_sector,
          record { inclusion_proofs = paths; comm_c = comm_c; comm_r_last = comm_r_last },
        )
          ≡ ok true
    unfolding verify_sector
    accepted randomness sector_index pub_sector comm_c comm_r_last paths some_challenges good
          committed =
        let (first, head, root) = head_root some_challenges good in
        let (valid, size) = verify_challenges-GoodPaths good in
        let matches : bytes_eq (hash2 comm_c comm_r_last) pub_sector.comm_r ≡ true =
          rw committed (bytes_eq_refl (hash2 comm_c comm_r_last)) in
        let counted = (==_iff pub_params.challenge_count (length paths)).1 (sym size) in
        rw (head, root, matches, counted) valid

    -- A sector without faults is accepted.
    pub prove_sector-verify_sector :
        (randomness : Domain) (sector_index : ℕ) (pub_sector : PublicSector)
        (priv_sector : PrivateSector Tree) (proof : SectorProof Inclusion)
        → 1 ≤ pub_params.challenge_count
        → prove_sector merkle sha256 hash2 row_count rows_setting pub_params randomness sector_index
            (pub_sector, priv_sector)
          ≡ ok (proof, [])
        → verify_sector merkle sha256 hash2 pub_params randomness sector_index (pub_sector, proof)
          ≡ ok true
    unfolding prove_sector
    prove_sector-verify_sector randomness sector_index pub_sector priv_sector proof some_challenges
          h =
        let hasher = randomness ++ le_bytes 8 pub_sector.id in
        let (result, run, h') =
          >>=-eq-ok
            (prove_challenges merkle sha256 hash2 row_count rows_setting pub_params pub_sector
              priv_sector hasher sector_index 0 pub_params.challenge_count ([], []))
            _ h in
        let e = ok_inj h' in
        let none_faulty : result.1 ≡ [] = ap (λ p. p.1) e in
        let run' : prove_challenges merkle sha256 hash2 row_count rows_setting pub_params pub_sector
              priv_sector hasher sector_index 0 pub_params.challenge_count ([], [])
            ≡ ok (result.0, []) =
          run ∙ ap (λ (f : List ℕ). ok (result.0, f)) none_faulty in
        let proved =
          prove_challenges-Proved pub_sector priv_sector hasher sector_index 0
            pub_params.challenge_count [] [] result.0 run' in
        let good : GoodPaths hasher sector_index priv_sector.comm_r_last 0
            pub_params.challenge_count result.0 =
          rw (proved.grown) proved.good in
        elim proved.commitment [
          | inl z ↦ absurd (omega (arith, z, some_challenges))
          | inr committed ↦ rw (sym (ap (λ p. p.0) e)) (
              accepted randomness sector_index pub_sector priv_sector.comm_c priv_sector.comm_r_last
                result.0 some_challenges good committed)
        ]
