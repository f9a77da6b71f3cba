-- ===== src/Porep/Completeness.antt =====
-- `prove_layers_generate` (storage-proofs-porep/src/stacked/vanilla/proof.rs) for a sector that was
-- sealed: it returns, and the verifier of params.rs accepts each proof.
use rust_fil_proofs.Base.{
  ℕ, zero, suc, ◌+◌, ◌-◌, ◌≤◌, ◌<◌, ◌≡◌, ◌∙◌, ◌⊎◌, inl, inr, refl, sym, ap, subst, arith, true,
  List, [], ◌∷◌, ◌++◌, Option, some, ok, ltb, ◌==◌, lt→ltb, length, All, bytes_eq_refl, u32,
}
use rust_fil_proofs.Post.Complete.{append_nil}
use rust_fil_proofs.Api.{ApiVersion}
use rust_fil_proofs.Graph.Parents.{IsLog2}
use rust_fil_proofs.Graph.Stacked.{StackedGraph}
use rust_fil_proofs.Graph.Expanded.{IsGraph}
use rust_fil_proofs.Porep.Labeling.{
  Domain, Externals, Field, encode, create_label_of, encoding_key, verify_encoding, Column,
  MerkleProof,
}
use rust_fil_proofs.Porep.Proofs.{
  PublicParams, PublicInputs, ReplicaColumnProof, Proof, size, Challenges, skip, verify_columns,
  verify_replica_columns, comm_r_last, comm_c, verify_final_replica_layer, verify_proof,
  verify_partition,
}
use rust_fil_proofs.Porep.Layers.{
  ProofTree, TemporaryAuxCache, parents_data_full_at, Jobs, Detector, prove_challenge,
  prove_challenges, prove_layers_generate,
}
use rust_fil_proofs.Porep.Opened.{NodeParents, parents_of}
use rust_fil_proofs.Porep.Sealed.{
  IsDetector, Opens-validate, Opens-proves_challenge, IsSealed, Columns-length,
  verify_columns-Columns, column_node, OpenedColumns, open_columns-OpenedColumns,
}
use rust_fil_proofs.Porep.Accepted.{
  AllValid, prove_labels-LabelsProved, verify_labels-LabelsFrom, few_layers,
}

skip-append :
    (ext : Externals) {P : Type 0} (merkle : MerkleProof P) (n : ℕ) (xs ys : List ℕ)
    → length xs ≡ n
    → skip ext merkle n (xs ++ ys) ≡ ys
unfolding skip
skip-append ext merkle zero [] ys h = refl
skip-append ext merkle zero (x ∷ xs) ys h = absurd (omega (arith, h))
skip-append ext merkle (suc n) [] ys h = absurd (omega (arith, h))
skip-append ext merkle (suc n) (x ∷ xs) ys h = skip-append ext merkle n xs ys (omega (arith, h))

module _ (ext : Externals) (is_log2 : IsLog2 ext.log2_ceil) {F TD PD T P : Type 0} (field : Field F)
    (trees_d : ProofTree TD PD) (merkle_d : MerkleProof PD) (trees : ProofTree T P)
    (merkle : MerkleProof P) (g : StackedGraph) (nodes num_layers : ℕ) (version : ApiVersion)
    (is : IsGraph nodes version g) (replica_id root_d root_c root_r : Domain)
    (t_aux : TemporaryAuxCache TD T)
    (sealed : IsSealed ext field trees_d merkle_d trees merkle g nodes num_layers replica_id root_d
      root_c root_r t_aux)
    (detected : Detector) (is_detector : IsDetector detected) (challenge_kind : Challenges)
    (seed : Option Domain) (comm_r : Domain) (k : Option ℕ) where
  abbrev pub the_params : PublicParams
  the_params = record { graph = g; challenges = challenge_kind; num_layers = num_layers }

  abbrev pub the_inputs : PublicInputs
  the_inputs = record {
    replica_id = replica_id;
    seed = seed;
    tau = some (record { comm_d = root_d; comm_r = comm_r });
    k = k;
  }

  abbrev c_node : ℕ → Column
  c_node =
      column_node ext is_log2 field trees_d merkle_d trees merkle g nodes num_layers version is
        replica_id root_d root_c root_r t_aux sealed

  replica_columns-accepted :
      (challenge : ℕ) (ps : NodeParents ext g nodes challenge) (rcp : ReplicaColumnProof P)
      → challenge < nodes
      → OpenedColumns ext is_log2 field trees_d merkle_d trees merkle g nodes num_layers version is
          replica_id root_d root_c root_r t_aux sealed challenge ps rcp
      → verify_replica_columns ext merkle rcp challenge (ps.base ++ ps.expanded) ≡ ok true
  unfolding verify_replica_columns
  replica_columns-accepted challenge ps rcp h opened =
      let few = is.few in
      let word : u32 challenge ≡ challenge = omega arith in
      let base = verify_columns-Columns ps.expanded opened.drg_columns in
      let behind =
        skip-append ext merkle (length rcp.drg_parents) ps.base ps.expanded
          (sym (Columns-length opened.drg_columns)) in
      let expanded =
        ap (λ ns. verify_columns ext merkle rcp.exp_parents ns root_c)
          (sym (append_nil ps.expanded))
        ∙ verify_columns-Columns [] opened.exp_columns in
      rw (opened.challenge_root, word, opened.challenge_accepted, base, behind, expanded) refl

  -- The encoding proof of a challenge, for the openings of the data and of the replica.
  encoding-accepted :
      (challenge : ℕ) (final : List Domain) (d : PD) (r : P)
      → 1 ≤ challenge
      → challenge < nodes
      → 1 ≤ num_layers
      → parents_data_full_at ext g t_aux.labels num_layers challenge ≡ ok final
      → trees_d.gen_proof sealed.tree_d challenge ≡ some d
      → trees.gen_proof t_aux.tree_r_last challenge ≡ some r
      → verify_encoding ext field
          (record { parents = final; layer_index = u32 num_layers; node = challenge })
          replica_id
          (merkle.leaf r)
          (merkle_d.leaf d)
        ≡ ok true
  unfolding verify_encoding create_label_of encoding_key
  encoding-accepted challenge final d r c h some_layers e proof_d proof_r =
      let (label, found, created) =
        sealed.labeled num_layers challenge final some_layers (omega arith) c h e in
      let leaf = sealed.encoded challenge d r label proof_d proof_r found in
      let few =
        few_layers ext is_log2 field trees_d merkle_d trees merkle g nodes num_layers version is
          replica_id root_d root_c root_r t_aux sealed detected is_detector in
      let word : u32 num_layers ≡ num_layers = omega arith in
      rw
        (
          word,
          created,
          leaf,
          bytes_eq_refl (encode field label (field.into_domain (field.into_fr (merkle_d.leaf d)))),
        )
        refl

  pub some_layers : 1 ≤ num_layers
  some_layers = of_layers sealed.layers
    where
      of_layers : (num_layers ≡ 2) ⊎ (num_layers ≡ 11) → 1 ≤ num_layers
      of_layers (inl two) = omega (arith, two)
      of_layers (inr eleven) = omega (arith, eleven)

  final_parents :
      (challenge : ℕ) (final : List Domain)
      → ((num_layers ≡ 0) × (final ≡ []))
        ⊎ (parents_data_full_at ext g t_aux.labels (1 + num_layers - 1) challenge ≡ ok final)
      → parents_data_full_at ext g t_aux.labels num_layers challenge ≡ ok final
  final_parents challenge final (inl (no_layer, same)) =
      absurd (omega (arith, no_layer, some_layers))
  final_parents challenge final (inr found) =
      let e : num_layers ≡ 1 + num_layers - 1 = omega arith in rw e found

  -- The proof of one challenge.
  record ChallengeProved (index challenge : ℕ) (jobs : Jobs) : Type 0 where
    proof : Proof PD P
    after : Jobs
    returned :
        prove_challenge ext detected trees_d merkle_d trees merkle g replica_id root_c t_aux
          num_layers index jobs challenge
        ≡ ok (proof, after)
    accepted :
        verify_proof ext merkle_d merkle field proof the_params the_inputs challenge g ≡ ok true
    same_comm_c : comm_c ext merkle_d merkle field proof ≡ root_c
    same_comm_r_last : comm_r_last ext merkle_d merkle field proof ≡ root_r
    valid : AllValid after

  prove_challenge-ChallengeProved :
      (index challenge : ℕ) (jobs : Jobs)
      → 1 ≤ challenge
      → challenge < nodes
      → AllValid jobs
      → ChallengeProved index challenge jobs
  unfolding prove_challenge verify_proof verify_final_replica_layer comm_c comm_r_last
  prove_challenge-ChallengeProved index challenge jobs c h valid =
      let ps = parents_of ext is_log2 nodes version g is challenge h in
      let (d, proof_d, opens_d) = sealed.opens_d challenge h in
      let (r, proof_r, opens_r) = sealed.opens_r challenge h in
      let (rcp, opened, columns) =
        open_columns-OpenedColumns ext is_log2 field trees_d merkle_d trees merkle g nodes
          num_layers version is replica_id root_d root_c root_r t_aux sealed challenge ps h in
      let started : Jobs = record {
        comm_d = true ∷ jobs.comm_d;
        comm_r = true ∷ jobs.comm_r;
        encoding = jobs.encoding;
      } in
      let started_valid : AllValid started = record {
        valid_d = (refl, valid.valid_d);
        valid_r = (refl, valid.valid_r);
        valid_encoding = valid.valid_encoding;
      } in
      let labels =
        prove_labels-LabelsProved ext is_log2 field trees_d merkle_d trees merkle g nodes num_layers
          version is replica_id root_d root_c root_r t_aux sealed detected is_detector challenge 1
          num_layers index started [] (omega arith) (omega arith) c h started_valid in
      let in_range : ltb challenge (size g) ≡ true =
        lt→ltb challenge g.base_graph.nodes (subst (λ n. challenge < n) (sym is.base_nodes) h) in
      let positive : ltb 0 challenge ≡ true = lt→ltb 0 challenge (omega arith) in
      let layered : ltb 0 num_layers ≡ true = lt→ltb 0 num_layers (omega (arith, some_layers)) in
      let checked_labels =
        verify_labels-LabelsFrom ext merkle_d merkle field (c_node challenge) replica_id []
          labels.accepted refl in
      let encoding =
        encoding-accepted challenge labels.final d r c h some_layers
          (final_parents challenge labels.final labels.last_parents) proof_d proof_r in
      record {
        proof = record {
          comm_d_proofs = d;
          comm_r_last_proof = r;
          replica_column_proofs = rcp;
          labeling_proofs = labels.proofs;
          encoding_proof = record {
            parents = labels.final;
            layer_index = u32 num_layers;
            node = challenge;
          };
        };
        after = labels.after;
        returned =
            rw
              (
                in_range,
                positive,
                opened,
                sealed.has_tree_d,
                proof_d,
                proof_r,
                Opens-validate merkle_d opens_d,
                Opens-validate merkle opens_r,
                columns.challenge_column,
                labels.returned,
                layered,
              )
              refl;
        accepted =
            rw
              (
                in_range,
                Opens-proves_challenge merkle_d opens_d,
                opens_d.rooted,
                bytes_eq_refl root_d,
                ps.both_eq,
                replica_columns-accepted challenge ps rcp h columns,
                Opens-proves_challenge merkle opens_r,
                columns.challenge_column,
                checked_labels,
                encoding,
              )
              refl;
        same_comm_c = columns.challenge_root;
        same_comm_r_last = opens_r.rooted;
        valid = labels.valid;
      }

  -- The proofs of challenges, each accepted for its challenge.
  data Accepted : List ℕ → List (Proof PD P) → Type 0 where
    no_challenge : Accepted [] []
    next_challenge :
        (challenge : ℕ) (challenges : List ℕ) (proof : Proof PD P) (proofs : List (Proof PD P))
        → verify_proof ext merkle_d merkle field proof the_params the_inputs challenge g ≡ ok true
        → comm_c ext merkle_d merkle field proof ≡ root_c
        → comm_r_last ext merkle_d merkle field proof ≡ root_r
        → Accepted challenges proofs
        → Accepted (challenge ∷ challenges) (proof ∷ proofs)

  prove_challenges-Accepted :
      (index : ℕ) (jobs : Jobs) (challenges : List ℕ)
      → All (λ c. (1 ≤ c) × (c < nodes)) challenges
      → AllValid jobs
      → (proofs : List (Proof PD P)) × (prove_challenges ext detected trees_d merkle_d trees merkle
            g replica_id root_c t_aux num_layers index jobs challenges
          ≡ ok proofs)
        × Accepted challenges proofs
  unfolding prove_challenges
  prove_challenges-Accepted index jobs [] in_range valid = ([], refl, Accepted.no_challenge)
  prove_challenges-Accepted index jobs (c ∷ challenges) ((positive, below), in_range) valid =
      let one = prove_challenge-ChallengeProved index c jobs positive below valid in
      let (proofs, e, accepted) =
        prove_challenges-Accepted (index + 1) one.after challenges in_range one.valid in
      (
        one.proof ∷ proofs,
        rw (one.returned, e) refl,
        Accepted.next_challenge c challenges one.proof proofs one.accepted one.same_comm_c
            one.same_comm_r_last accepted,
      )

  verify_partition-Accepted :
      {challenges : List ℕ} {proofs : List (Proof PD P)} (first : Proof PD P)
      → comm_c ext merkle_d merkle field first ≡ root_c
      → comm_r_last ext merkle_d merkle field first ≡ root_r
      → Accepted challenges proofs
      → (verify_partition ext merkle_d merkle field the_params the_inputs first proofs challenges
          ≡ ok true)
        × (length proofs ≡ length challenges)
  unfolding verify_partition
  verify_partition-Accepted first same_c same_r Accepted.no_challenge = (refl, refl)
  verify_partition-Accepted first same_c same_r
        (Accepted.next_challenge c challenges proof proofs e comm_c_eq comm_r_eq more) =
      let (rest, sizes) = verify_partition-Accepted first same_c same_r more in
      (
        rw
            (
              comm_c_eq,
              same_c,
              bytes_eq_refl root_c,
              comm_r_eq,
              same_r,
              bytes_eq_refl root_r,
              e,
              rest,
            )
            refl,
        ap suc sizes,
      )

  prove_challenges_step :
      (index : ℕ) (jobs : Jobs) (c : ℕ) (challenges : List ℕ) (proof : Proof PD P) (after : Jobs)
      (proofs : List (Proof PD P))
      → prove_challenge ext detected trees_d merkle_d trees merkle g replica_id root_c t_aux
          num_layers index jobs c
        ≡ ok (proof, after)
      → prove_challenges ext detected trees_d merkle_d trees merkle g replica_id root_c t_aux
          num_layers
          (index + 1)
          after
          challenges
        ≡ ok proofs
      → prove_challenges ext detected trees_d merkle_d trees merkle g replica_id root_c t_aux
          num_layers index jobs
          (c ∷ challenges)
        ≡ ok (proof ∷ proofs)
  unfolding prove_challenges
  prove_challenges_step index jobs c challenges proof after proofs e es = rw (e, es) refl

  -- For a sealed sector, a graph that `new_graph` makes, a detector that reports a failure only
  -- after a failed validation, and challenges that are nodes other than the first: whatever the
  -- order of the validations, `prove_layers_generate` returns a proof for each challenge, all with
  -- the roots of the trees, and the verifier accepts them as a partition.
  pub prove_layers_generate-verify_partition :
      (first : ℕ) (challenges : List ℕ)
      → All (λ c. (1 ≤ c) × (c < nodes)) (first ∷ challenges)
      → (proof : Proof PD P) × (proofs : List (Proof PD P)) × (prove_layers_generate ext detected
            trees_d merkle_d trees merkle g the_inputs root_c t_aux
            (first ∷ challenges)
            num_layers
          ≡ ok (proof ∷ proofs))
        × (comm_c ext merkle_d merkle field proof ≡ root_c)
        × (comm_r_last ext merkle_d merkle field proof ≡ root_r)
        × (verify_partition ext merkle_d merkle field the_params the_inputs proof
              (proof ∷ proofs)
              (first ∷ challenges)
            ≡ ok true)
        × (length (proof ∷ proofs) ≡ length (first ∷ challenges))
  unfolding prove_layers_generate
  prove_layers_generate-verify_partition first challenges in_range =
      let no_jobs : Jobs = record { comm_d = []; comm_r = []; encoding = [] } in
      let none_failed : AllValid no_jobs = record {
        valid_d = tt;
        valid_r = tt;
        valid_encoding = tt;
      } in
      let ((positive, below), rest_in_range) = in_range in
      let one = prove_challenge-ChallengeProved 0 first no_jobs positive below none_failed in
      let (proofs, e, accepted) =
        prove_challenges-Accepted 1 one.after challenges rest_in_range one.valid in
      let all_accepted =
        Accepted.next_challenge first challenges one.proof proofs one.accepted one.same_comm_c
          one.same_comm_r_last accepted in
      let (verified, sizes) =
        verify_partition-Accepted one.proof one.same_comm_c one.same_comm_r_last all_accepted in
      let layered : (length t_aux.labels == num_layers) ≡ true =
        let stores = sealed.stores in ground arith in
      let run : prove_challenges ext detected trees_d merkle_d trees merkle g replica_id root_c
            t_aux num_layers 0 no_jobs (first ∷ challenges)
          ≡ ok (one.proof ∷ proofs) =
        prove_challenges_step 0 no_jobs first challenges one.proof one.after proofs one.returned
          e in
      (
        one.proof,
        proofs,
        rw (layered, run, sealed.has_tree_d, sealed.tree_d_root, bytes_eq_refl root_d) refl,
        one.same_comm_c,
        one.same_comm_r_last,
        verified,
        sizes,
      )
