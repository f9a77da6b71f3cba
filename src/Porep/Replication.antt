-- ===== src/Porep/Replication.antt =====
-- The prover of a sealed sector and the verifier of its partitions (proof.rs and proof_scheme.rs of
-- storage-proofs-porep/src/stacked/vanilla), for interactive and for non-interactive challenges.
use rust_fil_proofs.Base.{
  ℕ, zero, suc, ◌+◌, ◌≤◌, ◌<◌, ◌≡◌, refl, ap, subst, arith, true, List, [], ◌∷◌, Option, some,
  Result, ok, ltb, ◌==◌, lt→ltb, length, All, bytes_eq_refl, u8,
}
use rust_fil_proofs.Api.{ApiVersion}
use rust_fil_proofs.Graph.Parents.{IsLog2}
use rust_fil_proofs.Graph.Stacked.{StackedGraph}
use rust_fil_proofs.Graph.Expanded.{IsGraph}
use rust_fil_proofs.Porep.Challenges.{derive_interactive, derive_ni}
use rust_fil_proofs.Porep.Interactive.{IsChallenge, derive_interactive-IsChallenge}
use rust_fil_proofs.Porep.Labeling.{Domain, StackedError, Externals, Field, MerkleProof}
use rust_fil_proofs.Porep.Proofs.{
  Challenges, interactive, ni, PublicInputs, PublicParams, Proof, size, of_outcome, comm_c,
  comm_r_last, challenges_of, verify_partition, verify_partitions, verify_porep_partitions,
}
use rust_fil_proofs.Porep.Layers.{ProofTree, TemporaryAuxCache, Detector, prove_layers_generate}
use rust_fil_proofs.Porep.Sealed.{IsDetector, IsSealed}
use rust_fil_proofs.Porep.Completeness.{
  the_params, the_inputs, prove_layers_generate-verify_partition, some_layers,
}
use rust_fil_proofs.Porep.Partitions.{prove_partitions, prove_interactive, prove_ni}

module _ (ext : Externals) (is_log2 : IsLog2 ext.log2_ceil) {F TD PD T P : Type 0} (field : Field F)
    (trees_d : ProofTree TD PD) (merkle_d : MerkleProof PD) (trees : ProofTree T P)
    (merkle : MerkleProof P) (g : StackedGraph) (nodes num_layers : ℕ) (version : ApiVersion)
    (is : IsGraph nodes version g) (replica_id root_d root_c root_r : Domain)
    (t_aux : TemporaryAuxCache TD T)
    (sealed : IsSealed ext field trees_d merkle_d trees merkle g nodes num_layers replica_id root_d
      root_c root_r t_aux)
    (detected : Detector) (is_detector : IsDetector detected) (seed : Domain) (k : Option ℕ)
    (count : ℕ) (some_challenges : 1 ≤ count) (some_nodes : 2 ≤ nodes) where
  abbrev pub params_of : Challenges → PublicParams
  params_of kind =
      the_params ext is_log2 field trees_d merkle_d trees merkle g nodes num_layers version is
        replica_id root_d root_c root_r t_aux sealed detected is_detector kind (some seed)
        (ext.hash2 root_c root_r) k

  abbrev pub inputs : PublicInputs
  inputs =
      the_inputs ext is_log2 field trees_d merkle_d trees merkle g nodes num_layers version is
        replica_id root_d root_c root_r t_aux sealed detected is_detector (interactive count)
        (some seed) (ext.hash2 root_c root_r) k

  verify_partitions_step :
      (kind : Challenges) (j : ℕ) (proof : Proof PD P) (proofs : List (Proof PD P))
      (challenges : List ℕ) (rest : List (List (Proof PD P)))
      → challenges_of ext merkle_d merkle field inputs kind (size g) (some j) ≡ ok challenges
      → comm_c ext merkle_d merkle field proof ≡ root_c
      → comm_r_last ext merkle_d merkle field proof ≡ root_r
      → length (proof ∷ proofs) ≡ length challenges
      → verify_partition ext merkle_d merkle field
          (params_of kind)
          inputs
          proof
          (proof ∷ proofs)
          challenges
        ≡ ok true
      → verify_partitions ext merkle_d merkle field
          (params_of kind)
          inputs
          (ext.hash2 root_c root_r)
          (j + 1)
          rest
        ≡ ok true
      → verify_partitions ext merkle_d merkle field
          (params_of kind)
          inputs
          (ext.hash2 root_c root_r)
          j
          ((proof ∷ proofs) ∷ rest)
        ≡ ok true
  unfolding verify_partitions
  verify_partitions_step kind j proof proofs challenges rest e same_c same_r sizes verified more =
      let same_size : (length (proof ∷ proofs) == length challenges) ≡ true =
        ground (arith, sizes) in
      rw (same_c, same_r, bytes_eq_refl (ext.hash2 root_c root_r), e, same_size, verified) more

  prove_partitions_step :
      (derive : ℕ → Result StackedError (List ℕ)) (j partitions : ℕ) (challenges : List ℕ)
      (proofs : List (Proof PD P)) (rest : List (List (Proof PD P)))
      → derive j ≡ ok challenges
      → prove_layers_generate ext detected trees_d merkle_d trees merkle g inputs root_c t_aux
          challenges num_layers
        ≡ ok proofs
      → prove_partitions ext detected trees_d merkle_d trees merkle derive g inputs root_c t_aux
          num_layers
          (j + 1)
          partitions
        ≡ ok rest
      → prove_partitions ext detected trees_d merkle_d trees merkle derive g inputs root_c t_aux
          num_layers j
          (suc partitions)
        ≡ ok (proofs ∷ rest)
  unfolding prove_partitions
  prove_partitions_step derive j partitions challenges proofs rest e returned es =
      rw (e, returned, es) refl

  -- Challenges that are derived for each partition.
  prove_partitions-verify_partitions :
      (kind : Challenges) (derive : ℕ → Result StackedError (List ℕ)) (j partitions : ℕ)
      → ((i : ℕ)
          → (challenges : List ℕ) × (derive i ≡ ok challenges)
            × (challenges_of ext merkle_d merkle field inputs kind (size g) (some i)
                ≡ ok challenges)
            × (length challenges ≡ count)
            × All (λ c. (1 ≤ c) × (c < nodes)) challenges)
      → (proofs : List (List (Proof PD P))) × (prove_partitions ext detected trees_d merkle_d trees
            merkle derive g inputs root_c t_aux num_layers j partitions
          ≡ ok proofs)
        × (verify_partitions ext merkle_d merkle field
              (params_of kind)
              inputs
              (ext.hash2 root_c root_r)
              j
              proofs
            ≡ ok true)
        × (length proofs ≡ partitions)
  unfolding prove_partitions verify_partitions
  prove_partitions-verify_partitions kind derive j zero derived = ([], refl, refl, refl)
  prove_partitions-verify_partitions kind derive j (suc partitions) derived =
      let (challenges, e, same, many, in_range) = derived j in
      let (rest, es, verified_rest, sizes) =
        prove_partitions-verify_partitions kind derive (j + 1) partitions derived in
      partition challenges e same many in_range rest es verified_rest sizes
    where
      partition :
          (challenges : List ℕ)
          → derive j ≡ ok challenges
          → challenges_of ext merkle_d merkle field inputs kind (size g) (some j) ≡ ok challenges
          → length challenges ≡ count
          → All (λ c. (1 ≤ c) × (c < nodes)) challenges
          → (rest : List (List (Proof PD P)))
          → prove_partitions ext detected trees_d merkle_d trees merkle derive g inputs root_c t_aux
              num_layers
              (j + 1)
              partitions
            ≡ ok rest
          → verify_partitions ext merkle_d merkle field
              (params_of kind)
              inputs
              (ext.hash2 root_c root_r)
              (j + 1)
              rest
            ≡ ok true
          → length rest ≡ partitions
          → (proofs : List (List (Proof PD P))) × (prove_partitions ext detected trees_d merkle_d
                trees merkle derive g inputs root_c t_aux num_layers j
                (suc partitions)
              ≡ ok proofs)
            × (verify_partitions ext merkle_d merkle field
                  (params_of kind)
                  inputs
                  (ext.hash2 root_c root_r)
                  j
                  proofs
                ≡ ok true)
            × (length proofs ≡ suc partitions)
      partition [] e same many in_range rest es verified_rest sizes =
          absurd (omega (arith, many, some_challenges))
      partition (first ∷ challenges) e same many in_range rest es verified_rest sizes =
          let (proof, proofs, returned, same_c, same_r, verified, counts) =
            prove_layers_generate-verify_partition ext is_log2 field trees_d merkle_d trees merkle g
              nodes num_layers version is replica_id root_d root_c root_r t_aux sealed detected
              is_detector kind (some seed) (ext.hash2 root_c root_r) k first challenges in_range in
          (
            (proof ∷ proofs) ∷ rest,
            prove_partitions_step derive j partitions (first ∷ challenges) (proof ∷ proofs) rest e
                returned es,
            verify_partitions_step kind j proof proofs (first ∷ challenges) rest same same_c same_r
                counts verified verified_rest,
            ap suc sizes,
          )

  -- For a sealed sector of 2 nodes or more, a graph that `new_graph` makes, a detector that reports a
  -- failure only after a failed validation, one challenge or more per partition, a seed, and the
  -- commitment to the replica that is the hash of the roots: for any number of partitions, the prover
  -- returns proofs for as many partitions, with interactive and with non-interactive challenges, and
  -- verify_all_partitions accepts them for the same inputs.
  pub prove_interactive-verify_porep_partitions :
      (partitions : ℕ)
      → ((proofs : List (List (Proof PD P))) × (prove_interactive ext detected trees_d merkle_d
              trees merkle count g inputs root_c t_aux num_layers partitions
            ≡ ok proofs)
          × (length proofs ≡ partitions)
          × (verify_porep_partitions ext merkle_d merkle field
                (params_of (interactive count))
                inputs
                proofs
              ≡ ok true))
        × ((proofs : List (List (Proof PD P))) × (prove_ni ext detected trees_d merkle_d trees
                merkle count g inputs root_c t_aux num_layers partitions
              ≡ ok proofs)
            × (length proofs ≡ partitions)
            × (verify_porep_partitions ext merkle_d merkle field
                  (params_of (ni count))
                  inputs
                  proofs
                ≡ ok true))
  unfolding prove_interactive prove_ni verify_porep_partitions challenges_of
  prove_interactive-verify_porep_partitions partitions =
      let few = is.few in
      let same_nodes = is.base_nodes in
      let layered : ltb 0 num_layers ≡ true = lt→ltb 0 num_layers (
        some_layers ext is_log2 field trees_d merkle_d trees merkle g nodes num_layers version is
          replica_id root_d root_c root_r t_aux sealed detected is_detector (interactive count)
          (some seed) root_r k) in
      let derived = λ (other : Domain) (i : ℕ).
        derive_interactive-IsChallenge ext.sha256 count (size g) replica_id other (u8 i)
          (omega (arith, same_nodes)) (omega (arith, same_nodes)) in
      let to_nodes = λ (cs : List ℕ) (h : All (IsChallenge (size g)) cs).
        subst (λ n. All (IsChallenge n) cs) same_nodes h in
      let (proofs, e, verified, sizes) =
        prove_partitions-verify_partitions (interactive count)
          (λ i. of_outcome (derive_interactive ext.sha256 count (size g) replica_id seed (u8 i))) 0
          partitions
          (λ i.
            let ((cs, e, many, in_range), other) = derived seed i in
            (cs, ap of_outcome e, ap of_outcome e, many, to_nodes cs in_range)) in
      let (ni_proofs, ni_e, ni_verified, ni_sizes) =
        prove_partitions-verify_partitions (ni count)
          (λ i.
            of_outcome
              (derive_ni ext.sha256 count (size g) replica_id (ext.hash2 root_c root_r) (u8 i)))
          0 partitions
          (λ i.
            let (other, (cs, e, many, in_range)) = derived (ext.hash2 root_c root_r) i in
            (cs, ap of_outcome e, ap of_outcome e, many, to_nodes cs in_range)) in
      ((proofs, rw layered e, sizes, verified), (ni_proofs, rw layered ni_e, ni_sizes, ni_verified))
