-- ===== src/Porep/Accepted.antt =====
-- The proofs that `prove_layers_generate` (storage-proofs-porep/src/stacked/vanilla/proof.rs) makes of
-- a sector that was sealed: the verifier of params.rs accepts each.
use rust_fil_proofs.Base.{
  ℕ, zero, suc, ◌+◌, ◌-◌, ◌≤◌, ◌<◌, ◌≡◌, ◌⊎◌, inl, inr, refl, sym, arith, true, List, [], ◌∷◌, ◌++◌,
  some, ok, ltb, lt→ltb, length, get_elem?, All, bytes_eq_refl, u32,
}
use rust_fil_proofs.Post.Complete.{append_assoc}
use rust_fil_proofs.Api.{ApiVersion}
use rust_fil_proofs.Graph.Parents.{IsLog2}
use rust_fil_proofs.Graph.Stacked.{StackedGraph}
use rust_fil_proofs.Graph.Expanded.{IsGraph}
use rust_fil_proofs.Porep.Labeling.{
  Domain, Externals, Field, LabelingProof, verify_labeling, Column, get_node_at_layer, MerkleProof,
}
use rust_fil_proofs.Porep.Proofs.{verify_labels, verify_label}
use rust_fil_proofs.Porep.Layers.{
  ProofTree, TemporaryAuxCache, parents_data_full_at, Jobs, flag_comm_d, flag_comm_r, flag_encoding,
  Detector, check_flags, prove_labels,
}
use rust_fil_proofs.Porep.Opened.{parents_of, parents_data_full-total}
use rust_fil_proofs.Porep.Sealed.{IsDetector, IsSealed, column_node}

-- All validations so far have succeeded.
pub record AllValid (jobs : Jobs) : Type 0 where
  pub valid_d : All (λ b. b ≡ true) jobs.comm_d
  pub valid_r : All (λ b. b ≡ true) jobs.comm_r
  pub valid_encoding : All (λ b. b ≡ true) jobs.encoding

check_flags-AllValid :
    (detected : Detector) (challenge_index layer : ℕ) (jobs : Jobs)
    → IsDetector detected
    → AllValid jobs
    → check_flags detected challenge_index layer jobs ≡ ok tt
unfolding check_flags
check_flags-AllValid detected i layer jobs is_detector valid =
    let d = is_detector flag_comm_d i layer jobs.comm_d valid.valid_d in
    let r = is_detector flag_comm_r i layer jobs.comm_r valid.valid_r in
    let e = is_detector flag_encoding i layer jobs.encoding valid.valid_encoding in
    rw (d, r, e) refl

module _ (ext : Externals) {F PD P : Type 0} (merkle_d : MerkleProof PD) (merkle : MerkleProof P)
    (field : Field F) (column : Column) (replica_id : Domain) where
  -- A labeling proof for each layer from `layer` on, that is accepted.
  pub data LabelsFrom : ℕ → ℕ → List LabelingProof → Type 0 where
    no_layer : (layer : ℕ) → LabelsFrom layer 0 []
    next_layer :
        (layer count : ℕ) (proof : LabelingProof) (proofs : List LabelingProof)
        → verify_label ext merkle_d merkle field (some proof) column replica_id layer ≡ ok true
        → LabelsFrom (layer + 1) count proofs
        → LabelsFrom layer (suc count) (proof ∷ proofs)

  get_elem?-append :
      (before : List LabelingProof) (proof : LabelingProof) (proofs : List LabelingProof)
      → get_elem? (before ++ (proof ∷ proofs)) (length before) ≡ some proof
  get_elem?-append [] proof proofs = refl
  get_elem?-append (p ∷ before) proof proofs = get_elem?-append before proof proofs

  length_snoc :
      (before : List LabelingProof) (proof : LabelingProof)
      → length (before ++ (proof ∷ [])) ≡ length before + 1
  length_snoc [] proof = refl
  length_snoc (p ∷ before) proof = omega (arith, length_snoc before proof)

  pub verify_labels-LabelsFrom :
      {layer count : ℕ} {proofs : List LabelingProof} (before : List LabelingProof)
      → LabelsFrom layer count proofs
      → length before + 1 ≡ layer
      → verify_labels ext merkle_d merkle field layer count (before ++ proofs) column replica_id
        ≡ ok true
  unfolding verify_labels
  verify_labels-LabelsFrom before (LabelsFrom.no_layer layer) h = refl
  verify_labels-LabelsFrom before (LabelsFrom.next_layer layer count proof proofs e more) h =
      let at : layer - 1 ≡ length before = omega (arith, h) in
      let rest =
        verify_labels-LabelsFrom (before ++ (proof ∷ [])) more
          (omega (arith, h, length_snoc before proof)) in
      let same = append_assoc before (proof ∷ []) proofs in
      rw (at, get_elem?-append before proof proofs, e, sym same, rest) refl

module _ (ext : Externals) (is_log2 : IsLog2 ext.log2_ceil) {F TD PD T P : Type 0} (field : Field F)
    (trees_d : ProofTree TD PD) (merkle_d : MerkleProof PD) (trees : ProofTree T P)
    (merkle : MerkleProof P) (g : StackedGraph) (nodes num_layers : ℕ) (version : ApiVersion)
    (is : IsGraph nodes version g) (replica_id root_d root_c root_r : Domain)
    (t_aux : TemporaryAuxCache TD T)
    (sealed : IsSealed ext field trees_d merkle_d trees merkle g nodes num_layers replica_id root_d
      root_c root_r t_aux)
    (detected : Detector) (is_detector : IsDetector detected) where
  pub few_layers : num_layers ≤ 11
  few_layers = of_layers sealed.layers
    where
      of_layers : (num_layers ≡ 2) ⊎ (num_layers ≡ 11) → num_layers ≤ 11
      of_layers (inl two) = omega (arith, two)
      of_layers (inr eleven) = omega (arith, eleven)

  abbrev c_node : ℕ → Column
  c_node =
      column_node ext is_log2 field trees_d merkle_d trees merkle g nodes num_layers version is
        replica_id root_d root_c root_r t_aux sealed

  -- The labeling proof of one layer.
  one_label :
      (layer node : ℕ)
      → 1 ≤ layer
      → layer ≤ num_layers
      → 1 ≤ node
      → node < nodes
      → (data_ : List Domain) × (label : Domain) × (parents_data_full_at ext g t_aux.labels layer
            node
          ≡ ok data_)
        × (get_node_at_layer (c_node node) layer ≡ ok label)
        × (verify_labeling ext
              (record { parents = data_; layer_index = u32 layer; node = node })
              replica_id
              label
            ≡ ok true)
  unfolding get_node_at_layer verify_labeling
  one_label layer node a b c h =
      let ps = parents_of ext is_log2 nodes version g is node h in
      let stores = sealed.stores in
      let few = few_layers in
      let (data_, e) =
        parents_data_full-total ext t_aux.labels nodes sealed.column_at sealed.rows g layer node ps
          a (omega (arith, stores)) in
      let (label, found, created) = sealed.labeled layer node data_ a b c h e in
      let word : u32 layer ≡ layer = omega arith in
      let positive : ltb 0 layer ≡ true = lt→ltb 0 layer (omega arith) in
      (data_, label, e, rw (positive, found) refl, rw (word, created, bytes_eq_refl label) refl)

  -- What the loop over the layers returns.
  pub record LabelsProved (node layer count : ℕ) (jobs : Jobs) (before : List Domain) (index : ℕ)
      : Type 0 where
    pub proofs : List LabelingProof
    pub final : List Domain
    pub after : Jobs
    pub returned :
        prove_labels ext detected g t_aux.labels replica_id
          (c_node node)
          index
          node
          jobs
          layer
          count
          before
        ≡ ok (proofs, final, after)
    pub accepted : LabelsFrom ext merkle_d merkle field (c_node node) replica_id layer count proofs
    pub last_parents :
        ((count ≡ 0) × (final ≡ before))
        ⊎ (parents_data_full_at ext g t_aux.labels (layer + count - 1) node ≡ ok final)
    pub valid : AllValid after

  pub prove_labels-LabelsProved :
      (node layer count index : ℕ) (jobs : Jobs) (before : List Domain)
      → 1 ≤ layer
      → layer + count ≤ num_layers + 1
      → 1 ≤ node
      → node < nodes
      → AllValid jobs
      → LabelsProved node layer count jobs before index
  unfolding prove_labels
  prove_labels-LabelsProved node layer zero index jobs before a b c h valid = record {
    proofs = [];
    final = before;
    after = jobs;
    returned = refl;
    accepted = LabelsFrom.no_layer layer;
    last_parents = inl (refl, refl);
    valid = valid;
  }
  prove_labels-LabelsProved node layer (suc count) index jobs before a b c h valid =
      let (data_, label, e, found, checked) = one_label layer node a (omega arith) c h in
      let more : Jobs = record {
        comm_d = jobs.comm_d;
        comm_r = jobs.comm_r;
        encoding = true ∷ jobs.encoding;
      } in
      let more_valid : AllValid more = record {
        valid_d = valid.valid_d;
        valid_r = valid.valid_r;
        valid_encoding = (refl, valid.valid_encoding);
      } in
      let flags = check_flags-AllValid detected index layer more is_detector more_valid in
      let rest =
        prove_labels-LabelsProved node (layer + 1) count index more data_ (omega arith)
          (omega arith) c h more_valid in
      let proof : LabelingProof = record {
        parents = data_;
        layer_index = u32 layer;
        node = node;
      } in
      record {
        proofs = proof ∷ rest.proofs;
        final = rest.final;
        after = rest.after;
        returned = rw (e, found, checked, flags, rest.returned) refl;
        accepted =
            LabelsFrom.next_layer layer count proof rest.proofs (rw found checked) rest.accepted;
        last_parents = inr (last rest.final e rest.last_parents);
        valid = rest.valid;
      }
    where
      last :
          {data_ : List Domain} (final : List Domain)
          → parents_data_full_at ext g t_aux.labels layer node ≡ ok data_
          → ((count ≡ 0) × (final ≡ data_))
            ⊎ (parents_data_full_at ext g t_aux.labels (layer + 1 + count - 1) node ≡ ok final)
          → parents_data_full_at ext g t_aux.labels (layer + suc count - 1) node ≡ ok final
      last final e (inl (none_left, same)) =
          let index_eq : layer + suc count - 1 ≡ layer = omega (arith, none_left) in
          rw (index_eq, same) e
      last final e (inr found) =
          let index_eq : layer + suc count - 1 ≡ layer + 1 + count - 1 = omega arith in
          rw index_eq found
