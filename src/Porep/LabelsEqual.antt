-- ===== src/Porep/LabelsEqual.antt =====
-- The labels that storage-proofs-porep/src/stacked/vanilla/create_label/single.rs computes from a stream
-- of parents are those of labeling_proof.rs for the list of repeated parents that proof.rs builds.
use rust_fil_proofs.Base.{
  ℕ, zero, suc, ◌+◌, ◌-◌, ◌*◌, ◌≤◌, ◌<◌, ◌^◌, ◌≡◌, ◌∙◌, refl, ap, arith, List, [], ◌∷◌, ◌++◌, ok,
  lt→ltb, u32, length, length-append, take, drop, All,
}
use rust_fil_proofs.Fr32.Convert.{mask_at, bytes_into_fr_repr_safe}
use rust_fil_proofs.Graph.Bucket.{node_size}
use rust_fil_proofs.Graph.Stacked.{
  prefetch, read_nodes, input, copy_parents_data_inner, copy_parents_data_inner_exp,
}
use rust_fil_proofs.Graph.Expanded.{slice_of-eq}
use rust_fil_proofs.Porep.Labeling.{Domain, Externals, update_all, label_buffer, create_label_of}
use rust_fil_proofs.Porep.Layers.{repeat_parents}
use rust_fil_proofs.Porep.Labels.{node_buffer, create_label, create_label_exp}
use rust_fil_proofs.Porep.Streams.{
  Within, prefetch-Within, nodes_left, nodes_right, rounds_14, rounds_6, repeat_14, repeat_6,
  six_times, store_label-eq,
}

-- The first parents, and those behind them.
split_6 :
    (base others : List ℕ)
    → length base ≡ 6
    → (take 6 (base ++ others) ≡ base) × (drop 6 (base ++ others) ≡ others)
split_6 base others h = split 6 base others h
  where
    split :
        (k : ℕ) (xs ys : List ℕ)
        → length xs ≡ k
        → (take k (xs ++ ys) ≡ xs) × (drop k (xs ++ ys) ≡ ys)
    split zero [] ys h = (refl, refl)
    split zero (x ∷ xs) ys h = absurd (omega (arith, h))
    split (suc k) [] ys h = absurd (omega (arith, h))
    split (suc k) (x ∷ xs) ys h =
        let (a, b) = split k xs ys (omega (arith, h)) in (ap (λ t. x ∷ t) a, b)

-- The label of a labeling proof, from the hash.
create_label_of-eq :
    (ext : Externals) (data_ : List Domain) (layer node : ℕ) (replica_id : Domain)
    → ((bytes : List ℕ) → length (ext.sha256 bytes) ≡ 32)
    → create_label_of ext (record { parents = data_; layer_index = layer; node = node }) replica_id
      ≡ ok (mask_at 31 (ext.sha256 (update_all (label_buffer replica_id layer node) data_)))
unfolding create_label_of bytes_into_fr_repr_safe
create_label_of-eq ext data_ layer node replica_id digest =
    let e = digest (update_all (label_buffer replica_id layer node) data_) in rw e refl

-- What the hasher has been given before the parents.
hasher_eq :
    (replica_id : Domain) (layer node : ℕ)
    → input [] (replica_id ∷ node_buffer layer node ∷ []) ≡ label_buffer replica_id (u32 layer) node
unfolding input
hasher_eq replica_id layer node = refl

-- For SHA-256 digests of 32 bytes, a node other than the first, 6 parents of the layer and 8 of the
-- layer before whose data lies within the labels: create_label_exp returns, and what it writes for
-- the node, and all it writes, is the label of the labeling proof for the repeated parents.
pub create_label_exp-create_label_of :
    (ext : Externals) (base others : List ℕ) (replica_id : Domain) (exp_labels labels : List ℕ)
    (layer node : ℕ)
    → ((bytes : List ℕ) → length (ext.sha256 bytes) ≡ 32)
    → length base ≡ 6
    → length others ≡ 8
    → All (Within labels) base
    → All (Within exp_labels) others
    → 1 ≤ node
    → Within labels node
    → length labels < 2 ^ 64
    → (base_nodes : List (List ℕ)) × (exp_nodes : List (List ℕ)) × (repeated : List Domain)
      × (label : Domain) × (read_nodes 0 6 (base ++ others) labels ≡ ok base_nodes)
      × (read_nodes 6 8 (base ++ others) exp_labels ≡ ok exp_nodes)
      × (repeat_parents (base_nodes ++ exp_nodes) ≡ ok repeated)
      × (create_label_of ext
            (record { parents = repeated; layer_index = u32 layer; node = node })
            replica_id
          ≡ ok label)
      × (create_label_exp ext.sha256 (base ++ others) replica_id exp_labels labels layer node
          ≡ ok (take (node * 32) labels ++ (label ++ drop (node * 32 + 32) labels)))
unfolding create_label_exp copy_parents_data_inner_exp
create_label_exp-create_label_of ext base others replica_id exp_labels labels layer node digest six
      eight within others_within positive fits word =
    let (first, behind) = split_6 base others six in
    let fetch = ap (λ ps. prefetch ps labels) first ∙ prefetch-Within base labels within in
    let fetch_exp =
      ap (λ ps. prefetch ps exp_labels) behind ∙ prefetch-Within others exp_labels others_within in
    let (base_nodes, e, size) = nodes_left 0 6 base others labels (omega (arith, six)) within in
    let (exp_nodes, es, sizes) =
      nodes_right 6 0 8 base others exp_labels (omega (arith, six)) (omega (arith, eight))
        others_within in
    let nodes = base_nodes ++ exp_nodes in
    let count : length nodes ≡ 14 =
      omega (arith, size, sizes, length-append base_nodes exp_nodes) in
    let repeated = nodes ++ (nodes ++ (take 9 nodes ++ [])) in
    let hasher = label_buffer replica_id (u32 layer) node in
    let rounds = rounds_14 ext.sha256 hasher nodes count in
    let previous = slice_of-eq ((node - 1) * node_size) node_size labels (omega arith) in
    let later = lt→ltb 0 node (omega arith) in
    let digest_size = digest (update_all hasher repeated) in
    (
      base_nodes,
      exp_nodes,
      repeated,
      mask_at 31 (ext.sha256 (update_all hasher repeated)),
      e,
      es,
      repeat_14 nodes count,
      create_label_of-eq ext repeated (u32 layer) node replica_id digest,
      rw (hasher_eq replica_id layer node, later, previous, fetch, fetch_exp, e, es, rounds)
          (store_label-eq node (ext.sha256 (update_all hasher repeated)) labels word fits
            digest_size),
    )

-- The same for the first layer: for 6 parents of the layer, create_label writes the label of the
-- labeling proof for the repeated parents.
pub create_label-create_label_of :
    (ext : Externals) (base others : List ℕ) (replica_id : Domain) (labels : List ℕ)
    (layer node : ℕ)
    → ((bytes : List ℕ) → length (ext.sha256 bytes) ≡ 32)
    → length base ≡ 6
    → All (Within labels) base
    → 1 ≤ node
    → Within labels node
    → length labels < 2 ^ 64
    → (nodes : List (List ℕ)) × (repeated : List Domain) × (label : Domain) × (read_nodes 0 6
          (base ++ others)
          labels
        ≡ ok nodes)
      × (repeat_parents nodes ≡ ok repeated)
      × (create_label_of ext
            (record { parents = repeated; layer_index = u32 layer; node = node })
            replica_id
          ≡ ok label)
      × (create_label ext.sha256 (base ++ others) replica_id labels layer node
          ≡ ok (take (node * 32) labels ++ (label ++ drop (node * 32 + 32) labels)))
unfolding create_label copy_parents_data_inner
create_label-create_label_of ext base others replica_id labels layer node digest six within positive
      fits word =
    let (first, behind) = split_6 base others six in
    let fetch = ap (λ ps. prefetch ps labels) first ∙ prefetch-Within base labels within in
    let (nodes, e, size) = nodes_left 0 6 base others labels (omega (arith, six)) within in
    let repeated = six_times nodes in
    let hasher = label_buffer replica_id (u32 layer) node in
    let rounds = rounds_6 ext.sha256 hasher nodes size in
    let previous = slice_of-eq ((node - 1) * node_size) node_size labels (omega arith) in
    let later = lt→ltb 0 node (omega arith) in
    let digest_size = digest (update_all hasher repeated) in
    (
      nodes,
      repeated,
      mask_at 31 (ext.sha256 (update_all hasher repeated)),
      e,
      repeat_6 nodes size,
      create_label_of-eq ext repeated (u32 layer) node replica_id digest,
      rw (hasher_eq replica_id layer node, later, previous, fetch, e, rounds)
          (store_label-eq node (ext.sha256 (update_all hasher repeated)) labels word fits
            digest_size),
    )
