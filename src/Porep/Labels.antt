-- ===== src/Porep/Labels.antt =====
-- `create_label` and `create_label_exp` of
-- storage-proofs-porep/src/stacked/vanilla/create_label/single.rs, with the functions of graph.rs that
-- give them the data of the parents. The parents are those of the graph or of its cache, given as a
-- list. A prefetch reads a slice and so panics out of range.
use rust_fil_proofs.Base.{
  ℕ, ◌+◌, ◌-◌, ◌*◌, List, [], ◌∷◌, ◌++◌, Result, ok, panic, ◌>>=◌, leb, ltb, ◌==◌, if◌then◌else◌,
  u32, length, replicate, take, drop,
}
use rust_fil_proofs.Fr32.Convert.{mask_at}
use rust_fil_proofs.Graph.Bucket.{GraphError, node_size, data_at_node_offset, slice_of}
use rust_fil_proofs.Graph.Stacked.{input, copy_parents_data_inner, copy_parents_data_inner_exp}
use rust_fil_proofs.Porep.Labeling.{Domain, to_be_bytes}

-- The buffer of 32 bytes behind the replica id.
abbrev pub node_buffer : ℕ → ℕ → List ℕ
node_buffer layer_index node =
    to_be_bytes 4 (u32 layer_index) ++ (to_be_bytes 8 node ++ replicate 20 0)

-- `layer_labels[start..end].copy_from_slice(hash)` and the mask of the last byte.
unfoldable pub store_label : ℕ → List ℕ → List ℕ → Result GraphError (List ℕ)
store_label node hash layer_labels =
    let start = data_at_node_offset node in
    if leb (start + node_size) (length layer_labels)
    then (if length hash == node_size
        then ok (
            mask_at (start + node_size - 1)
              (take start layer_labels ++ (hash ++ drop (start + node_size) layer_labels)))
        else panic)
    else panic

module _ (sha256 : List ℕ → List ℕ) where
  unfoldable pub create_label : List ℕ → Domain → List ℕ → ℕ → ℕ → Result GraphError (List ℕ)
  create_label cache_parents replica_id layer_labels layer_index node = do
    let hasher = input [] (replica_id ∷ node_buffer layer_index node ∷ [])
    let hashed = (do
      previous ← slice_of ((node - 1) * node_size) node_size layer_labels
      copy_parents_data_inner sha256 cache_parents layer_labels hasher)
    hash ← (if ltb 0 node then hashed else ok (sha256 hasher))
    store_label node hash layer_labels

  unfoldable pub create_label_exp :
      List ℕ → Domain → List ℕ → List ℕ → ℕ → ℕ → Result GraphError (List ℕ)
  create_label_exp cache_parents replica_id exp_parents_data layer_labels layer_index node = do
    let hasher = input [] (replica_id ∷ node_buffer layer_index node ∷ [])
    let hashed = (do
      previous ← slice_of ((node - 1) * node_size) node_size layer_labels
      copy_parents_data_inner_exp sha256 cache_parents layer_labels exp_parents_data hasher)
    hash ← (if ltb 0 node then hashed else ok (sha256 hasher))
    store_label node hash layer_labels
