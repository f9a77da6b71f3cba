-- ===== src/Graph/Stacked.antt =====
-- `StackedGraph` of storage-proofs-porep/src/stacked/vanilla/graph.rs: the expanded parents of a
-- node, and the data of its parents as they are hashed. A hasher is the list of bytes that it was
-- given; Blake2b, SHA-256 and the numbers of ChaCha8 are parameters.
use rust_fil_proofs.Base.{
  ℕ, zero, suc, ◌+◌, ◌-◌, ◌*◌, ◌/◌, ◌^◌, List, [], ◌∷◌, ◌++◌, Option, none, some, Result, ok, panic,
  stuck, ◌>>=◌, ◌>>◌, ensure, assert, leb, ltb, ◌==◌, if◌then◌else◌, u32, u64, take, drop,
  get_elem?, from_le,
}
use rust_fil_proofs.Api.{ApiVersion, v1_0_0, v1_1_0, v1_2_0}
use rust_fil_proofs.Feistel.Network.{FeistelPrecomputed, precompute, permute}
use rust_fil_proofs.Graph.Bucket.{
  GraphError, too_many_nodes, BucketGraph, drg_base_degree, node_size, slice_of, parents,
  feistel_dst, derive_porep_domain_seed, new_bucket_graph,
}

abbrev pub exp_degree : ℕ
exp_degree = 8

abbrev pub degree : ℕ
degree = drg_base_degree + exp_degree

pub record StackedGraph : Type 0 where
  pub expansion_degree : ℕ
  pub base_graph : BucketGraph
  pub feistel_keys : List ℕ
  pub feistel_precomputed : FeistelPrecomputed
  pub api_version : ApiVersion

-- The slice of one node's data, for the parent at a place of the list.
unfoldable pub read_node : ℕ → List ℕ → List ℕ → Result GraphError (List ℕ)
read_node i [] layer_bytes = panic
read_node zero (parent ∷ parents) layer_bytes = slice_of (parent * node_size) node_size layer_bytes
read_node (suc i) (parent ∷ parents) layer_bytes = read_node i parents layer_bytes

abbrev pub of_loop : {A : Type 0} → Option A → Result GraphError A
of_loop none = stuck
of_loop (some a) = ok a

module _ (sha256 : List ℕ → List ℕ) where
  unfoldable pub derive_feistel_keys : List ℕ → List ℕ
  derive_feistel_keys porep_id =
      let raw_seed = derive_porep_domain_seed sha256 (feistel_dst sha256) porep_id in
      from_le (take 8 raw_seed)
      ∷ from_le (take 8 (drop 8 raw_seed))
      ∷ from_le (take 8 (drop 16 raw_seed))
      ∷ from_le (take 8 (drop 24 raw_seed))
      ∷ []

  abbrev pub base_or_new :
      Option BucketGraph → ℕ → ℕ → List ℕ → ApiVersion → Result GraphError BucketGraph
  base_or_new (some graph) nodes base_degree porep_id api_version = ok graph
  base_or_new none nodes base_degree porep_id api_version =
      new_bucket_graph sha256 nodes base_degree 0 porep_id api_version

  unfoldable pub new_graph :
      Option BucketGraph → ℕ → ℕ → ℕ → List ℕ → ApiVersion → Result GraphError StackedGraph
  new_graph base_graph nodes base_degree expansion_degree porep_id api_version = do
    assert (base_degree == drg_base_degree)
    assert (expansion_degree == exp_degree)
    ensure (leb nodes (2 ^ 32 - 1)) too_many_nodes
    graph ← base_or_new base_graph nodes base_degree porep_id api_version
    precomputed ← of_loop (precompute (u64 (expansion_degree * nodes)))
    ok (record {
      expansion_degree = expansion_degree;
      base_graph = graph;
      feistel_keys = derive_feistel_keys porep_id;
      feistel_precomputed = precomputed;
      api_version = api_version;
    })

-- The row of a slot of the search space; a division by zero panics.
unfoldable pub row_of : ApiVersion → ℕ → ℕ → Result GraphError ℕ
row_of v1_0_0 transformed expansion_degree =
    if u32 expansion_degree == 0 then panic else ok (u32 transformed / u32 expansion_degree)
row_of v1_1_0 transformed expansion_degree =
    if expansion_degree == 0
    then panic
    else if ltb (transformed / expansion_degree) (2 ^ 32)
    then ok (transformed / expansion_degree)
    else panic
row_of v1_2_0 transformed expansion_degree =
    if expansion_degree == 0
    then panic
    else if ltb (transformed / expansion_degree) (2 ^ 32)
    then ok (transformed / expansion_degree)
    else panic

module _ (blake2b : List ℕ → ℕ → ℕ) where
  unfoldable pub correspondent : StackedGraph → ℕ → ℕ → Result GraphError ℕ
  correspondent g node i = do
    let a = u64 (u64 (node * g.expansion_degree) + i)
    transformed ← of_loop (
        permute blake2b (u64 (g.base_graph.nodes * g.expansion_degree)) a g.feistel_keys
          g.feistel_precomputed)
    row_of g.api_version transformed g.expansion_degree

  -- The loop over the places of the slice, from the `i`-th on.
  unfoldable pub generate_expanded_parents :
      StackedGraph → ℕ → ℕ → List ℕ → Result GraphError (List ℕ)
  generate_expanded_parents g node i [] = ok []
  generate_expanded_parents g node i (el ∷ expanded_parents) = do
    parent ← correspondent g node i
    rest ← generate_expanded_parents g node (i + 1) expanded_parents
    ok (parent ∷ rest)

  module _ (rng : List ℕ → ℕ → ℕ) (log2_ceil : ℕ → ℕ) where
    -- The two parts of the buffer are filled one after the other.
    unfoldable pub stacked_parents : StackedGraph → ℕ → List ℕ → Result GraphError (List ℕ)
    stacked_parents g node buffer = do
      base_part ← slice_of 0 g.base_graph.base_degree buffer
      base ← parents rng log2_ceil g.base_graph node base_part
      exp_part ← slice_of g.base_graph.base_degree g.expansion_degree buffer
      expanded ← generate_expanded_parents g node 0 exp_part
      ok (base ++ (expanded ++ drop (g.base_graph.base_degree + g.expansion_degree) buffer))

-- `prefetch` slices the data of all parents, and panics where that is out of range.
unfoldable pub prefetch : List ℕ → List ℕ → Result GraphError (Unit {0})
prefetch [] layer_bytes = ok tt
prefetch (parent ∷ parents) layer_bytes = do
  node ← slice_of (parent * node_size) node_size layer_bytes
  prefetch parents layer_bytes

-- The nodes of the parents `i`, `i + 1`, …, `count` of them.
unfoldable pub read_nodes : ℕ → ℕ → List ℕ → List ℕ → Result GraphError (List (List ℕ))
read_nodes i zero cache_parents layer_bytes = ok []
read_nodes i (suc count) cache_parents layer_bytes = do
  node ← read_node i cache_parents layer_bytes
  rest ← read_nodes (i + 1) count cache_parents layer_bytes
  ok (node ∷ rest)

-- `hasher.input(&parents)`.
unfoldable pub input : List ℕ → List (List ℕ) → List ℕ
input hasher [] = hasher
input hasher (node ∷ nodes) = input (hasher ++ node) nodes

-- `finish_with(parents[i])`.
unfoldable pub finish_with :
    (List ℕ → List ℕ) → List ℕ → Option (List ℕ) → Result GraphError (List ℕ)
finish_with sha256 hasher none = panic
finish_with sha256 hasher (some last) = ok (sha256 (hasher ++ last))

module _ (sha256 : List ℕ → List ℕ) where
  unfoldable pub copy_parents_data_inner_exp :
      List ℕ → List ℕ → List ℕ → List ℕ → Result GraphError (List ℕ)
  copy_parents_data_inner_exp cache_parents base_bytes exp_bytes hasher = do
    prefetch (take drg_base_degree cache_parents) base_bytes
    prefetch (drop drg_base_degree cache_parents) exp_bytes
    base_nodes ← read_nodes 0 6 cache_parents base_bytes
    exp_nodes ← read_nodes 6 8 cache_parents exp_bytes
    let nodes = base_nodes ++ exp_nodes
    let round1 = input hasher nodes
    let round2 = input round1 nodes
    let round3 = input round2 (take 8 nodes)
    finish_with sha256 round3 (get_elem? nodes 8)

  unfoldable pub copy_parents_data_inner : List ℕ → List ℕ → List ℕ → Result GraphError (List ℕ)
  copy_parents_data_inner cache_parents base_bytes hasher = do
    prefetch (take drg_base_degree cache_parents) base_bytes
    nodes ← read_nodes 0 6 cache_parents base_bytes
    let round1 = input hasher nodes
    let round2 = input round1 nodes
    let round3 = input round2 nodes
    let round4 = input round3 nodes
    let round5 = input round4 nodes
    let round6 = input round5 nodes
    finish_with sha256 round6 (get_elem? nodes 0)
