-- ===== src/Graph/Bucket.antt =====
-- `BucketGraph` of storage-proofs-core/src/drgraph.rs. SHA-256, the random numbers of ChaCha8 (the
-- `n`-th `u64` drawn from a seed) and the rounded `log2` of an `f64` are parameters.
use rust_fil_proofs.Base.{
  ℕ, zero, suc, ◌+◌, ◌-◌, ◌*◌, ◌/◌, ◌%◌, ◌^◌, min, max, List, [], ◌∷◌, ◌++◌, Result, ok, panic,
  ◌>>=◌, ◌>>◌, ensure, leb, ltb, ◌==◌, if◌then◌else◌, ◌<<◌, u32, u64, sub64, length, take, drop,
  le_bytes,
}
use rust_fil_proofs.Fr32.Convert.{bytes_into_fr_repr_safe}
use rust_fil_proofs.Api.{ApiVersion, v1_0_0, v1_1_0, v1_2_0}

pub data GraphError : Type 0 where
  expansion_degree_not_zero too_many_metagraph_nodes too_many_nodes : GraphError

abbrev pub drg_base_degree : ℕ
drg_base_degree = 6

abbrev pub node_size : ℕ
node_size = 32

pub record BucketGraph : Type 0 where
  pub nodes : ℕ
  pub base_degree : ℕ
  pub seed : List ℕ
  pub api_version : ApiVersion

-- `expected_size` of the trait.
unfoldable pub expected_size : BucketGraph → ℕ
expected_size g = u64 (g.nodes * node_size)

-- `data_at_node_offset` of util.rs.
unfoldable pub data_at_node_offset : ℕ → ℕ
data_at_node_offset v = u64 (v * node_size)

-- `&xs[start..start + len]`.
unfoldable pub slice_of : {A : Type 0} → ℕ → ℕ → List A → Result GraphError (List A)
slice_of start len xs =
    if leb (start + len) (length xs) then ok (take len (drop start xs)) else panic

-- A write to one place; outside the buffer it panics.
unfoldable pub set_at : ℕ → ℕ → List ℕ → Result GraphError (List ℕ)
set_at i x [] = panic
set_at zero x (y ∷ ys) = ok (x ∷ ys)
set_at (suc i) x (y ∷ ys) = do rest ← set_at i x ys; ok (y ∷ rest)

-- `parents.iter_mut().take(m)`, all set to 0.
unfoldable pub zero_first : ℕ → List ℕ → List ℕ
zero_first zero parents = parents
zero_first (suc m) [] = []
zero_first (suc m) (p ∷ parents) = 0 ∷ zero_first m parents

unfoldable pub rem_u64 : ℕ → ℕ → Result GraphError ℕ
rem_u64 a b = if b == 0 then panic else ok (a % b)

-- The body of the loop over the other parents, for two drawn numbers.
unfoldable pub draw_parent : ℕ → ℕ → ℕ → ℕ → ℕ → Result GraphError ℕ
draw_parent node m_prime n_buckets first_draw second_draw = do
  let metagraph_node = u64 (node * m_prime)
  bucket ← rem_u64 first_draw n_buckets
  let bucket_index = u64 (bucket + 1)
  let largest_distance_in_bucket = min metagraph_node (u64 (1 << (bucket_index % 64)))
  let smallest_distance_in_bucket = max 2 (largest_distance_in_bucket / 2)
  let n_distances_in_bucket = u64 (sub64 largest_distance_in_bucket smallest_distance_in_bucket + 1)
  offset ← rem_u64 second_draw n_distances_in_bucket
  let distance = u64 (smallest_distance_in_bucket + offset)
  let metagraph_parent = sub64 metagraph_node distance
  let mapped_parent = u32 (metagraph_parent / m_prime)
  ok (if mapped_parent == node then u32 (node + (2 ^ 32 - 1)) else mapped_parent)

module _ (rng : List ℕ → ℕ → ℕ) (log2_ceil : ℕ → ℕ) where
  -- `other_drg_parents.iter_mut().take(m_prime)`, with `draw` numbers drawn so far.
  unfoldable pub draw_parents : List ℕ → ℕ → ℕ → ℕ → ℕ → List ℕ → Result GraphError (List ℕ)
  draw_parents seed node m_prime draw zero parents = ok parents
  draw_parents seed node m_prime draw (suc count) [] = ok []
  draw_parents seed node m_prime draw (suc count) (p ∷ parents) = do
    parent ←
        draw_parent node m_prime (log2_ceil (u64 (node * m_prime))) (rng seed draw)
          (rng seed (draw + 1))
    rest ← draw_parents seed node m_prime (draw + 2) count parents
    ok (parent ∷ rest)

  -- The place of the predecessor and the part of the buffer for the other parents.
  unfoldable pub place_parents : ApiVersion → List ℕ → ℕ → ℕ → List ℕ → Result GraphError (List ℕ)
  place_parents v1_0_0 seed node m_prime parents = do
    drawn ← draw_parents seed node m_prime 0 m_prime parents
    set_at m_prime (u32 (node + (2 ^ 32 - 1))) drawn
  place_parents v1_1_0 seed node m_prime [] = panic
  place_parents v1_1_0 seed node m_prime (p ∷ parents) = do
    drawn ← draw_parents seed node m_prime 0 m_prime parents
    set_at 0 (u32 (node + (2 ^ 32 - 1))) (p ∷ drawn)
  place_parents v1_2_0 seed node m_prime [] = panic
  place_parents v1_2_0 seed node m_prime (p ∷ parents) = do
    drawn ← draw_parents seed node m_prime 0 m_prime parents
    set_at 0 (u32 (node + (2 ^ 32 - 1))) (p ∷ drawn)

  -- The buffer is given and returned. Nodes 0 and 1 are the special cases of the match.
  unfoldable pub parents : BucketGraph → ℕ → List ℕ → Result GraphError (List ℕ)
  parents g node buffer =
      if ltb node 2
      then ok (zero_first g.base_degree buffer)
      else place_parents g.api_version (g.seed ++ le_bytes 4 (u32 node)) (u32 node)
          (sub64 g.base_degree 1) buffer

module _ (sha256 : List ℕ → List ℕ) where
  -- The bytes of "Filecoin_DRSample".
  abbrev pub drsample_dst : List ℕ
  drsample_dst =
      70 ∷ 105 ∷ 108 ∷ 101 ∷ 99 ∷ 111 ∷ 105 ∷ 110 ∷ 95 ∷ 68 ∷ 82 ∷ 83 ∷ 97 ∷ 109 ∷ 112 ∷ 108 ∷ 101
      ∷ []

  -- The bytes of "Filecoin_Feistel".
  abbrev pub feistel_dst : List ℕ
  feistel_dst =
      70 ∷ 105 ∷ 108 ∷ 101 ∷ 99 ∷ 111 ∷ 105 ∷ 110 ∷ 95 ∷ 70 ∷ 101 ∷ 105 ∷ 115 ∷ 116 ∷ 101 ∷ 108 ∷ []

  unfoldable pub derive_porep_domain_seed : List ℕ → List ℕ → List ℕ
  derive_porep_domain_seed domain_separation_tag porep_id =
      sha256 (domain_separation_tag ++ porep_id)

  unfoldable pub derive_drg_seed : List ℕ → List ℕ
  derive_drg_seed porep_id = take 28 (derive_porep_domain_seed drsample_dst porep_id)

  unfoldable pub new_bucket_graph : ℕ → ℕ → ℕ → List ℕ → ApiVersion → Result GraphError BucketGraph
  new_bucket_graph nodes base_degree expansion_degree porep_id api_version = do
    ensure (expansion_degree == 0) expansion_degree_not_zero
    ensure (leb (u64 (nodes * sub64 base_degree 1)) (2 ^ 54)) too_many_metagraph_nodes
    ok (record {
      nodes = nodes;
      base_degree = base_degree;
      seed = derive_drg_seed porep_id;
      api_version = api_version;
    })

  -- The data of the parents, in order, one node after the other.
  unfoldable pub parents_data : List ℕ → List ℕ → Result GraphError (List ℕ)
  parents_data [] base_parents_data = ok []
  parents_data (parent ∷ parents) base_parents_data = do
    node ← slice_of (data_at_node_offset parent) node_size base_parents_data
    rest ← parents_data parents base_parents_data
    ok (node ++ rest)

  abbrev pub key_of : List ℕ → List ℕ → Result GraphError (List ℕ)
  key_of id data_bytes = bytes_into_fr_repr_safe (sha256 (id ++ data_bytes))

  unfoldable pub create_key : List ℕ → ℕ → List ℕ → List ℕ → Result GraphError (List ℕ)
  create_key id node [] base_parents_data = panic
  create_key id node (parent ∷ rest) base_parents_data = do
    hashed ← (if node == parent then ok [] else parents_data (parent ∷ rest) base_parents_data)
    key_of id hashed
