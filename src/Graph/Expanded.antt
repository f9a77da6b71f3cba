-- ===== src/Graph/Expanded.antt =====
-- The expanded parents of `StackedGraph` (storage-proofs-porep/src/stacked/vanilla/graph.rs): a
-- graph that `new_graph` returns, the slot that an edge has in the search space, and all parents
-- of a node.
use rust_fil_proofs.Base.{
  ℕ, zero, suc, ◌+◌, ◌-◌, ◌*◌, ◌/◌, ◌^◌, ◌≤◌, ◌<◌, ◌≡◌, ◌≢◌, ◌⊎◌, inl, inr, ◌∙◌, refl, sym, ap,
  arith, true, List, [], ◌∷◌, ◌++◌, none, some, ok, leb, u32, u64, sub64, length, take, drop, All,
  le→leb, subst, length-take, length-drop,
}
use rust_fil_proofs.Api.{ApiVersion, v1_0_0, v1_1_0, v1_2_0}
use rust_fil_proofs.Feistel.Network.{permute, invert_permute, precompute}
use rust_fil_proofs.Feistel.Permutation.{invert_permute-permute}
use rust_fil_proofs.Post.Complete.{append_nil}
use rust_fil_proofs.Graph.Bucket.{BucketGraph, new_bucket_graph, parents, slice_of, derive_drg_seed}
use rust_fil_proofs.Graph.Parents.{IsLog2, IsParents, parents-IsParents}
use rust_fil_proofs.Graph.Stacked.{
  StackedGraph, derive_feistel_keys, new_graph, row_of, correspondent, generate_expanded_parents,
  stacked_parents,
}

-- What `new_graph` makes of a number of nodes.
pub record IsGraph (nodes : ℕ) (version : ApiVersion) (g : StackedGraph) : Type 0 where
  pub expansion : g.expansion_degree ≡ 8
  pub base_version : g.base_graph.api_version ≡ version
  pub this_version : g.api_version ≡ version
  pub base_nodes : g.base_graph.nodes ≡ nodes
  pub base_size : g.base_graph.base_degree ≡ 6
  pub few : nodes ≤ 2 ^ 32 - 1
  pub precomputed : precompute (8 * nodes) ≡ some g.feistel_precomputed
  pub four_keys : (a : ℕ) × (b : ℕ) × (c : ℕ) × (d : ℕ) × (g.feistel_keys ≡ a ∷ b ∷ c ∷ d ∷ [])

module _ (sha256 : List ℕ → List ℕ) where
  abbrev base_of : ℕ → List ℕ → ApiVersion → BucketGraph
  base_of nodes porep_id version = record {
    nodes = nodes;
    base_degree = 6;
    seed = derive_drg_seed sha256 porep_id;
    api_version = version;
  }

  new_bucket_graph-eq :
      (nodes : ℕ) (porep_id : List ℕ) (version : ApiVersion)
      → nodes ≤ 2 ^ 32 - 1
      → new_bucket_graph sha256 nodes 6 0 porep_id version ≡ ok (base_of nodes porep_id version)
  unfolding new_bucket_graph
  new_bucket_graph-eq nodes porep_id version few =
      let e : u64 (nodes * sub64 6 1) ≡ nodes * 5 = omega arith in
      let f : leb (nodes * 5) (2 ^ 54) ≡ true = le→leb (nodes * 5) (2 ^ 54) (omega arith) in
      rw (e, f) refl

  pub new_graph-IsGraph :
      (blake2b : List ℕ → ℕ → ℕ) (nodes : ℕ) (porep_id : List ℕ) (version : ApiVersion)
      → 1 ≤ nodes
      → nodes ≤ 2 ^ 32 - 1
      → (g : StackedGraph) × (new_graph sha256 none nodes 6 8 porep_id version ≡ ok g)
        × IsGraph nodes version g
  unfolding new_graph derive_feistel_keys
  new_graph-IsGraph blake2b nodes porep_id version some_nodes few =
      let (p, w, e, there, low, back) =
        invert_permute-permute blake2b (8 * nodes) 0 0 0 0 [] (omega arith) (omega arith) in
      let wide : u64 (8 * nodes) ≡ 8 * nodes = omega arith in
      let fits = le→leb nodes (2 ^ 32 - 1) few in
      let base = new_bucket_graph-eq nodes porep_id version few in
      (
        record {
          expansion_degree = 8;
          base_graph = base_of nodes porep_id version;
          feistel_keys = derive_feistel_keys sha256 porep_id;
          feistel_precomputed = p;
          api_version = version;
        },
        rw (fits, base, wide, e) refl,
        record {
          expansion = refl;
          base_version = refl;
          this_version = refl;
          base_nodes = refl;
          base_size = refl;
          few = few;
          precomputed = e;
          four_keys = (_, _, _, _, refl);
        },
      )

-- The slot of an edge: the number that the permutation of the search space takes the edge to.
pub record Slot (blake2b : List ℕ → ℕ → ℕ) (g : StackedGraph) (nodes edge parent : ℕ) : Type 0 where
  pub slot : ℕ
  pub row : parent ≡ slot / 8
  pub in_range : slot < 8 * nodes
  pub undone :
      invert_permute blake2b (8 * nodes) slot g.feistel_keys g.feistel_precomputed ≡ some edge

row_of-later :
    (v : ApiVersion) (slot nodes : ℕ)
    → v ≢ v1_0_0
    → slot < 8 * nodes
    → nodes ≤ 2 ^ 32 - 1
    → row_of v slot 8 ≡ ok (slot / 8)
unfolding row_of
row_of-later v1_0_0 slot nodes later h few = absurd (later refl)
row_of-later v1_1_0 slot nodes later h few = ground arith
row_of-later v1_2_0 slot nodes later h few = ground arith

row_of-first : (slot : ℕ) → row_of v1_0_0 slot 8 ≡ ok (u32 slot / 8)
unfolding row_of
row_of-first slot = refl

pub slice_of-eq :
    (start len : ℕ) (xs : List ℕ)
    → start + len ≤ length xs
    → slice_of start len xs ≡ ok (take len (drop start xs))
unfolding slice_of
slice_of-eq start len xs h = let e = le→leb (start + len) (length xs) h in rw e refl

drop_all : (k : ℕ) (xs : List ℕ) → length xs ≤ k → drop k xs ≡ []
drop_all zero [] h = refl
drop_all zero (x ∷ xs) h = absurd (omega arith)
drop_all (suc k) [] h = refl
drop_all (suc k) (x ∷ xs) h = drop_all k xs (omega arith)

pub stacked_parents-eq :
    (blake2b rng : List ℕ → ℕ → ℕ) (log2_ceil : ℕ → ℕ) (g : StackedGraph) (node : ℕ)
    (buffer base_part exp_part base expanded : List ℕ)
    → slice_of 0 g.base_graph.base_degree buffer ≡ ok base_part
    → parents rng log2_ceil g.base_graph node base_part ≡ ok base
    → slice_of g.base_graph.base_degree g.expansion_degree buffer ≡ ok exp_part
    → generate_expanded_parents blake2b g node 0 exp_part ≡ ok expanded
    → drop (g.base_graph.base_degree + g.expansion_degree) buffer ≡ []
    → stacked_parents blake2b rng log2_ceil g node buffer ≡ ok (base ++ expanded)
unfolding stacked_parents
stacked_parents-eq blake2b rng log2_ceil g node buffer base_part exp_part base expanded a b c d e =
    rw (a, b, c, d, e, append_nil expanded) refl

first_or_later : (v : ApiVersion) → (v ≡ v1_0_0) ⊎ (v ≢ v1_0_0)
first_or_later v1_0_0 = inl refl
first_or_later v1_1_0 = inr (λ e. cc)
first_or_later v1_2_0 = inr (λ e. cc)

module _ (blake2b : List ℕ → ℕ → ℕ) (nodes : ℕ) (version : ApiVersion) (g : StackedGraph)
    (is : IsGraph nodes version g) where
  correspondent-row :
      (node i slot : ℕ)
      → node < nodes
      → i < 8
      → permute blake2b (8 * nodes) (8 * node + i) g.feistel_keys g.feistel_precomputed ≡ some slot
      → correspondent blake2b g node i ≡ row_of version slot 8
  unfolding correspondent
  correspondent-row node i slot h k e =
      let few = is.few in
      let edge : u64 (u64 (node * 8) + i) ≡ 8 * node + i = omega arith in
      let space : u64 (nodes * 8) ≡ 8 * nodes = omega arith in
      rw (is.expansion, is.base_nodes, is.this_version, edge, space, e) refl

  edge_slot :
      (node i : ℕ)
      → node < nodes
      → i < 8
      → (slot : ℕ) × (permute blake2b
            (8 * nodes)
            (8 * node + i)
            g.feistel_keys
            g.feistel_precomputed
          ≡ some slot)
        × (slot < 8 * nodes)
        × (invert_permute blake2b (8 * nodes) slot g.feistel_keys g.feistel_precomputed
            ≡ some (8 * node + i))
  edge_slot node i h k =
      let few = is.few in
      let (a, b, c, d, keys) = is.four_keys in
      let (p, w, e, there, low, back) =
        invert_permute-permute blake2b (8 * nodes) (8 * node + i) a b c (d ∷ []) (omega arith)
          (omega arith) in
      let same : p ≡ g.feistel_precomputed = (let q = sym e ∙ is.precomputed in cc) in
      (w, rw (keys, sym same) there, low, rw (keys, sym same) back)

  -- In a graph that `new_graph` makes for a later version than the first: the `i`-th expanded
  -- parent of a node, `i` below 8, exists and is a node of the graph. It is the row of a slot of
  -- the search space from which `invert_permute` gives back the edge, the node and `i`: so no two
  -- edges share a slot, and no node is the parent of more than 8 edges.
  pub correspondent-Slot :
      (node i : ℕ)
      → version ≢ v1_0_0
      → node < nodes
      → i < 8
      → (parent : ℕ) × (correspondent blake2b g node i ≡ ok parent)
        × (parent < nodes)
        × Slot blake2b g nodes (8 * node + i) parent
  correspondent-Slot node i later h k =
      let (slot, there, low, back) = edge_slot node i h k in
      (
        slot / 8,
        correspondent-row node i slot h k there ∙ row_of-later version slot nodes later low is.few,
        omega (arith, low),
        record { slot = slot; row = refl; in_range = low; undone = back },
      )

  -- In a graph of the first version, the `i`-th expanded parent of a node, `i` below 8, exists and
  -- is a node of the graph, and it is below 2 ^ 29: the slot is cut to 32 bits before it is divided.
  pub correspondent-first :
      (node i : ℕ)
      → version ≡ v1_0_0
      → node < nodes
      → i < 8
      → (parent : ℕ) × (correspondent blake2b g node i ≡ ok parent)
        × (parent < nodes)
        × (parent < 2 ^ 29)
  correspondent-first node i first h k =
      let (slot, there, low, back) = edge_slot node i h k in
      (
        u32 slot / 8,
        correspondent-row node i slot h k there
            ∙ ap (λ v. row_of v slot 8) first
            ∙ row_of-first slot,
        omega (arith, low),
        omega arith,
      )

  correspondent_lem :
      (node i : ℕ)
      → node < nodes
      → i < 8
      → (parent : ℕ) × (correspondent blake2b g node i ≡ ok parent) × (parent < nodes)
  correspondent_lem node i h k = elim (first_or_later version) [
    | inl first ↦ let (p, e, low, small) = correspondent-first node i first h k in (p, e, low)
    | inr later ↦ let (p, e, low, slot) = correspondent-Slot node i later h k in (p, e, low)
  ]

  pub expanded-All :
      (node i : ℕ) (buffer : List ℕ)
      → node < nodes
      → i + length buffer ≤ 8
      → (out : List ℕ) × (generate_expanded_parents blake2b g node i buffer ≡ ok out)
        × (length out ≡ length buffer)
        × All (λ p. p < nodes) out
  unfolding generate_expanded_parents
  expanded-All node i [] h k = ([], refl, refl, tt)
  expanded-All node i (x ∷ buffer) h k =
      let (p, e, low) = correspondent_lem node i h (omega arith) in
      let (out, es, size, lows) = expanded-All node (i + 1) buffer h (omega arith) in
      (p ∷ out, rw (e, es) refl, ap suc size, (low, lows))

  -- What `parents` leaves in a buffer of 14 places.
  pub record IsStackedParents (node : ℕ) (buffer base expanded : List ℕ) : Type 0 where
    pub base_parents : IsParents version 6 node (take 6 buffer) base
    pub base_length : length base ≡ 6
    pub expanded_length : length expanded ≡ 8
    pub expanded_in_range : All (λ p. p < nodes) expanded

  -- For a rounded logarithm, a graph that `new_graph` makes and a node of it: `parents` fills a
  -- buffer of 14 places with the 6 parents of the base graph, which come before the node and have
  -- its predecessor among them, and with 8 expanded parents, which are nodes of the graph.
  pub stacked_parents-IsStackedParents :
      (rng : List ℕ → ℕ → ℕ) (log2_ceil : ℕ → ℕ) (node : ℕ) (buffer : List ℕ)
      → IsLog2 log2_ceil
      → node < nodes
      → length buffer ≡ 14
      → (base : List ℕ) × (expanded : List ℕ) × (stacked_parents blake2b rng log2_ceil g node buffer
          ≡ ok (base ++ expanded))
        × IsStackedParents node buffer base expanded
  stacked_parents-IsStackedParents rng log2_ceil node buffer is_log2 h size =
      let few = is.few in
      let degree = is.base_size in
      let first_size : length (take 6 buffer) ≡ 6 = length-take 6 buffer ∙ omega (arith, size) in
      let then_size : length (take 8 (drop 6 buffer)) ≡ 8 =
        length-take 8 (drop 6 buffer) ∙ omega (arith, size, length-drop 6 buffer) in
      let rest : drop 14 buffer ≡ [] = drop_all 14 buffer (omega (arith, size)) in
      let (base, e, parents_lem) =
        parents-IsParents rng log2_ceil is_log2 g.base_graph node (take 6 buffer)
          (omega (arith, degree)) (omega (arith, degree)) (omega (arith, degree, first_size))
          (omega arith) (rw degree (omega arith)) in
      let (expanded, es, expanded_size, low) =
        expanded-All node 0 (take 8 (drop 6 buffer)) h (omega (arith, then_size)) in
      let first = slice_of-eq 0 6 buffer (omega (arith, size)) in
      let second = slice_of-eq 6 8 buffer (omega (arith, size)) in
      (
        base,
        expanded,
        stacked_parents-eq blake2b rng log2_ceil g node buffer (take 6 buffer)
            (take 8 (drop 6 buffer)) base expanded (rw degree first) e
            (rw (is.expansion, degree) second) es (rw (is.expansion, degree) rest),
        record {
          base_parents = respell parents_lem;
          base_length = parents_lem.same_length ∙ first_size;
          expanded_length = expanded_size ∙ then_size;
          expanded_in_range = low;
        },
      )
    where
      respell :
          {out : List ℕ}
          → IsParents g.base_graph.api_version g.base_graph.base_degree node (take 6 buffer) out
          → IsParents version 6 node (take 6 buffer) out
      respell {out} q =
          subst (λ v. IsParents v 6 node (take 6 buffer) out) is.base_version
            (subst (λ d. IsParents g.base_graph.api_version d node (take 6 buffer) out) is.base_size
              q)
