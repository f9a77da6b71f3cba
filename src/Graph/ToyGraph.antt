-- ===== src/Graph/ToyGraph.antt =====
-- Graphs of 12 nodes, with toy hashes, random numbers and a binary logarithm, for the tests.
use native.Mathlib.Decide.{dec_lt}
use rust_fil_proofs.Base.{
  ℕ, zero, suc, ◌+◌, ◌*◌, ◌^◌, ◌≤◌, ◌<◌, ◌≡◌, refl, arith, List, [], ◌∷◌, ltb, if◌then◌else◌,
  lt→ltb, ge→ltb,
}
use rust_fil_proofs.Api.{ApiVersion}
use rust_fil_proofs.Feistel.Network.{precompute, log4_loop, masks}
use rust_fil_proofs.Graph.Bucket.{BucketGraph}
use rust_fil_proofs.Graph.Parents.{IsLog2}
use rust_fil_proofs.Graph.Stacked.{StackedGraph}
use rust_fil_proofs.Graph.Expanded.{IsGraph}

abbrev weigh : ℕ → List ℕ → ℕ
weigh w [] = 0
weigh w (b ∷ bytes) = w * b + weigh (w + 1) bytes

abbrev pub toy_hash : List ℕ → ℕ → ℕ
toy_hash bytes i = 3 * weigh 1 bytes + i

unfoldable pub log2_search : ℕ → ℕ → ℕ → ℕ
log2_search zero k x = k
log2_search (suc fuel) k x =
    let further = log2_search fuel (suc k) x in if ltb x (2 ^ suc k) then k else further

abbrev pub log2_floor : ℕ → ℕ
log2_floor x = log2_search 54 0 x

log2_search_lem :
    (fuel k x : ℕ)
    → 2 ^ k ≤ x
    → x < 2 ^ (k + suc fuel)
    → (2 ^ log2_search fuel k x ≤ x) × (x < 2 ^ suc (log2_search fuel k x))
unfolding log2_search
log2_search_lem zero k x low high = (low, rw (k_suc k) high)
  where
    k_suc : (k : ℕ) → suc k ≡ k + 1
    k_suc k = omega arith
log2_search_lem (suc fuel) k x low high = elim (dec_lt x (2 ^ suc k)) [
  | yes found ↦ rw (lt→ltb x (2 ^ suc k) found) (low, found)
  | no further ↦
      let e : suc k + suc fuel ≡ k + suc (suc fuel) = omega arith in
      rw (ge→ltb x (2 ^ suc k) (omega arith))
        (log2_search_lem fuel (suc k) x (omega arith) (rw e high))
]

pub log2_floor-IsLog2 : IsLog2 log2_floor
log2_floor-IsLog2 x low high =
    let (a, b) = log2_search_lem 54 0 x (omega arith) (omega arith) in
    let e : log2_floor x + 1 ≡ suc (log2_floor x) = omega arith in (omega (arith, a), rw e b)

abbrev pub toy_bucket_graph : ApiVersion → BucketGraph
toy_bucket_graph version = record {
  nodes = 12;
  base_degree = 6;
  seed = 1 ∷ 2 ∷ [];
  api_version = version;
}

abbrev pub toy_graph : ApiVersion → StackedGraph
toy_graph version = record {
  expansion_degree = 8;
  base_graph = toy_bucket_graph version;
  feistel_keys = 5 ∷ 6 ∷ 7 ∷ 8 ∷ [];
  feistel_precomputed = masks 4;
  api_version = version;
}

pub toy_graph-IsGraph : (version : ApiVersion) → IsGraph 12 version (toy_graph version)
unfolding precompute log4_loop masks
toy_graph-IsGraph version = record {
  expansion = refl;
  base_version = refl;
  this_version = refl;
  base_nodes = refl;
  base_size = refl;
  few = omega arith;
  precomputed = refl;
  four_keys = (5, 6, 7, 8, refl);
}
