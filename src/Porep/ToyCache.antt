-- ===== src/Porep/ToyCache.antt =====
-- A cache of the parents of 12 nodes with a window of 5, and one of 4 entries whose window has moved.
use rust_fil_proofs.Base.{
  ℕ, ◌+◌, ◌<◌, ◌≤◌, ◌≡◌, ◌⊎◌, refl, arith, List, [], ◌∷◌, some, none, ok, err, panic, bytes_eq,
  length, get_elem?, replicate,
}
use rust_fil_proofs.Api.{v1_1_0}
use rust_fil_proofs.Graph.ToyGraph.{
  toy_hash, log2_floor, log2_floor-IsLog2, toy_graph, toy_graph-IsGraph,
}
use rust_fil_proofs.Graph.Stacked.{stacked_parents}
use rust_fil_proofs.Porep.Labeling.{Externals}
use rust_fil_proofs.Porep.Cache.{
  ParentCache, ParentCacheData, not_ascending, invalid_generated, get_parent_cache_data, generate,
  read, read_data, contains, shift, reset, read_ascending,
}
use rust_fil_proofs.Porep.CacheReads.{IsCache, Read, reset-read_ascending}
use rust_fil_proofs.Porep.CacheOutcomes.{reach, read_outcome}
use rust_fil_proofs.Porep.CacheManifest.{Accepts, Rejects}
use rust_fil_proofs.Porep.CacheParents.{generate-stacked_parents}

abbrev toy_entries : List (List ℕ)
toy_entries = (1 ∷ []) ∷ (2 ∷ []) ∷ (3 ∷ []) ∷ (4 ∷ []) ∷ []

abbrev moved_cache : ParentCache
moved_cache = record {
  num_cache_entries = 4;
  cache = record { file = toy_entries; offset = 1; len = 2 };
}

moved_cache-IsCache : IsCache moved_cache
moved_cache-IsCache = record {
  some_entries = omega arith;
  in_file = omega arith;
  whole_file = refl;
  word = omega arith;
}

reset-read_ascending_example :
    (after : ParentCache) × (last : ParentCache) × (reset moved_cache ≡ ok after)
    × (read_ascending after 0 4 ≡ ok (last, toy_entries))
    × IsCache after
    × IsCache last
reset-read_ascending_example = reset-read_ascending moved_cache moved_cache-IsCache

-- The window has the nodes 1 and 2; the next one ends with node 3.
read_outcome_example :
    ((3 < 1) × (read moved_cache 3 ≡ err not_ascending))
    ⊎ (((1 ≤ 3)
          × (3 < reach moved_cache)
          × (after : ParentCache) × (parents : List ℕ) × (read moved_cache 3 ≡ ok (after, parents))
          × Read moved_cache after 3 parents)
        ⊎ ((reach moved_cache ≤ 3) × (read moved_cache 3 ≡ panic)))
read_outcome_example = read_outcome moved_cache 3 moved_cache-IsCache

reads_three :
    read moved_cache 3
    ≡ ok (
      record { num_cache_entries = 4; cache = record { file = toy_entries; offset = 2; len = 2 } },
      4 ∷ [],
    )
unfolding read read_data contains shift
reads_three = refl

abbrev toy : Externals
toy = record {
  sha256 = λ bytes. bytes;
  poseidon = λ column. [];
  hash2 = λ a b. a;
  blake2b = toy_hash;
  rng = toy_hash;
  log2_ceil = log2_floor;
  keyed_blake2b = λ purpose bytes. bytes;
  keystream = toy_hash;
}

-- The manifest knows another cache.
abbrev toy_manifest : List (List ℕ × ParentCacheData)
toy_manifest = (7 ∷ [], record { digest = 48 ∷ 48 ∷ []; sector_size = 384 }) ∷ []

toy_unknown : get_parent_cache_data toy_manifest (5 ∷ []) ≡ none
unfolding get_parent_cache_data bytes_eq
toy_unknown = refl

generate-stacked_parents_example :
    (rows : List (List ℕ)) × (length rows ≡ 12)
    × ((node : ℕ)
        → node < 12
        → (row : List ℕ) × (get_elem? rows node ≡ some row)
          × (stacked_parents toy_hash toy_hash log2_floor
                (toy_graph v1_1_0)
                node
                (replicate (6 + 8) 0)
              ≡ ok row))
    × ((Accepts (λ bytes. bytes) toy_manifest (5 ∷ []) rows
          × (c : ParentCache) × (last : ParentCache) × (generate toy_hash log2_floor toy_hash
                (λ bytes. bytes)
                toy_manifest
                (toy_graph v1_1_0)
                5
                12
                (5 ∷ [])
              ≡ ok c)
          × (read_ascending c 0 12 ≡ ok (last, rows)))
        ⊎ (Rejects (λ bytes. bytes) toy_manifest (5 ∷ []) rows
            × (generate toy_hash log2_floor toy_hash
                  (λ bytes. bytes)
                  toy_manifest
                  (toy_graph v1_1_0)
                  5
                  12
                  (5 ∷ [])
                ≡ err invalid_generated)))
generate-stacked_parents_example =
    generate-stacked_parents toy log2_floor-IsLog2 12 v1_1_0 (toy_graph v1_1_0)
      (toy_graph-IsGraph v1_1_0) toy_manifest (5 ∷ []) 5 12 (omega arith) (omega arith)
      (omega arith)
