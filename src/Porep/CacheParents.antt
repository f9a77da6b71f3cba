-- ===== src/Porep/CacheParents.antt =====
-- The cache of parents that is generated for a graph (storage-proofs-porep/src/stacked/vanilla/cache.rs)
-- holds the parents that `StackedGraph::parents` computes.
use rust_fil_proofs.Base.{
  ℕ, zero, suc, ◌+◌, ◌≤◌, ◌<◌, ◌^◌, ◌≡◌, ◌∙◌, ◌⊎◌, inl, inr, refl, sym, ap, subst, arith, false,
  err, List, [], ◌∷◌, ◌++◌, some, ok, ltb, u32, length, replicate, get_elem?, ge→ltb,
}
use rust_fil_proofs.Api.{ApiVersion}
use rust_fil_proofs.Graph.Bucket.{parents}
use rust_fil_proofs.Graph.Parents.{IsLog2}
use rust_fil_proofs.Graph.Stacked.{StackedGraph, stacked_parents, generate_expanded_parents}
use rust_fil_proofs.Graph.Expanded.{IsGraph}
use rust_fil_proofs.Porep.Labeling.{Externals}
use rust_fil_proofs.Porep.Cache.{
  ParentCache, ParentCacheData, invalid_generated, open_data, open_cache, generate_entries,
  generate, read_ascending,
}
use rust_fil_proofs.Porep.CacheReads.{IsCache, read_ascending-file}
use rust_fil_proofs.Porep.CacheManifest.{Accepts, Rejects, check_generated-cases}
use rust_fil_proofs.Porep.Opened.{parents_of}

open_cache-IsCache :
    (len entries : ℕ) (file : List (List ℕ))
    → 1 ≤ len
    → len ≤ entries
    → entries < 2 ^ 32
    → length file ≡ entries
    → (c : ParentCache) × (open_cache len entries file ≡ ok c)
      × IsCache c
      × (c.cache.file ≡ file)
      × (c.cache.offset ≡ 0)
      × (c.num_cache_entries ≡ entries)
unfolding open_cache open_data
open_cache-IsCache len entries file a b c h =
    let enough : ltb (length file) (u32 (0 + len)) ≡ false =
      ge→ltb (length file) (u32 (0 + len)) (omega (arith, h)) in
    (
      record { num_cache_entries = entries; cache = record { file = file; offset = 0; len = len } },
      rw enough refl,
      record { some_entries = a; in_file = omega arith; whole_file = h; word = c },
      refl,
      refl,
      refl,
    )

module _ (ext : Externals) (is_log2 : IsLog2 ext.log2_ceil) (nodes : ℕ) (version : ApiVersion)
    (g : StackedGraph) (is : IsGraph nodes version g) where
  -- An entry is what `parents` computes.
  abbrev Entry : ℕ → List ℕ → Type 0
  Entry node row =
      stacked_parents ext.blake2b ext.rng ext.log2_ceil g node
        (replicate (g.base_graph.base_degree + g.expansion_degree) 0)
      ≡ ok row

  generate_entries-Entry :
      (count node : ℕ)
      → node + count ≤ nodes
      → (file : List (List ℕ)) × (generate_entries ext.rng ext.log2_ceil ext.blake2b g node count
          ≡ ok file)
        × (length file ≡ count)
        × ((i : ℕ)
            → i < count
            → (row : List ℕ) × (get_elem? file i ≡ some row) × Entry (node + i) row)
  unfolding generate_entries
  generate_entries-Entry zero node h = ([], refl, refl, λ i k. absurd (omega arith))
  generate_entries-Entry (suc count) node h =
      let ps = parents_of ext is_log2 nodes version g is node (omega arith) in
      let base =
        ap (λ d. parents ext.rng ext.log2_ceil g.base_graph node (replicate d 0)) (sym is.base_size)
        ∙ ps.base_eq in
      let expanded =
        ap (λ d. generate_expanded_parents ext.blake2b g node 0 (replicate d 0)) (sym is.expansion)
        ∙ ps.expanded_eq in
      let (file, e, size, rows) = generate_entries-Entry count (node + 1) (omega arith) in
      (
        (ps.base ++ ps.expanded) ∷ file,
        rw (base, expanded, e) refl,
        ap suc size,
        row (ps.base ++ ps.expanded) file ps.both_eq rows,
      )
    where
      row :
          (first : List ℕ) (file : List (List ℕ))
          → Entry node first
          → ((i : ℕ)
              → i < count
              → (row : List ℕ) × (get_elem? file i ≡ some row) × Entry (node + 1 + i) row)
          → (i : ℕ) → i < suc count
          → (row : List ℕ) × (get_elem? (first ∷ file) i ≡ some row) × Entry (node + i) row
      row first file e rows zero k =
          let same : node + 0 ≡ node = omega arith in
          (first, refl, subst (λ n. Entry n first) (sym same) e)
      row first file e rows (suc i) k =
          let (r, found, computed) = rows i (omega arith) in
          let same : node + 1 + i ≡ node + suc i = omega arith in
          (r, found, subst (λ n. Entry n r) same computed)

  from_start :
      (file : List (List ℕ)) (node : ℕ)
      → (row : List ℕ) × (get_elem? file node ≡ some row) × Entry (0 + node) row
      → (row : List ℕ) × (get_elem? file node ≡ some row) × Entry node row
  from_start file node (row, found, computed) =
      let same : 0 + node ≡ node = omega arith in
      (row, found, subst (λ n. Entry n row) same computed)

  -- For a graph that `new_graph` makes, a window of one entry or more and at most all, and as many
  -- entries as the graph has nodes or fewer: there are rows, one for each entry, which are the parents
  -- that `parents` computes, and either the manifest knows nothing of the cache or the digest of these
  -- rows, and generate returns a cache whose nodes, read one after the other, give the rows without
  -- failing; or the manifest has another digest, and generate returns the error that the cache is
  -- invalid.
  pub generate-stacked_parents :
      (manifest : List (List ℕ × ParentCacheData)) (id : List ℕ) (len entries : ℕ)
      → 1 ≤ len
      → len ≤ entries
      → entries ≤ nodes
      → (rows : List (List ℕ)) × (length rows ≡ entries)
        × ((node : ℕ)
            → node < entries
            → (row : List ℕ) × (get_elem? rows node ≡ some row)
              × (stacked_parents ext.blake2b ext.rng ext.log2_ceil g node
                    (replicate (g.base_graph.base_degree + g.expansion_degree) 0)
                  ≡ ok row))
        × ((Accepts ext.sha256 manifest id rows
              × (c : ParentCache) × (last : ParentCache) × (generate ext.rng ext.log2_ceil
                    ext.blake2b ext.sha256 manifest g len entries id
                  ≡ ok c)
              × (read_ascending c 0 entries ≡ ok (last, rows)))
            ⊎ (Rejects ext.sha256 manifest id rows
                × (generate ext.rng ext.log2_ceil ext.blake2b ext.sha256 manifest g len entries id
                    ≡ err invalid_generated)))
  unfolding generate
  generate-stacked_parents manifest id len entries a b h =
      let few = is.few in
      let (file, e, size, rows) = generate_entries-Entry entries 0 (omega arith) in
      let (c, opened, is_cache, files, start, same) =
        open_cache-IsCache len entries file a b (omega arith) size in
      let (last, read, is_last) =
        read_ascending-file entries c 0 is_cache (omega (arith, same)) (omega (arith, start))
          (omega arith) in
      (
        file,
        size,
        λ node k. from_start file node (rows node k),
        elim (check_generated-cases ext.sha256 manifest id file) [
          | inl (accepts, passed) ↦
              inl (
                accepts,
                c,
                last,
                rw (e, passed, opened) refl,
                read ∙ ap (λ xs. ok (last, xs)) files,
              )
          | inr (rejects, refused) ↦ inr (rejects, rw (e, refused) refl)
        ],
      )
