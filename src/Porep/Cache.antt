-- ===== src/Porep/Cache.antt =====
-- `CacheData` and `ParentCache` of storage-proofs-porep/src/stacked/vanilla/cache.rs. The file is the
-- list of its entries, each the parents of one node, and a window of it is mapped. A mapping that the
-- system refuses, locks, and the paths but for the identifier that the manifest knows them by, are left
-- out, and so is the digest that a cache keeps for display.
use rust_fil_proofs.Base.{
  ℕ, zero, suc, ◌+◌, ◌-◌, ◌^◌, min, Bool, ◌&&◌, List, [], ◌∷◌, ◌++◌, Option, none, some, Result, ok,
  err, panic, stuck, ◌>>=◌, ◌>>◌, ensure, assert, leb, ltb, ◌==◌, if◌then◌else◌, u32, length, take,
  drop, replicate, get_elem?, ◌/◌, ◌%◌, bytes_eq, le_bytes,
}
use rust_fil_proofs.Graph.Bucket.{GraphError, parents, drg_base_degree}
use rust_fil_proofs.Graph.Stacked.{StackedGraph, generate_expanded_parents, exp_degree}

pub data CacheError : Type 0 where
  corrupted_cache not_ascending invalid_generated : CacheError
  no_parents : GraphError → CacheError

pub record CacheData : Type 0 where
  pub file : List (List ℕ)
  pub offset : ℕ
  pub len : ℕ

pub record ParentCache : Type 0 where
  pub num_cache_entries : ℕ
  pub cache : CacheData

-- A window can be mapped behind the end of the file; what is read there faults.
unfoldable pub shift : CacheData → ℕ → Result CacheError CacheData
shift c new_offset =
    if c.offset == new_offset
    then ok c
    else ok (record { file = c.file; offset = new_offset; len = c.len })

unfoldable pub contains : CacheData → ℕ → Bool
contains c node = leb c.offset node && ltb node (u32 (c.offset + c.len))

abbrev pub entry : Option (List ℕ) → Result CacheError (List ℕ)
entry none = panic
entry (some parents) = ok parents

-- The entry in the mapped window. Outside of it the slice panics, behind the end of the file it faults.
unfoldable pub read_data : CacheData → ℕ → Result CacheError (List ℕ)
read_data c node = do
  assert (leb c.offset node)
  entry (get_elem? (take c.len (drop c.offset c.file)) (node - c.offset))

unfoldable pub reset_data : CacheData → Result CacheError CacheData
reset_data c = if c.offset == 0 then ok c else shift c 0

unfoldable pub open_data : ℕ → ℕ → List (List ℕ) → Result CacheError CacheData
open_data offset len file =
    if ltb (length file) (u32 (offset + len))
    then err corrupted_cache
    else ok (record { file = file; offset = offset; len = len })

-- The end of `open` and of `generate`.
unfoldable pub open_cache : ℕ → ℕ → List (List ℕ) → Result CacheError ParentCache
open_cache len cache_entries file = do
  cache ← open_data 0 len file
  ok (record { num_cache_entries = cache_entries; cache = cache })

-- `a - b` on 32 bits.
abbrev pub sub32 : ℕ → ℕ → ℕ
sub32 a b = u32 (a + 2 ^ 32 - b)

unfoldable pub read : ParentCache → ℕ → Result CacheError (ParentCache × List ℕ)
read c node =
    let found = (do parents ← read_data c.cache node; ok (c, parents)) in
    let shifted = (do
      ensure (leb (u32 (c.cache.offset + c.cache.len)) node) not_ascending
      let new_offset =
          min (sub32 c.num_cache_entries c.cache.len) (u32 (c.cache.offset + c.cache.len))
      cache ← shift c.cache new_offset
      parents ← read_data cache node
      ok (record { num_cache_entries = c.num_cache_entries; cache = cache }, parents)) in
    if contains c.cache node then found else shifted

unfoldable pub reset : ParentCache → Result CacheError ParentCache
reset c = do
  cache ← reset_data c.cache
  ok (record { num_cache_entries = c.num_cache_entries; cache = cache })

abbrev pub of_parents {ℓ} : {A : Type ℓ} → Result GraphError A → Result CacheError A
of_parents (ok a) = ok a
of_parents (err e) = err (no_parents e)
of_parents panic = panic
of_parents stuck = stuck

pub record ParentCacheData : Type 0 where
  pub digest : List ℕ
  pub sector_size : ℕ

-- `PARENT_CACHE.get`: the manifest as it was read, and the identifier of a path.
unfoldable pub get_parent_cache_data :
    List (List ℕ × ParentCacheData) → List ℕ → Option ParentCacheData
get_parent_cache_data [] id = none
get_parent_cache_data ((key, pcd) ∷ rest) id =
    let later = get_parent_cache_data rest id in if bytes_eq key id then some pcd else later

-- The bytes of the entries, as `write_u32_into` lays them down.
abbrev pub row_bytes : List ℕ → List ℕ
row_bytes [] = []
row_bytes (parent ∷ parents) = le_bytes 4 parent ++ row_bytes parents

abbrev pub file_bytes : List (List ℕ) → List ℕ
file_bytes [] = []
file_bytes (parents ∷ file) = row_bytes parents ++ file_bytes file

abbrev pub hex_digit : ℕ → ℕ
hex_digit n = if ltb n 10 then 48 + n else 87 + n

-- Two digits for each byte of a hash.
abbrev pub hex : List ℕ → List ℕ
hex [] = []
hex (x ∷ hash) = hex_digit (x / 16) ∷ hex_digit (x % 16) ∷ hex hash

module _ (sha256 : List ℕ → List ℕ) where
  abbrev pub digest_hex : List (List ℕ) → List ℕ
  digest_hex file = hex (sha256 (file_bytes file))

  -- The comparison with the manifest.
  unfoldable pub check_generated :
      Option ParentCacheData → List (List ℕ) → Result CacheError (Unit {0})
  check_generated none file = ok tt
  check_generated (some pcd) file = ensure (bytes_eq (digest_hex file) pcd.digest) invalid_generated

-- `generate`: the entries of the nodes from `node` on.
module _ (rng : List ℕ → ℕ → ℕ) (log2_ceil : ℕ → ℕ) (blake2b : List ℕ → ℕ → ℕ) where
  unfoldable pub generate_entries : StackedGraph → ℕ → ℕ → Result CacheError (List (List ℕ))
  generate_entries graph node zero = ok []
  generate_entries graph node (suc count) = do
    base ← of_parents (parents rng log2_ceil graph.base_graph node (replicate drg_base_degree 0))
    expanded ← of_parents (generate_expanded_parents blake2b graph node 0 (replicate exp_degree 0))
    rest ← generate_entries graph (node + 1) count
    ok ((base ++ expanded) ∷ rest)

  unfoldable pub generate :
      (List ℕ → List ℕ)
      → List (List ℕ × ParentCacheData)
      → StackedGraph
      → ℕ
      → ℕ
      → List ℕ
      → Result CacheError ParentCache
  generate sha256 manifest graph len cache_entries id = do
    file ← generate_entries graph 0 cache_entries
    check_generated sha256 (get_parent_cache_data manifest id) file
    open_cache len cache_entries file

-- The loops over the nodes read one entry after the other: `count` of them, from `node` on.
unfoldable pub read_ascending :
    ParentCache → ℕ → ℕ → Result CacheError (ParentCache × List (List ℕ))
read_ascending c node zero = ok (c, [])
read_ascending c node (suc count) = do
  (next, parents) ← read c node
  (last, rest) ← read_ascending next (node + 1) count
  ok (last, parents ∷ rest)
