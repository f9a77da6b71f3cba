-- ===== src/Porep/CacheOutcomes.antt =====
-- Every outcome of a read of the cache of parents (storage-proofs-porep/src/stacked/vanilla/cache.rs).
use native.Mathlib.Decide.{dec_lt}
use rust_fil_proofs.Base.{
  ℕ, zero, suc, ◌+◌, ◌-◌, ◌≤◌, ◌<◌, ◌≡◌, ◌⊎◌, inl, inr, refl, arith, min, true, false, List, [],
  ◌∷◌, none, ok, err, panic, leb, u32, take, drop, get_elem?, le→leb,
}
use rust_fil_proofs.Porep.Cache.{
  not_ascending, CacheData, ParentCache, shift, contains, read_data, read, sub32,
}
use rust_fil_proofs.Porep.CacheReads.{IsCache, Read, read-Read, contains-behind, shift-eq}

-- A node before the window is refused.
read-before :
    (c : ParentCache) (node : ℕ)
    → IsCache c
    → node < c.cache.offset
    → read c node ≡ err not_ascending
unfolding read contains
read-before c node is h =
    let in_file = is.in_file in
    let word = is.word in
    let end : u32 (c.cache.offset + c.cache.len) ≡ c.cache.offset + c.cache.len = omega arith in
    let outside : leb c.cache.offset node ≡ false = ground arith in
    let low : leb (c.cache.offset + c.cache.len) node ≡ false = ground arith in
    rw (outside, end, low) refl

get_elem?-take_behind :
    (n : ℕ) (xs : List (List ℕ)) (k : ℕ) → n ≤ k → get_elem? (take n xs) k ≡ none
get_elem?-take_behind zero xs k h = refl
get_elem?-take_behind (suc n) [] k h = refl
get_elem?-take_behind (suc n) (x ∷ xs) zero h = absurd (omega arith)
get_elem?-take_behind (suc n) (x ∷ xs) (suc k) h = get_elem?-take_behind n xs k (omega arith)

read_data-behind : (c : CacheData) (node : ℕ) → c.offset + c.len ≤ node → read_data c node ≡ panic
unfolding read_data
read_data-behind c node h =
    rw
      (
        le→leb c.offset node (omega arith),
        get_elem?-take_behind c.len (drop c.offset c.file) (node - c.offset) (omega arith),
      )
      refl

read_step :
    (c : ParentCache) (node end new_offset : ℕ) (cache : CacheData)
    → contains c.cache node ≡ false
    → u32 (c.cache.offset + c.cache.len) ≡ end
    → leb end node ≡ true
    → min (sub32 c.num_cache_entries c.cache.len) end ≡ new_offset
    → shift c.cache new_offset ≡ ok cache
    → read_data cache node ≡ panic
    → read c node ≡ panic
unfolding read
read_step c node end new_offset cache outside e ascending offset_eq moved behind =
    rw (outside, e, ascending, offset_eq, moved, behind) refl

-- The end of the window after this one, which the last entry bounds.
abbrev pub reach : ParentCache → ℕ
reach c = min c.num_cache_entries (c.cache.offset + c.cache.len + c.cache.len)

read-behind : (c : ParentCache) (node : ℕ) → IsCache c → reach c ≤ node → read c node ≡ panic
read-behind c node is h =
    let in_file = is.in_file in
    let word = is.word in
    let some_entries = is.some_entries in
    let new_offset = min (c.num_cache_entries - c.cache.len) (c.cache.offset + c.cache.len) in
    let next : CacheData = record { file = c.cache.file; offset = new_offset; len = c.cache.len } in
    read_step c node (c.cache.offset + c.cache.len) new_offset next
      (contains-behind c.cache node (omega arith) (omega arith)) (omega arith)
      (le→leb (c.cache.offset + c.cache.len) node (omega arith)) (omega arith)
      (shift-eq c.cache new_offset) (read_data-behind next node (omega arith))

-- Each read of a cache whose window is not empty and lies in its file, of fewer than 2 ^ 32 entries,
-- one for each node: a node before the window gives the error that the order is not ascending; a node
-- in the window or in the one after it, which the last entry bounds, gives its entry of the file and
-- leaves such a cache of the same file with the node in its window; a node behind that panics.
pub read_outcome :
    (c : ParentCache) (node : ℕ)
    → IsCache c
    → ((node < c.cache.offset) × (read c node ≡ err not_ascending))
      ⊎ (((c.cache.offset ≤ node)
            × (node < reach c)
            × (after : ParentCache) × (parents : List ℕ) × (read c node ≡ ok (after, parents))
            × Read c after node parents)
          ⊎ ((reach c ≤ node) × (read c node ≡ panic)))
read_outcome c node is = elim (dec_lt node c.cache.offset) [
  | yes before ↦ inl (before, read-before c node is before)
  | no inside ↦ elim (dec_lt node (reach c)) [
    | yes reached ↦
        let (after, parents, e, r) =
          read-Read c node is (omega arith) (omega arith) (omega arith) in
        inr (inl (omega arith, reached, after, parents, e, r))
    | no behind ↦
        let far : reach c ≤ node = omega arith in inr (inr (far, read-behind c node is far))
  ]
]
