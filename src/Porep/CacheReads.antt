-- ===== src/Porep/CacheReads.antt =====
-- The cache of parents (storage-proofs-porep/src/stacked/vanilla/cache.rs): its window stays in the file,
-- and a loop over the nodes reads the parents that the graph has.
use native.Mathlib.Decide.{dec_lt, ℕ_discrete}
use rust_fil_proofs.Base.{
  ℕ, zero, suc, ◌+◌, ◌-◌, ◌≤◌, ◌<◌, ◌^◌, ◌≡◌, ◌∙◌, refl, sym, ap, arith, min, true, false, List, [],
  ◌∷◌, some, ok, leb, ◌==◌, u32, length, take, drop, get_elem?, le→leb, lt→ltb, ge→ltb,
}
use rust_fil_proofs.Porep.Cache.{
  CacheData, ParentCache, shift, contains, read_data, reset_data, read, reset, read_ascending,
  sub32,
}

-- The window is not empty and lies in the file, which has an entry for each node.
pub record IsCache (c : ParentCache) : Type 0 where
  pub some_entries : 1 ≤ c.cache.len
  pub in_file : c.cache.offset + c.cache.len ≤ c.num_cache_entries
  pub whole_file : length c.cache.file ≡ c.num_cache_entries
  pub word : c.num_cache_entries < 2 ^ 32

get_elem?-drop :
    (i : ℕ) (xs : List (List ℕ)) (k : ℕ) → get_elem? (drop i xs) k ≡ get_elem? xs (i + k)
get_elem?-drop zero xs k = let e : 0 + k ≡ k = omega arith in ap (λ j. get_elem? xs j) (sym e)
get_elem?-drop (suc i) [] k = refl
get_elem?-drop (suc i) (x ∷ xs) k =
    let e : suc i + k ≡ suc (i + k) = omega arith in
    get_elem?-drop i xs k ∙ ap (λ j. get_elem? (x ∷ xs) j) (sym e)

get_elem?-take :
    (n : ℕ) (xs : List (List ℕ)) (k : ℕ) → k < n → get_elem? (take n xs) k ≡ get_elem? xs k
get_elem?-take zero xs k h = absurd (omega arith)
get_elem?-take (suc n) [] k h = refl
get_elem?-take (suc n) (x ∷ xs) zero h = refl
get_elem?-take (suc n) (x ∷ xs) (suc k) h = get_elem?-take n xs k (omega arith)

pub get_elem?-some :
    (xs : List (List ℕ)) (k : ℕ) → k < length xs → (x : List ℕ) × (get_elem? xs k ≡ some x)
get_elem?-some [] k h = absurd (omega arith)
get_elem?-some (x ∷ xs) zero h = (x, refl)
get_elem?-some (x ∷ xs) (suc k) h = get_elem?-some xs k (omega arith)

-- A read in the window is a read of the file.
read_data-window :
    (c : CacheData) (node : ℕ)
    → c.offset ≤ node
    → node < c.offset + c.len
    → c.offset + c.len ≤ length c.file
    → (x : List ℕ) × (read_data c node ≡ ok x) × (get_elem? c.file node ≡ some x)
unfolding read_data
read_data-window c node a b h =
    let (x, found) = get_elem?-some c.file node (omega arith) in
    let index : c.offset + (node - c.offset) ≡ node = omega arith in
    let window =
      get_elem?-take c.len (drop c.offset c.file) (node - c.offset) (omega arith)
      ∙ get_elem?-drop c.offset c.file (node - c.offset)
      ∙ ap (λ j. get_elem? c.file j) index
      ∙ found in
    (x, rw (le→leb c.offset node a, window) refl, found)

-- What a read leaves: the same file, and a window that has the node in it.
pub record Read (c after : ParentCache) (node : ℕ) (parents : List ℕ) : Type 0 where
  pub is_cache : IsCache after
  pub same_file : after.cache.file ≡ c.cache.file
  pub same_len : after.cache.len ≡ c.cache.len
  pub not_before : after.cache.offset ≤ node
  pub not_behind : node < after.cache.offset + after.cache.len
  pub of_file : get_elem? c.cache.file node ≡ some parents

contains-inside :
    (c : CacheData) (node : ℕ)
    → c.offset + c.len < 2 ^ 32
    → c.offset ≤ node
    → node < c.offset + c.len
    → contains c node ≡ true
unfolding contains
contains-inside c node word a b =
    let end : u32 (c.offset + c.len) ≡ c.offset + c.len = omega arith in
    rw (end, le→leb c.offset node a, lt→ltb node (c.offset + c.len) b) refl

pub contains-behind :
    (c : CacheData) (node : ℕ)
    → c.offset + c.len < 2 ^ 32
    → c.offset + c.len ≤ node
    → contains c node ≡ false
unfolding contains
contains-behind c node word b =
    let end : u32 (c.offset + c.len) ≡ c.offset + c.len = omega arith in
    rw (end, le→leb c.offset node (omega arith), ge→ltb node (c.offset + c.len) b) refl

read-inside :
    (c : ParentCache) (node : ℕ) (parents : List ℕ)
    → contains c.cache node ≡ true
    → read_data c.cache node ≡ ok parents
    → read c node ≡ ok (c, parents)
unfolding read
read-inside c node parents inside e = rw (inside, e) refl

read-shifted :
    (c : ParentCache) (node end new_offset : ℕ) (cache : CacheData) (parents : List ℕ)
    → contains c.cache node ≡ false
    → u32 (c.cache.offset + c.cache.len) ≡ end
    → leb end node ≡ true
    → min (sub32 c.num_cache_entries c.cache.len) end ≡ new_offset
    → shift c.cache new_offset ≡ ok cache
    → read_data cache node ≡ ok parents
    → read c node ≡ ok (record { num_cache_entries = c.num_cache_entries; cache = cache }, parents)
unfolding read
read-shifted c node end new_offset cache parents outside e ascending offset_eq moved found =
    rw (outside, e, ascending, offset_eq, moved, found) refl

pub shift-eq :
    (c : CacheData) (new_offset : ℕ)
    → shift c new_offset ≡ ok (record { file = c.file; offset = new_offset; len = c.len })
unfolding shift
shift-eq c new_offset = elim (ℕ_discrete c.offset new_offset) [
  | yes same ↦
      let e : (c.offset == new_offset) ≡ true = ground (arith, same) in
      rw e (ap (λ o. ok (record { file = c.file; offset = o; len = c.len })) same)
  | no other ↦ let e : (c.offset == new_offset) ≡ false = ground (arith, other) in rw e refl
]

-- A node in the window, or in the one after it.
pub read-Read :
    (c : ParentCache) (node : ℕ)
    → IsCache c
    → node < c.num_cache_entries
    → c.cache.offset ≤ node
    → node < c.cache.offset + c.cache.len + c.cache.len
    → (after : ParentCache) × (parents : List ℕ) × (read c node ≡ ok (after, parents))
      × Read c after node parents
read-Read c node is h a b =
    let in_file = is.in_file in
    let whole = is.whole_file in
    let word = is.word in
    let some_entries = is.some_entries in
    elim (dec_lt node (c.cache.offset + c.cache.len)) [
      | yes inside ↦
          let (x, e, found) = read_data-window c.cache node a inside (omega (arith, whole)) in
          (
            c,
            x,
            read-inside c node x (contains-inside c.cache node (omega arith) a inside) e,
            record {
              is_cache = is;
              same_file = refl;
              same_len = refl;
              not_before = a;
              not_behind = inside;
              of_file = found;
            },
          )
      | no outside ↦
          let new_offset = min (c.num_cache_entries - c.cache.len) (c.cache.offset + c.cache.len) in
          let next : CacheData = record {
            file = c.cache.file;
            offset = new_offset;
            len = c.cache.len;
          } in
          let before : new_offset ≤ node = omega arith in
          let behind : node < new_offset + c.cache.len = omega arith in
          let (x, e, found) = read_data-window next node before behind (omega (arith, whole)) in
          (
            record { num_cache_entries = c.num_cache_entries; cache = next },
            x,
            read-shifted c node (c.cache.offset + c.cache.len) new_offset next x
                (contains-behind c.cache node (omega arith) (omega arith)) (omega arith)
                (le→leb (c.cache.offset + c.cache.len) node (omega arith)) (omega arith)
                (shift-eq c.cache new_offset) e,
            record {
              is_cache = record {
                some_entries = is.some_entries;
                in_file = omega arith;
                whole_file = whole;
                word = word;
              };
              same_file = refl;
              same_len = refl;
              not_before = before;
              not_behind = behind;
              of_file = found;
            },
          )
    ]

read_ascending_step :
    (c next last : ParentCache) (node count : ℕ) (parents : List ℕ) (rest : List (List ℕ))
    → read c node ≡ ok (next, parents)
    → read_ascending next (node + 1) count ≡ ok (last, rest)
    → read_ascending c node (suc count) ≡ ok (last, parents ∷ rest)
unfolding read_ascending
read_ascending_step c next last node count parents rest e es = rw (e, es) refl

pub drop-get_elem? :
    (xs : List (List ℕ)) (k : ℕ) (x : List ℕ)
    → get_elem? xs k ≡ some x
    → drop k xs ≡ x ∷ drop (k + 1) xs
drop-get_elem? [] k x h = cc
drop-get_elem? (y ∷ xs) zero x h = cc
drop-get_elem? (y ∷ xs) (suc k) x h =
    let e : suc k + 1 ≡ suc (k + 1) = omega arith in rw e (drop-get_elem? xs k x h)

pub drop_end : (xs : List (List ℕ)) (k : ℕ) → k ≡ length xs → drop k xs ≡ []
drop_end [] zero h = refl
drop_end (x ∷ xs) zero h = absurd (omega (arith, h))
drop_end [] (suc k) h = refl
drop_end (x ∷ xs) (suc k) h = drop_end xs k (omega (arith, h))

-- The nodes from one in the window, or the one after it, to the last.
pub read_ascending-file :
    (count : ℕ) (c : ParentCache) (node : ℕ)
    → IsCache c
    → node + count ≡ c.num_cache_entries
    → c.cache.offset ≤ node
    → node ≤ c.cache.offset + c.cache.len
    → (last : ParentCache) × (read_ascending c node count ≡ ok (last, drop node c.cache.file))
      × IsCache last
unfolding read_ascending
read_ascending-file zero c node is h a b =
    let whole = is.whole_file in
    (c, ap (λ xs. ok (c, xs)) (sym (drop_end c.cache.file node (omega (arith, whole, h)))), is)
read_ascending-file (suc count) c node is h a b =
    let some_entries = is.some_entries in
    let (next, parents, e, r) =
      read-Read c node is (omega (arith, h)) a (omega (arith, some_entries)) in
    let files = r.same_file in
    let behind = r.not_behind in
    let before = r.not_before in
    let same_entries : next.num_cache_entries ≡ c.num_cache_entries =
      sym r.is_cache.whole_file ∙ ap length files ∙ is.whole_file in
    let (last, es, is_last) =
      read_ascending-file count next (node + 1) r.is_cache (omega (arith, h, same_entries))
        (omega arith) (omega arith) in
    let rest = ap (λ xs. drop (node + 1) xs) files in
    (
      last,
      read_ascending_step c next last node count parents (drop (node + 1) next.cache.file) e es
          ∙ ap (λ xs. ok (last, xs))
              (ap (λ xs. parents ∷ xs) rest
                ∙ sym (drop-get_elem? c.cache.file node parents r.of_file)),
      is_last,
    )

reset-eq :
    (c : ParentCache)
    → IsCache c
    → reset c
      ≡ ok (record {
        num_cache_entries = c.num_cache_entries;
        cache = record { file = c.cache.file; offset = 0; len = c.cache.len };
      })
unfolding reset reset_data
reset-eq c is = elim (ℕ_discrete c.cache.offset 0) [
  | yes same ↦
      let e : (c.cache.offset == 0) ≡ true = ground (arith, same) in
      rw e (
        ap
          (λ o. ok (record {
            num_cache_entries = c.num_cache_entries;
            cache = record { file = c.cache.file; offset = o; len = c.cache.len };
          }))
          same)
  | no other ↦
      let e : (c.cache.offset == 0) ≡ false = ground (arith, other) in
      rw (e, shift-eq c.cache 0) refl
]

-- A cache whose window is not empty and lies in its file, of fewer than 2 ^ 32 entries, one for each
-- node: after a reset, reading the nodes one after the other never fails and returns the entries of
-- the file in order, and the window stays in the file.
pub reset-read_ascending :
    (c : ParentCache)
    → IsCache c
    → (after : ParentCache) × (last : ParentCache) × (reset c ≡ ok after)
      × (read_ascending after 0 c.num_cache_entries ≡ ok (last, c.cache.file))
      × IsCache after
      × IsCache last
reset-read_ascending c is =
    let in_file = is.in_file in
    let start : CacheData = record { file = c.cache.file; offset = 0; len = c.cache.len } in
    let after : ParentCache = record { num_cache_entries = c.num_cache_entries; cache = start } in
    let is_after : IsCache after = record {
      some_entries = is.some_entries;
      in_file = omega arith;
      whole_file = is.whole_file;
      word = is.word;
    } in
    let (last, e, is_last) =
      read_ascending-file c.num_cache_entries after 0 is_after (omega arith) (omega arith)
        (omega arith) in
    (after, last, reset-eq c is, e, is_after, is_last)
