-- ===== src/Graph/Parents.antt =====
-- The parents of a node in `BucketGraph` (storage-proofs-core/src/drgraph.rs): all come before the
-- node, and its predecessor is one of them.
use native.Mathlib.Decide.{dec_lt}
use native.Mathlib.Nat.{mod-lt, div-le_of_le-mul, mul-le-mul_left}
use rust_fil_proofs.Base.{
  ℕ, zero, suc, ◌+◌, ◌-◌, ◌*◌, ◌/◌, ◌%◌, ◌^◌, ◌≤◌, ◌<◌, ◌≡◌, ◌∙◌, refl, sym, ap, arith, min, max,
  false, List, [], ◌∷◌, ◌++◌, some, ok, ◌==◌, if◌then◌else◌, ◌<<◌, u32, u64, sub64, length, take,
  drop, get_elem?, All, le_bytes, ge→ltb, lt→ltb,
}
use rust_fil_proofs.Base.Powers.{two_pow-le, lt_of_two_pow-lt}
use rust_fil_proofs.Api.{ApiVersion, v1_0_0, v1_1_0, v1_2_0}
use rust_fil_proofs.Graph.Bucket.{
  BucketGraph, set_at, zero_first, rem_u64, draw_parent, draw_parents, place_parents, parents,
}

-- A rounded binary logarithm, rounded up, is at most one off: it lies between the integer parts of
-- the logarithms of `x` and `2 * x`.
abbrev pub IsLog2 : (ℕ → ℕ) → Type 0
IsLog2 f = (x : ℕ) → 2 ≤ x → x ≤ 2 ^ 54 → (2 ^ f x ≤ 2 * x) × (x < 2 ^ (f x + 1))

log2_bounds : (f : ℕ → ℕ) → IsLog2 f → (x : ℕ) → 2 ≤ x → x ≤ 2 ^ 54 → (1 ≤ f x) × (f x ≤ 55)
log2_bounds f is x low high =
    let (a, b) = is x low high in
    let up : f x < 56 = lt_of_two_pow-lt (f x) 56 (omega arith) in
    let down : 1 < f x + 1 = lt_of_two_pow-lt 1 (f x + 1) (omega arith) in
    (omega arith, omega arith)

rem_u64-eq : (a b : ℕ) → 1 ≤ b → rem_u64 a b ≡ ok (a % b)
unfolding rem_u64
rem_u64-eq a b h = let e : (b == 0) ≡ false = ground arith in rw e refl

-- The distance that is drawn, for a metagraph node and the size of its bucket.
distance_of : ℕ → ℕ → ℕ → ℕ
distance_of meta size draw =
    max 2 (min meta size / 2) + draw % (min meta size - max 2 (min meta size / 2) + 1)

distance_bounds :
    (meta size draw : ℕ)
    → 2 ≤ meta
    → 2 ≤ size
    → (2 ≤ distance_of meta size draw) × (distance_of meta size draw ≤ meta)
unfolding distance_of
distance_bounds meta size draw h k =
    let p : 0 < min meta size - max 2 (min meta size / 2) + 1 = omega arith in
    let m = mod-lt draw p in (omega arith, omega (arith, m))

draw_parent-eq :
    (node m_prime nb r1 r2 : ℕ)
    → 2 ≤ node * m_prime
    → node * m_prime ≤ 2 ^ 54
    → 1 ≤ nb
    → nb ≤ 55
    → draw_parent node m_prime nb r1 r2
      ≡ ok (
          let mapped =
            u32
              ((node * m_prime - distance_of (node * m_prime) (2 ^ (r1 % nb + 1)) r2) / m_prime) in
          if mapped == node then u32 (node + (2 ^ 32 - 1)) else mapped)
unfolding draw_parent distance_of
draw_parent-eq node m_prime nb r1 r2 low high some_buckets few =
    let meta = node * m_prime in
    let b : r1 % nb < nb = mod-lt r1 some_buckets in
    let bi = r1 % nb + 1 in
    let size = 2 ^ bi in
    let big : 2 ≤ size = omega (arith, two_pow-le 1 bi (omega arith)) in
    let fits : size ≤ 2 ^ 55 = two_pow-le bi 55 (omega arith) in
    let l = min meta size in
    let s = max 2 (min meta size / 2) in
    let e1 : u64 meta ≡ meta = omega arith in
    let e2 : u64 (r1 % nb + 1) ≡ bi = omega arith in
    let e3 : bi % 64 ≡ bi = omega arith in
    let e4 : u64 (1 << bi) ≡ size = omega (arith, fits) in
    let e5 : u64 (sub64 l s + 1) ≡ l - s + 1 = omega (arith, big) in
    let p : 1 ≤ l - s + 1 = omega arith in
    let m = mod-lt r2 p in
    let e6 : u64 (s + r2 % (l - s + 1)) ≡ s + r2 % (l - s + 1) = omega (arith, m, big) in
    let e7 : sub64 meta (s + r2 % (l - s + 1)) ≡ meta - (s + r2 % (l - s + 1)) =
      omega (arith, m, big) in
    rw (e1, rem_u64-eq r1 nb some_buckets, e2, e3, e4, e5, rem_u64-eq r2 (l - s + 1) p, e6, e7) refl

module _ (log2_ceil : ℕ → ℕ) (is_log2 : IsLog2 log2_ceil) (node m_prime : ℕ) (second : 2 ≤ node)
    (u32_node : node < 2 ^ 32) (some_parents : 1 ≤ m_prime) (exact : node * m_prime ≤ 2 ^ 54) where
  meta_big : 2 ≤ node * m_prime
  meta_big = omega (arith, mul-le-mul_left node some_parents)

  draw_parent_lem :
      (r1 r2 : ℕ)
      → (p : ℕ) × (draw_parent node m_prime (log2_ceil (u64 (node * m_prime))) r1 r2 ≡ ok p)
        × (p < node)
  draw_parent_lem r1 r2 =
      let e : u64 (node * m_prime) ≡ node * m_prime = omega (arith, exact) in
      let (lo, hi) = log2_bounds log2_ceil is_log2 (node * m_prime) meta_big exact in
      let nb = log2_ceil (node * m_prime) in
      let d = distance_of (node * m_prime) (2 ^ (r1 % nb + 1)) r2 in
      let big : 2 ≤ 2 ^ (r1 % nb + 1) = omega (arith, two_pow-le 1 (r1 % nb + 1) (omega arith)) in
      let (two, most) = distance_bounds (node * m_prime) (2 ^ (r1 % nb + 1)) r2 meta_big big in
      let q : (node * m_prime - d) / m_prime ≤ node = div-le_of_le-mul m_prime (omega arith) in
      let mapped = u32 ((node * m_prime - d) / m_prime) in
      (
        (if mapped == node then u32 (node + (2 ^ 32 - 1)) else mapped),
        rw e (draw_parent-eq node m_prime nb r1 r2 meta_big exact lo hi),
        ground (arith, q),
      )

  draw_parents-All :
      (rng : List ℕ → ℕ → ℕ) (seed : List ℕ) (draw count : ℕ) (buffer : List ℕ)
      → count ≤ length buffer
      → (out : List ℕ) × (draw_parents rng log2_ceil seed node m_prime draw count buffer ≡ ok out)
        × (length out ≡ length buffer)
        × All (λ p. p < node) (take count out)
        × (drop count out ≡ drop count buffer)
  unfolding draw_parents
  draw_parents-All rng seed draw zero buffer h = (buffer, refl, refl, tt, refl)
  draw_parents-All rng seed draw (suc count) [] h = absurd (omega arith)
  draw_parents-All rng seed draw (suc count) (b ∷ buffer) h =
      let (p, e, below) = draw_parent_lem (rng seed draw) (rng seed (draw + 1)) in
      let (out, es, size, belows, rest) =
        draw_parents-All rng seed (draw + 2) count buffer (omega arith) in
      (p ∷ out, rw (e, es) refl, ap suc size, (below, belows), rest)

set_at_end :
    (P : ℕ → Type 0) (m x : ℕ) (xs : List ℕ)
    → m < length xs
    → P x
    → All P (take m xs)
    → (out : List ℕ) × (set_at m x xs ≡ ok out)
      × (length out ≡ length xs)
      × All P (take (suc m) out)
      × (drop (suc m) out ≡ drop (suc m) xs)
      × (get_elem? out m ≡ some x)
unfolding set_at
set_at_end P m x [] h px all = absurd (omega arith)
set_at_end P zero x (y ∷ ys) h px all = (x ∷ ys, refl, refl, (px, tt), refl, refl)
set_at_end P (suc m) x (y ∷ ys) h px (py, all) =
    let (out, e, size, alls, rest, found) = set_at_end P m x ys (omega arith) px all in
    (y ∷ out, rw e refl, ap suc size, (py, alls), rest, found)

drop-suc : (m : ℕ) (xs : List ℕ) → drop (suc m) xs ≡ drop 1 (drop m xs)
drop-suc zero xs = refl
drop-suc (suc m) [] = refl
drop-suc (suc m) (x ∷ xs) = drop-suc m xs

zero_first-All :
    (P : ℕ → Type 0) (m : ℕ) (xs : List ℕ)
    → P 0
    → m ≤ length xs
    → (length (zero_first m xs) ≡ length xs)
      × All P (take m (zero_first m xs))
      × (drop m (zero_first m xs) ≡ drop m xs)
      × ((i : ℕ) → i < m → get_elem? (zero_first m xs) i ≡ some 0)
unfolding zero_first
zero_first-All P zero xs p h = (refl, tt, refl, λ i q. absurd (omega arith))
zero_first-All P (suc m) [] p h = absurd (omega arith)
zero_first-All P (suc m) (x ∷ xs) p h =
    let (size, all, rest, found) = zero_first-All P m xs p (omega arith) in
    (ap suc size, (p, all), rest, at found)
  where
    at :
        ((i : ℕ) → i < m → get_elem? (zero_first m xs) i ≡ some 0)
        → (i : ℕ) → i < suc m
        → get_elem? (0 ∷ zero_first m xs) i ≡ some 0
    at found zero q = refl
    at found (suc i) q = found i (omega arith)

-- Where the predecessor stands among the parents.
abbrev pub predecessor_index : ApiVersion → ℕ → ℕ
predecessor_index v1_0_0 m_prime = m_prime
predecessor_index v1_1_0 m_prime = 0
predecessor_index v1_2_0 m_prime = 0

-- What `parents` leaves in the buffer.
pub record IsParents (version : ApiVersion) (base_degree node : ℕ) (buffer out : List ℕ)
    : Type 0 where
  pub same_length : length out ≡ length buffer
  pub earlier : All (λ p. p < max node 1) (take base_degree out)
  pub rest_kept : drop base_degree out ≡ drop base_degree buffer
  pub predecessor : get_elem? out (predecessor_index version (base_degree - 1)) ≡ some (node - 1)

below_late :
    (node : ℕ) (xs : List ℕ) → 2 ≤ node → All (λ p. p < node) xs → All (λ p. p < max node 1) xs
below_late node [] h all = tt
below_late node (x ∷ xs) h (p, all) = (omega arith, below_late node xs h all)

-- The predecessor put behind the drawn parents.
predecessor_last :
    (node m_prime : ℕ) (buffer drawn : List ℕ)
    → 2 ≤ node
    → node < 2 ^ 32
    → suc m_prime ≤ length buffer
    → length drawn ≡ length buffer
    → All (λ p. p < node) (take m_prime drawn)
    → drop m_prime drawn ≡ drop m_prime buffer
    → (out : List ℕ) × (set_at m_prime (u32 (node + (2 ^ 32 - 1))) drawn ≡ ok out)
      × IsParents v1_0_0 (suc m_prime) node buffer out
predecessor_last node m_prime buffer drawn a b h size below rest =
    let pred : u32 (node + (2 ^ 32 - 1)) ≡ node - 1 = omega arith in
    let index : suc m_prime - 1 ≡ m_prime = omega arith in
    let (out, e', size', below', rest', found) =
      set_at_end (λ p. p < node) m_prime (node - 1) drawn (omega (arith, size)) (omega arith)
        below in
    (
      out,
      ap (λ x. set_at m_prime x drawn) pred ∙ e',
      record {
        same_length = size' ∙ size;
        earlier = below_late node _ a below';
        rest_kept =
            rest' ∙ drop-suc m_prime drawn ∙ ap (drop 1) rest ∙ sym (drop-suc m_prime buffer);
        predecessor = ap (λ i. get_elem? out i) index ∙ found;
      },
    )

module _ (rng : List ℕ → ℕ → ℕ) (log2_ceil : ℕ → ℕ) (is_log2 : IsLog2 log2_ceil) where
  place_parents-IsParents :
      (version : ApiVersion) (seed : List ℕ) (node m_prime : ℕ) (buffer : List ℕ)
      → 2 ≤ node
      → node < 2 ^ 32
      → 1 ≤ m_prime
      → node * m_prime ≤ 2 ^ 54
      → suc m_prime ≤ length buffer
      → (out : List ℕ) × (place_parents rng log2_ceil version seed node m_prime buffer ≡ ok out)
        × IsParents version (suc m_prime) node buffer out
  unfolding place_parents set_at
  place_parents-IsParents v1_0_0 seed node m_prime buffer a b c d h =
      let (drawn, e, size, below, rest) =
        draw_parents-All log2_ceil is_log2 node m_prime a b c d rng seed 0 m_prime buffer
          (omega arith) in
      let (out, e', is) = predecessor_last node m_prime buffer drawn a b h size below rest in
      (out, rw e e', is)
  place_parents-IsParents v1_1_0 seed node m_prime [] a b c d h = absurd (omega arith)
  place_parents-IsParents v1_1_0 seed node m_prime (x ∷ buffer) a b c d h =
      let (drawn, e, size, below, rest) =
        draw_parents-All log2_ceil is_log2 node m_prime a b c d rng seed 0 m_prime buffer
          (omega arith) in
      let pred : u32 (node + (2 ^ 32 - 1)) ≡ node - 1 = omega arith in
      (
        (node - 1) ∷ drawn,
        rw (e, pred) refl,
        record {
          same_length = ap suc size;
          earlier = below_late node ((node - 1) ∷ take m_prime drawn) a (omega arith, below);
          rest_kept = rest;
          predecessor = refl;
        },
      )
  place_parents-IsParents v1_2_0 seed node m_prime [] a b c d h = absurd (omega arith)
  place_parents-IsParents v1_2_0 seed node m_prime (x ∷ buffer) a b c d h =
      let (drawn, e, size, below, rest) =
        draw_parents-All log2_ceil is_log2 node m_prime a b c d rng seed 0 m_prime buffer
          (omega arith) in
      let pred : u32 (node + (2 ^ 32 - 1)) ≡ node - 1 = omega arith in
      (
        (node - 1) ∷ drawn,
        rw (e, pred) refl,
        record {
          same_length = ap suc size;
          earlier = below_late node ((node - 1) ∷ take m_prime drawn) a (omega arith, below);
          rest_kept = rest;
          predecessor = refl;
        },
      )

  parents-large :
      (g : BucketGraph) (node : ℕ) (buffer : List ℕ)
      → 2 ≤ g.base_degree
      → g.base_degree < 2 ^ 64
      → node < 2 ^ 32
      → 2 ≤ node
      → parents rng log2_ceil g node buffer
        ≡ place_parents rng log2_ceil g.api_version
            (g.seed ++ le_bytes 4 node)
            node
            (g.base_degree - 1)
            buffer
  unfolding parents
  parents-large g node buffer degree word fits h =
      let w : u32 node ≡ node = omega arith in
      let m : sub64 g.base_degree 1 ≡ g.base_degree - 1 = omega arith in
      rw (ge→ltb node 2 h, w, m) refl

  -- For the second node on, a base degree of 2 or more, and a metagraph of at most `2 ^ 54` nodes;
  -- and for the first two nodes: `parents` fills as much of the buffer as the graph's degree. All
  -- parents of a node come before it (the first node's are itself), the predecessor is one of
  -- them, at the last place for the first version and at the first place for the later ones, and
  -- the rest of the buffer is kept.
  pub parents-IsParents :
      (g : BucketGraph) (node : ℕ) (buffer : List ℕ)
      → 2 ≤ g.base_degree
      → g.base_degree < 2 ^ 64
      → g.base_degree ≤ length buffer
      → node < 2 ^ 32
      → node * (g.base_degree - 1) ≤ 2 ^ 54
      → (out : List ℕ) × (parents rng log2_ceil g node buffer ≡ ok out)
        × IsParents g.api_version g.base_degree node buffer out
  unfolding parents
  parents-IsParents g node buffer degree word h fits exact = elim (dec_lt node 2) [
    | yes small ↦
        let (size, all, rest, found) =
          zero_first-All (λ p. p < max node 1) g.base_degree buffer (omega arith) h in
        let zero_pred : node - 1 ≡ 0 = omega arith in
        (
          zero_first g.base_degree buffer,
          rw (lt→ltb node 2 small) refl,
          record {
            same_length = size;
            earlier = all;
            rest_kept = rest;
            predecessor = rw zero_pred (
                found (predecessor_index g.api_version (g.base_degree - 1))
                  (index_lt g.api_version));
          },
        )
    | no large ↦
        let d : suc (g.base_degree - 1) ≡ g.base_degree = omega arith in
        let (out, e, is) =
          place_parents-IsParents g.api_version (g.seed ++ le_bytes 4 node) node (g.base_degree - 1)
            buffer (omega arith) fits (omega arith) exact (omega (arith, d)) in
        (
          out,
          parents-large g node buffer degree word fits (omega arith) ∙ e,
          respell (suc (g.base_degree - 1)) g.base_degree out d is,
        )
  ]
    where
      index_lt : (v : ApiVersion) → predecessor_index v (g.base_degree - 1) < g.base_degree
      index_lt v1_0_0 = omega arith
      index_lt v1_1_0 = omega arith
      index_lt v1_2_0 = omega arith

      respell :
          (c d : ℕ) (out : List ℕ)
          → c ≡ d
          → IsParents g.api_version c node buffer out
          → IsParents g.api_version d node buffer out
      respell c d out e is = rw e at is
