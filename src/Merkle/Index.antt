-- ===== src/Merkle/Index.antt =====
-- The index of a proof of one, two or three layers determines the places of its paths
-- (`path_index`, storage-proofs-core/src/merkle/proof.rs).
use native.Mathlib.Nat.{pow-zero, pow-succ', mul-le-mul_right, mod-eq_of_lt}
use rust_fil_proofs.Base.{
  ℕ, zero, suc, ◌+◌, ◌*◌, ◌^◌, ◌<◌, ◌≤◌, ◌≡◌, sym, ap, ◌∙◌, subst, arith, u64, length,
}
use rust_fil_proofs.Merkle.Paths.{
  path_index, SingleProof, SubProof, TopProof, ProofData, Arities, proof_index, sub_proof_index,
  top_proof_index,
}
use rust_fil_proofs.Merkle.Binding.{SamePlace}
use rust_fil_proofs.Merkle.Places.{
  InRows, digits, digit_lt, smaller, no_wrap, path_index-lt, places_eq, base_leaves_eq,
}

-- A proof of a tree with these arities, of fewer than 2^64 leaves.
pub data InTree (t : Arities) : ProofData → Type 0 where
  single :
      {p : SingleProof}
      → InRows t.base_arity p.path
      → t.base_arity ^ length p.path < 2 ^ 64
      → InTree t (ProofData.single p)
  sub :
      {p : SubProof}
      → InRows t.base_arity p.base_proof
      → InRows t.sub_arity p.sub_proof
      → 0 < t.base_arity
      → 0 < t.sub_arity
      → t.sub_arity ^ length p.sub_proof * t.base_arity ^ length p.base_proof < 2 ^ 64
      → InTree t (ProofData.sub p)
  top :
      {p : TopProof}
      → InRows t.base_arity p.base_proof
      → InRows t.sub_arity p.sub_proof
      → InRows t.top_arity p.top_proof
      → 0 < t.base_arity
      → 0 < t.sub_arity
      → 0 < t.top_arity
      → length p.sub_proof ≡ 1
      → t.top_arity ^ length p.top_proof
          * (t.sub_arity ^ length p.sub_proof * t.base_arity ^ length p.base_proof)
        < 2 ^ 64
      → InTree t (ProofData.top p)

-- The lengths of the paths are those of the other proof.
pub data SameShape : ProofData → ProofData → Type 0 where
  single :
      {p q : SingleProof}
      → length p.path ≡ length q.path
      → SameShape (ProofData.single p) (ProofData.single q)
  sub :
      {p q : SubProof}
      → length p.base_proof ≡ length q.base_proof
      → length p.sub_proof ≡ length q.sub_proof
      → SameShape (ProofData.sub p) (ProofData.sub q)
  top :
      {p q : TopProof}
      → length p.base_proof ≡ length q.base_proof
      → length p.sub_proof ≡ length q.sub_proof
      → length p.top_proof ≡ length q.top_proof
      → SameShape (ProofData.top p) (ProofData.top q)

left_fits : (x y : ℕ) → 0 < y → x * y < 2 ^ 64 → x < 2 ^ 64
left_fits x y h fits = omega (arith, smaller y x h)

right_fits : (x y : ℕ) → 0 < x → x * y < 2 ^ 64 → y < 2 ^ 64
right_fits x y h fits = let other : y * x < 2 ^ 64 = omega arith in omega (arith, smaller x y h)

-- The arithmetic of `TopProof::path_index`, where nothing wraps.
top_no_wrap :
    (q i r b s t : ℕ)
    → q < s
    → i < b
    → r < t
    → t * (s * b) < 2 ^ 64
    → u64 (u64 (u64 (q * b) + u64 (r * u64 (b * s))) + i) ≡ r * (s * b) + (q * b + i)
top_no_wrap q i r b s t x y z fits =
    let inner = digit_lt q i b s x y in
    let outer = digit_lt r (q * b + i) (s * b) t z inner in
    let same : b * s ≡ s * b = omega arith in
    let least : s * b < 2 ^ 64 = right_fits t (s * b) (omega arith) fits in
    rw (same, mod-eq_of_lt least) (omega (arith, inner, outer))

pow_pos : (a n : ℕ) → 0 < a → 0 < a ^ n
pow_pos a zero h = omega (arith, pow-zero a)
pow_pos a (suc n) h =
    let row : 1 * a ^ n ≤ a * a ^ n = mul-le-mul_right (a ^ n) (omega arith) in
    omega (arith, row, pow_pos a n h, pow-succ' a n)

pow_one : (a : ℕ) → a ^ 1 ≡ a
pow_one a = pow-succ' a 0 ∙ rw (pow-zero a) (omega arith)

module _ (t : Arities) where
  -- The parts of an index, in the places of their layers, and their bounds.
  record SubIndex (p : SubProof) : Type 0 where
    base_fits : t.base_arity ^ length p.base_proof < 2 ^ 64
    sub_fits : t.sub_arity ^ length p.sub_proof < 2 ^ 64
    low : path_index t.base_arity p.base_proof < t.base_arity ^ length p.base_proof
    index_eq :
        proof_index t (ProofData.sub p)
        ≡ path_index t.sub_arity p.sub_proof * t.base_arity ^ length p.base_proof
          + path_index t.base_arity p.base_proof

  sub_index : (p : SubProof) → InTree t (ProofData.sub p) → SubIndex p
  unfolding sub_proof_index
  sub_index p (InTree.sub rows upper pos pos_sub fits) =
      let b = t.base_arity ^ length p.base_proof in
      let s = t.sub_arity ^ length p.sub_proof in
      let base_fits = right_fits s b (pow_pos t.sub_arity (length p.sub_proof) pos_sub) fits in
      let sub_fits = left_fits s b (pow_pos t.base_arity (length p.base_proof) pos) fits in
      let low = path_index-lt t.base_arity p.base_proof rows base_fits in
      record {
        base_fits = base_fits;
        sub_fits = sub_fits;
        low = low;
        index_eq = rw (base_leaves_eq t.base_arity p.base_proof pos base_fits) (
            no_wrap (path_index t.sub_arity p.sub_proof) (path_index t.base_arity p.base_proof) b s
              (path_index-lt t.sub_arity p.sub_proof upper sub_fits) low fits);
      }

  sub_places :
      (p q : SubProof)
      → length p.base_proof ≡ length q.base_proof
      → length p.sub_proof ≡ length q.sub_proof
      → InTree t (ProofData.sub p)
      → InTree t (ProofData.sub q)
      → proof_index t (ProofData.sub p) ≡ proof_index t (ProofData.sub q)
      → SamePlace (ProofData.sub p) (ProofData.sub q)
  sub_places p q base above (InTree.sub rows upper pos pos_sub fits)
        (InTree.sub rows' upper' pos' pos_sub' fits') h =
      let left = sub_index p (InTree.sub rows upper pos pos_sub fits) in
      let right = sub_index q (InTree.sub rows' upper' pos' pos_sub' fits') in
      let split =
        digits (t.base_arity ^ length p.base_proof) (path_index t.sub_arity p.sub_proof)
          (path_index t.sub_arity q.sub_proof) (path_index t.base_arity p.base_proof)
          (path_index t.base_arity q.base_proof) left.low
          (subst (λ n. path_index t.base_arity q.base_proof < t.base_arity ^ n) (sym base)
            right.low)
          (sym left.index_eq
            ∙ h
            ∙ right.index_eq
            ∙ ap
                (λ n.
                  path_index t.sub_arity q.sub_proof * t.base_arity ^ n
                  + path_index t.base_arity q.base_proof)
                (sym base)) in
      SamePlace.sub
        (places_eq t.base_arity p.base_proof q.base_proof rows rows' left.base_fits base split.1)
        (places_eq t.sub_arity p.sub_proof q.sub_proof upper upper' left.sub_fits above split.0)

  record TopIndex (p : TopProof) : Type 0 where
    base_fits : t.base_arity ^ length p.base_proof < 2 ^ 64
    sub_fits : t.sub_arity ^ length p.sub_proof < 2 ^ 64
    top_fits : t.top_arity ^ length p.top_proof < 2 ^ 64
    low : path_index t.base_arity p.base_proof < t.base_arity ^ length p.base_proof
    middle : path_index t.sub_arity p.sub_proof < t.sub_arity
    index_eq :
        proof_index t (ProofData.top p)
        ≡ path_index t.top_arity p.top_proof * (t.sub_arity * t.base_arity ^ length p.base_proof)
          + (path_index t.sub_arity p.sub_proof * t.base_arity ^ length p.base_proof
              + path_index t.base_arity p.base_proof)

  top_index : (p : TopProof) → InTree t (ProofData.top p) → TopIndex p
  unfolding top_proof_index
  top_index p (InTree.top rows mid upper pos pos_sub pos_top one fits) =
      let b = t.base_arity ^ length p.base_proof in
      let s = t.sub_arity ^ length p.sub_proof in
      let k = t.top_arity ^ length p.top_proof in
      let b_pos = pow_pos t.base_arity (length p.base_proof) pos in
      let s_pos = pow_pos t.sub_arity (length p.sub_proof) pos_sub in
      let k_pos = pow_pos t.top_arity (length p.top_proof) pos_top in
      let size : s ≡ t.sub_arity = ap (λ n. t.sub_arity ^ n) one ∙ pow_one t.sub_arity in
      let below = right_fits k (s * b) k_pos fits in
      let base_fits = right_fits s b s_pos below in
      let sub_fits = left_fits s b b_pos below in
      let top_fits = left_fits k (s * b) (omega (arith, smaller b s b_pos)) fits in
      let low = path_index-lt t.base_arity p.base_proof rows base_fits in
      let middle =
        subst (λ n. path_index t.sub_arity p.sub_proof < n) size
          (path_index-lt t.sub_arity p.sub_proof mid sub_fits) in
      record {
        base_fits = base_fits;
        sub_fits = sub_fits;
        top_fits = top_fits;
        low = low;
        middle = middle;
        index_eq = rw (base_leaves_eq t.base_arity p.base_proof pos base_fits) (
            top_no_wrap (path_index t.sub_arity p.sub_proof) (path_index t.base_arity p.base_proof)
              (path_index t.top_arity p.top_proof) b t.sub_arity k middle low
              (path_index-lt t.top_arity p.top_proof upper top_fits)
              (subst (λ n. k * (n * b) < 2 ^ 64) size fits));
      }

  top_places :
      (p q : TopProof)
      → length p.base_proof ≡ length q.base_proof
      → length p.sub_proof ≡ length q.sub_proof
      → length p.top_proof ≡ length q.top_proof
      → InTree t (ProofData.top p)
      → InTree t (ProofData.top q)
      → proof_index t (ProofData.top p) ≡ proof_index t (ProofData.top q)
      → SamePlace (ProofData.top p) (ProofData.top q)
  top_places p q base between above (InTree.top rows mid upper pos pos_sub pos_top one fits)
        (InTree.top rows' mid' upper' pos' pos_sub' pos_top' one' fits') h =
      let left = top_index p (InTree.top rows mid upper pos pos_sub pos_top one fits) in
      let right = top_index q (InTree.top rows' mid' upper' pos' pos_sub' pos_top' one' fits') in
      let b = t.base_arity ^ length p.base_proof in
      let i = path_index t.base_arity p.base_proof in
      let j = path_index t.base_arity q.base_proof in
      let m = path_index t.sub_arity p.sub_proof in
      let n = path_index t.sub_arity q.sub_proof in
      let u = path_index t.top_arity p.top_proof in
      let v = path_index t.top_arity q.top_proof in
      let low' : j < b = subst (λ k. j < t.base_arity ^ k) (sym base) right.low in
      let outer =
        digits (t.sub_arity * b) u v (m * b + i) (n * b + j)
          (digit_lt m i b t.sub_arity left.middle left.low)
          (digit_lt n j b t.sub_arity right.middle low')
          (sym left.index_eq
            ∙ h
            ∙ right.index_eq
            ∙ ap (λ k. v * (t.sub_arity * t.base_arity ^ k) + (n * t.base_arity ^ k + j))
                (sym base)) in
      let inner = digits b m n i j left.low low' outer.1 in
      SamePlace.top
        (places_eq t.base_arity p.base_proof q.base_proof rows rows' left.base_fits base inner.1)
        (places_eq t.sub_arity p.sub_proof q.sub_proof mid mid' left.sub_fits between inner.0)
        (places_eq t.top_arity p.top_proof q.top_proof upper upper' left.top_fits above outer.0)

-- Two proofs of paths of the same lengths, in a tree of fewer than 2^64 leaves, with places below the
-- arities, and one row in the middle of three layers, go through the same places where their indexes
-- are equal.
pub proof_index-SamePlace :
    (t : Arities) (p q : ProofData)
    → SameShape p q
    → InTree t p
    → InTree t q
    → proof_index t p ≡ proof_index t q
    → SamePlace p q
proof_index-SamePlace t (ProofData.single p) (ProofData.single q) (SameShape.single len)
      (InTree.single rows fits) (InTree.single rows' fits') h =
    SamePlace.single (places_eq t.base_arity p.path q.path rows rows' fits len h)
proof_index-SamePlace t (ProofData.sub p) (ProofData.sub q) (SameShape.sub base above) left right
      h =
    sub_places t p q base above left right h
proof_index-SamePlace t (ProofData.top p) (ProofData.top q) (SameShape.top base between above) left
      right h =
    top_places t p q base between above left right h
proof_index-SamePlace t (ProofData.single p) (ProofData.sub q) shape _ _ h = elim shape [ ]
proof_index-SamePlace t (ProofData.single p) (ProofData.top q) shape _ _ h = elim shape [ ]
proof_index-SamePlace t (ProofData.sub p) (ProofData.single q) shape _ _ h = elim shape [ ]
proof_index-SamePlace t (ProofData.sub p) (ProofData.top q) shape _ _ h = elim shape [ ]
proof_index-SamePlace t (ProofData.top p) (ProofData.single q) shape _ _ h = elim shape [ ]
proof_index-SamePlace t (ProofData.top p) (ProofData.sub q) shape _ _ h = elim shape [ ]
