-- ===== src/Pieces/Reduce.antt =====
-- `reduce`, `shift_reduce` and `zero_padding` of filecoin-proofs/src/pieces.rs keep the stack a
-- forest of trees over the pieces.
use native.Mathlib.Decide.{ℕ_discrete, dec_lt}
use mathlib.Core.List.{append_assoc}
use rust_fil_proofs.Base.{
  bytes_eq, ℕ, zero, suc, ◌+◌, ◌-◌, ◌*◌, ◌^◌, ◌<◌, ◌≤◌, ◌≡◌, ◌≢◌, refl, sym, ap, ◌∙◌, arith, List,
  [], ◌∷◌, ◌++◌, Result, ok, length, ==_iff, ◌==◌, true, false, Bool-cases, inl, inr, u64, lt→ltb,
  ge→ltb,
}
use rust_fil_proofs.Base.Powers.{two_pow-suc, two_pow-le, two_pow-lt, two_pow-add, eq_of_two_pow-eq}
use rust_fil_proofs.Pieces.Sizes.{piece_size, padded, padded-piece_size, add_bytes}
use rust_fil_proofs.Pieces.Levels.{add, total, add_same, add_other, level-le}
use rust_fil_proofs.Pieces.Stack.{
  Commitment, PieceInfo, PieceError, zero_node, new_piece_info, rounds, piece_hash, hash_up,
  zero_padding, reduce_loop, reduce, shift_reduce,
}
use rust_fil_proofs.Pieces.Tree.{zero_root, Tree, ZeroRootsDiffer, Forest}

-- Two pieces have one size exactly when they have one level.
piece_size-injective : (a b : ℕ) → piece_size a ≡ piece_size b → a ≡ b
piece_size-injective a b h = eq_of_two_pow-eq a b (omega arith)

eq_of_levels : (x y j k : ℕ) → x ≡ piece_size j → y ≡ piece_size k → j ≡ k → (x == y) ≡ true
eq_of_levels x y j k p q e = (==_iff x y).1 (p ∙ ap piece_size e ∙ sym q)

ne_of_levels : (x y j k : ℕ) → x ≡ piece_size j → y ≡ piece_size k → j ≢ k → (x == y) ≡ false
ne_of_levels x y j k p q ne = elim (Bool-cases (x == y)) [
  | inl t ↦ absurd (ne (piece_size-injective j k (sym p ∙ (==_iff x y).0 t ∙ q)))
  | inr f ↦ f
]

module _ (hash : List ℕ → List ℕ) where
  -- A call that returned a stack of these levels over these pieces.
  pub record Returns (r : Result PieceError (List PieceInfo)) (pieces : List PieceInfo)
      (ls : List ℕ) : Type 0 where
    pub stack : List PieceInfo
    pub returns : r ≡ ok stack
    pub forest : Forest hash stack pieces ls

  abbrev joined : PieceInfo → PieceInfo → PieceInfo
  joined left right = record {
    commitment = piece_hash hash left.commitment right.commitment;
    size = add_bytes left.size right.size;
  }

  reduce_loop_alone :
      (fuel : ℕ) (e : PieceInfo) → reduce_loop hash (suc fuel) (e ∷ []) ≡ ok (e ∷ [])
  unfolding reduce_loop
  reduce_loop_alone fuel e = refl

  reduce_loop_stops :
      (fuel : ℕ) (e e' : PieceInfo) (stack : List PieceInfo)
      → (e.size == e'.size) ≡ false
      → reduce_loop hash (suc fuel) (e ∷ e' ∷ stack) ≡ ok (e ∷ e' ∷ stack)
  unfolding reduce_loop
  reduce_loop_stops fuel e e' stack h = ground arith

  reduce_loop_joins :
      (fuel : ℕ) (e e' : PieceInfo) (stack : List PieceInfo)
      → e.size ≡ e'.size
      → reduce_loop hash (suc fuel) (e ∷ e' ∷ stack) ≡ reduce_loop hash fuel (joined e' e ∷ stack)
  unfolding reduce_loop
  reduce_loop_joins fuel e e' stack h = ground arith

  joined-size :
      (k : ℕ) (left right : PieceInfo)
      → k < 42
      → left.size ≡ piece_size k
      → right.size ≡ piece_size k
      → (joined left right).size ≡ piece_size (suc k)
  unfolding add_bytes
  joined-size k left right h p q = omega (arith, p, q, two_pow-suc k, two_pow-le k 41 (omega arith))

  reduce_loop-Returns :
      (fuel k : ℕ) (e : PieceInfo) {ys stack xs : List PieceInfo} {ls : List ℕ}
      → e.size ≡ piece_size k
      → Tree hash k e.commitment ys
      → Forest hash stack xs ls
      → length stack < fuel
      → total (k ∷ ls) ≤ 2 ^ 41
      → Returns (reduce_loop hash fuel (e ∷ stack)) (xs ++ ys) (add k ls)
  reduce_loop-Returns zero k e p t f h b = absurd (omega arith)
  reduce_loop-Returns (suc fuel) k e p t Forest.bare h b = record {
    stack = e ∷ [];
    returns = reduce_loop_alone fuel e;
    forest = unfold add in Forest.grow e k p t Forest.bare;
  }
  reduce_loop-Returns (suc fuel) k e {ys} p t
        (Forest.grow {stack} {xs} {ys = ys'} {ls} e' k' p' t' f) h b =
      elim (ℕ_discrete k k') [
        | yes same ↦
            let sizes : e.size ≡ e'.size = p ∙ ap piece_size same ∙ sym p' in
            let small : k < 42 = omega (arith, level-le 41 k (k' ∷ ls) b) in
            let q : e'.size ≡ piece_size k = p' ∙ ap piece_size (sym same) in
            let u : Tree hash k e'.commitment ys' = rw same t' in
            let rest =
              reduce_loop-Returns fuel (suc k) (joined e' e) (joined-size k e' e small q p)
                (Tree.node u t) f (omega arith)
                (omega (arith, two_pow-suc k, ap (λ (n : ℕ). 2 ^ n) same)) in
            rw
              (
                reduce_loop_joins fuel e e' stack sizes,
                add_same k k' ls same,
                append_assoc xs ys' ys,
              )
              rest
        | no other ↦ record {
          stack = e ∷ e' ∷ stack;
          returns = reduce_loop_stops fuel e e' stack (ne_of_levels e.size e'.size k k' p p' other);
          forest = rw (add_other k k' ls other) (Forest.grow e k p t (Forest.grow e' k' p' t' f));
        }
      ]

  pub shift_reduce-Returns :
      (k : ℕ) (e : PieceInfo) {ys stack xs : List PieceInfo} {ls : List ℕ}
      → e.size ≡ piece_size k
      → Tree hash k e.commitment ys
      → Forest hash stack xs ls
      → total (k ∷ ls) ≤ 2 ^ 41
      → Returns (shift_reduce hash e stack) (xs ++ ys) (add k ls)
  unfolding shift_reduce reduce
  shift_reduce-Returns k e {stack} p t f b =
      reduce_loop-Returns (suc (length (e ∷ stack))) k e p t f (omega arith) b

  -- One round of hashing doubles the tree.
  hash_up_lem :
      (fuel j m : ℕ)
      → j ≤ m
      → m - j < fuel
      → m < 45
      → hash_up hash fuel (zero_root hash j) (32 * 2 ^ j) (32 * 2 ^ m)
        ≡ ok (zero_root hash m, 32 * 2 ^ m)
  unfolding hash_up
  hash_up_lem zero j m h f b = absurd (omega arith)
  hash_up_lem (suc fuel) j m h f b = elim (dec_lt j m) [
    | yes p ↦
        let d : u64 (32 * 2 ^ j * 2) ≡ 32 * 2 ^ suc j =
          omega (arith, two_pow-suc j, two_pow-le j 44 (omega arith)) in
        rw (lt→ltb (32 * 2 ^ j) (32 * 2 ^ m) (omega (arith, two_pow-lt j m p)), d)
          (hash_up_lem fuel (suc j) m (omega arith) (omega arith) b)
    | no p ↦
        let e : j ≡ m = omega arith in rw (e, ge→ltb (32 * 2 ^ m) (32 * 2 ^ m) (omega arith)) refl
  ]

  zero_padding_of_hash_up :
      (size hashed : ℕ) (c : Commitment)
      → hash_up hash rounds (piece_hash hash zero_node zero_node) 64 (padded size) ≡ ok (c, hashed)
      → (hashed == padded size) ≡ true
      → bytes_eq c zero_node ≡ false
      → zero_padding hash size ≡ ok (record { commitment = c; size = size })
  unfolding zero_padding new_piece_info
  zero_padding_of_hash_up size hashed c up same differs = ground arith

  hash_up_to_level :
      (k : ℕ)
      → k < 42
      → hash_up hash rounds (zero_root hash 1) 64 (padded (piece_size k))
        ≡ ok (zero_root hash (k + 2), 32 * 2 ^ (k + 2))
  hash_up_to_level k h =
      let e : padded (piece_size k) ≡ 32 * 2 ^ (k + 2) =
        padded-piece_size k h ∙ omega (arith, two_pow-add k 2) in
      rw e (hash_up_lem rounds 1 (k + 2) (omega arith) (omega arith) (omega arith))

  -- The padding of a level below 42 is the root of a tree of zeros.
  pub zero_padding_lem :
      (k : ℕ)
      → k < 42
      → ZeroRootsDiffer hash
      → zero_padding hash (piece_size k)
        ≡ ok (record { commitment = zero_root hash (k + 2); size = piece_size k })
  zero_padding_lem k h z =
      let same : (32 * 2 ^ (k + 2) == padded (piece_size k)) ≡ true =
        (==_iff _ _).1 (omega (arith, two_pow-add k 2, padded-piece_size k h)) in
      zero_padding_of_hash_up (piece_size k) (32 * 2 ^ (k + 2)) (zero_root hash (k + 2))
        (hash_up_to_level k h) same (z k h)
