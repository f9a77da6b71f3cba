-- ===== src/Pieces/CommD.antt =====
-- `compute_comm_d` of filecoin-proofs/src/pieces.rs: its loops end, and it returns the root of a
-- tree over the pieces.
use native.Mathlib.Decide.{dec_lt}
use mathlib.Core.List.{append-nil, append_assoc}
use rust_fil_proofs.Base.{
  ℕ, zero, suc, ◌+◌, ◌-◌, ◌*◌, ◌^◌, ◌<◌, ◌≤◌, ◌≡◌, refl, ap, ◌∙◌, arith, List, [], ◌∷◌, ◌++◌,
  Result, ok, true, All,
}
use rust_fil_proofs.Base.Powers.{two_pow-suc, two_pow-le, two_pow_pos}
use rust_fil_proofs.Pieces.Sizes.{piece_size, padded, is_power_of_two, padded-IsPower}
use rust_fil_proofs.Pieces.Levels.{
  add, total, total-add, IsRising, AtLeast, IsRising-tail, AtLeast-suc, add_same, add-Counter,
  level-le, total_room,
}
use rust_fil_proofs.Pieces.Stack.{
  PieceInfo, PieceError, IsPiece, raw_sum, zero_padding, shift_reduce, peek, pad_to, pad_to_one,
  shift_pieces, rounds,
}
use rust_fil_proofs.Pieces.Tree.{zero_root, Tree, ZeroRootsDiffer, Forest}
use rust_fil_proofs.Pieces.Reduce.{Returns, shift_reduce-Returns, zero_padding_lem}

module _ (hash : List ℕ → List ℕ) where
  -- A call that returned a stack over these pieces whose lowest level is at least `k`.
  pub record Aligned (r : Result PieceError (List PieceInfo)) (pieces : List PieceInfo)
      (k bound : ℕ) : Type 0 where
    pub stack : List PieceInfo
    pub returns : r ≡ ok stack
    pub low : ℕ
    pub high : List ℕ
    pub forest : Forest hash stack pieces (low ∷ high)
    pub rising : IsRising (low ∷ high)
    pub above : k ≤ low
    pub small : total (low ∷ high) ≤ bound

  -- The same stack, for an equal call, a lower level and a larger bound.
  relax :
      {r r' : Result PieceError (List PieceInfo)} {pieces : List PieceInfo} {k k' b b' : ℕ}
      → r' ≡ r
      → k' ≤ k
      → b ≤ b'
      → Aligned r pieces k b
      → Aligned r' pieces k' b'
  relax e hk hb a = record {
    stack = a.stack;
    returns = e ∙ a.returns;
    low = a.low;
    high = a.high;
    forest = a.forest;
    rising = a.rising;
    above = omega (arith, a.above);
    small = omega (arith, a.small);
  }

  Aligned-of_Returns :
      (k : ℕ) {r : Result PieceError (List PieceInfo)} {pieces : List PieceInfo} (ls : List ℕ)
      → Returns hash r pieces (add k ls)
      → IsRising ls
      → AtLeast k ls
      → Aligned r pieces k (total (k ∷ ls))
  Aligned-of_Returns k ls s r a =
      let c = add-Counter k ls r a in
      record {
        stack = s.stack;
        returns = s.returns;
        low = c.low;
        high = c.high;
        forest = rw (c.shape) at s.forest;
        rising = c.rising;
        above = c.above;
        small = omega (arith, ap total c.shape, total-add k ls);
      }

  pad_to_step :
      (fuel size : ℕ) (top padding : PieceInfo) (stack stack' : List PieceInfo)
      → top.size < size
      → zero_padding hash top.size ≡ ok padding
      → shift_reduce hash padding (top ∷ stack) ≡ ok stack'
      → pad_to hash (suc fuel) size (top ∷ stack) ≡ pad_to hash fuel size stack'
  unfolding pad_to peek
  pad_to_step fuel size top padding stack stack' h p q = ground arith

  pad_to_stops :
      (fuel size : ℕ) (top : PieceInfo) (stack : List PieceInfo)
      → size ≤ top.size
      → pad_to hash (suc fuel) size (top ∷ stack) ≡ ok (top ∷ stack)
  unfolding pad_to peek
  pad_to_stops fuel size top stack h = ground arith

  -- A round of padding: the top is doubled by zeros, the pieces stay.
  pad_round :
      (z : ZeroRootsDiffer hash) (l : ℕ) {stack xs : List PieceInfo} (ls : List ℕ)
      → Forest hash stack xs (l ∷ ls)
      → IsRising (l ∷ ls)
      → total (l ∷ l ∷ ls) ≤ 2 ^ 41
      → Aligned
          (shift_reduce hash
            (record { commitment = zero_root hash (l + 2); size = piece_size l })
            stack)
          xs
          (suc l)
          (total (l ∷ l ∷ ls))
  pad_round z l {stack} {xs} ls f r b =
      let padding : PieceInfo = record {
        commitment = zero_root hash (l + 2);
        size = piece_size l;
      } in
      let s : Returns hash (shift_reduce hash padding stack) xs (add (suc l) ls) =
        rw (append-nil xs, add_same l l ls refl) at
          (shift_reduce-Returns hash l padding refl (Tree.zeros l) f b) in
      relax refl (omega arith) (omega (arith, two_pow-suc l))
        (Aligned-of_Returns (suc l) ls s (IsRising-tail l ls r) (AtLeast-suc l ls r))

  -- `pad_to` fills up with zeros until the top is no smaller than the piece of level `k`.
  pub pad_to-Aligned :
      (z : ZeroRootsDiffer hash) (fuel k l : ℕ) {stack xs : List PieceInfo} (ls : List ℕ)
      → Forest hash stack xs (l ∷ ls)
      → IsRising (l ∷ ls)
      → k - l < fuel
      → total (l ∷ ls) + (2 ^ k - 2 ^ l) ≤ 2 ^ 41
      → Aligned (pad_to hash fuel (piece_size k) stack) xs k (total (l ∷ ls) + (2 ^ k - 2 ^ l))
  pad_to-Aligned z zero k l ls f r h b = absurd (omega arith)
  pad_to-Aligned z (suc fuel) k l {xs = pieces} ls (Forest.grow {stack} {xs} {ys} e _ p t f) r h b =
      elim (dec_lt l k) [
        | yes lt ↦
            let grown : 2 ^ suc l ≤ 2 ^ k = two_pow-le (suc l) k lt in
            let room : total (l ∷ l ∷ ls) ≤ 2 ^ 41 = omega (arith, two_pow-suc l) in
            let a = pad_round z l ls (Forest.grow e l p t f) r room in
            let small : l < 42 = omega (arith, level-le 41 l ls (omega arith)) in
            let padding : zero_padding hash e.size
                ≡ ok (record { commitment = zero_root hash (l + 2); size = piece_size l }) =
              ap (zero_padding hash) p ∙ zero_padding_lem hash l small z in
            let rest =
              pad_to-Aligned z fuel k a.low a.high a.forest a.rising (omega (arith, a.above))
                (omega (arith, a.small, two_pow-suc l, two_pow-le (suc l) a.low a.above)) in
            relax
              (pad_to_step fuel (piece_size k) e _ stack a.stack
                (omega (arith, p, two_pow-suc l, two_pow_pos l)) padding a.returns)
              (omega arith)
              (omega (arith, a.small, two_pow-suc l, two_pow-le (suc l) a.low a.above)) rest
        | no ge ↦ record {
          stack = e ∷ stack;
          returns =
              pad_to_stops fuel (piece_size k) e stack
                (omega (arith, two_pow-le k l (omega arith)));
          low = l;
          high = ls;
          forest = Forest.grow e l p t f;
          rising = r;
          above = omega arith;
          small = omega arith;
        }
      ]

  -- The stack came down to one entry, a tree over all pieces.
  pub record Single (r : Result PieceError (List PieceInfo)) (pieces : List PieceInfo)
      : Type 0 where
    pub top : PieceInfo
    pub level : ℕ
    pub returns : r ≡ ok (top ∷ [])
    pub sized : top.size ≡ piece_size level
    pub tree : Tree hash level top.commitment pieces
    pub small : level ≤ 41

  pad_to_one_step :
      (fuel : ℕ) (e e' padding : PieceInfo) (stack stack' : List PieceInfo)
      → zero_padding hash e.size ≡ ok padding
      → shift_reduce hash padding (e ∷ e' ∷ stack) ≡ ok stack'
      → pad_to_one hash (suc fuel) (e ∷ e' ∷ stack) ≡ pad_to_one hash fuel stack'
  unfolding pad_to_one peek
  pad_to_one_step fuel e e' padding stack stack' p q = ground arith

  pad_to_one_stops : (fuel : ℕ) (e : PieceInfo) → pad_to_one hash (suc fuel) (e ∷ []) ≡ ok (e ∷ [])
  unfolding pad_to_one
  pad_to_one_stops fuel e = refl

  again :
      {r r' : Result PieceError (List PieceInfo)} {pieces : List PieceInfo}
      → r' ≡ r
      → Single r pieces
      → Single r' pieces
  again e s = record {
    top = s.top;
    level = s.level;
    returns = e ∙ s.returns;
    sized = s.sized;
    tree = s.tree;
    small = s.small;
  }

  -- The last loop ends with one entry: every round raises the lowest level.
  pub pad_to_one-Single :
      (z : ZeroRootsDiffer hash) (fuel l : ℕ) {stack xs : List PieceInfo} (ls : List ℕ)
      → Forest hash stack xs (l ∷ ls)
      → IsRising (l ∷ ls)
      → total (l ∷ ls) ≤ 2 ^ 41
      → 41 - l < fuel
      → Single (pad_to_one hash fuel stack) xs
  pad_to_one-Single z zero l ls f r b h = absurd (omega arith)
  pad_to_one-Single z (suc fuel) l [] (Forest.grow e _ p t Forest.bare) r b h = record {
    top = e;
    level = l;
    returns = pad_to_one_stops fuel e;
    sized = p;
    tree = t;
    small = level-le 41 l [] b;
  }
  pad_to_one-Single z (suc fuel) l (l' ∷ ls)
        (Forest.grow e _ p t (Forest.grow {stack} e' _ p' t' f)) r b h =
      let small : l < 42 = omega (arith, level-le 41 l (l' ∷ ls) b) in
      let room : total (l ∷ l' ∷ ls) + 2 ^ l ≤ 2 ^ 41 = total_room 41 l l' ls r b in
      let padding : zero_padding hash e.size
          ≡ ok (record { commitment = zero_root hash (l + 2); size = piece_size l }) =
        ap (zero_padding hash) p ∙ zero_padding_lem hash l small z in
      let a =
        pad_round z l (l' ∷ ls) (Forest.grow e l p t (Forest.grow e' l' p' t' f)) r (omega arith) in
      again (pad_to_one_step fuel e e' _ stack a.stack padding a.returns) (
        pad_to_one-Single z fuel a.low a.high a.forest a.rising (omega (arith, a.small))
          (omega (arith, a.above, level-le 41 a.low a.high (omega (arith, a.small)))))

  shift_pieces_step :
      (piece : PieceInfo) (pieces stack aligned stack' : List PieceInfo)
      → is_power_of_two (padded piece.size) ≡ true
      → pad_to hash rounds piece.size stack ≡ ok aligned
      → shift_reduce hash piece aligned ≡ ok stack'
      → shift_pieces hash (piece ∷ pieces) stack ≡ shift_pieces hash pieces stack'
  unfolding shift_pieces
  shift_pieces_step piece pieces stack aligned stack' p q r = ground arith

  -- The loop over the pieces keeps the stack aligned, if the sizes are in range.
  pub shift_pieces-Aligned :
      (z : ZeroRootsDiffer hash) (pieces : List PieceInfo) (l : ℕ) {stack xs : List PieceInfo}
      (ls : List ℕ)
      → All IsPiece pieces
      → Forest hash stack xs (l ∷ ls)
      → IsRising (l ∷ ls)
      → 127 * total (l ∷ ls) + 2 * raw_sum pieces ≤ 127 * 2 ^ 41
      → Aligned (shift_pieces hash pieces stack) (xs ++ pieces) 0 (2 ^ 41)
  shift_pieces-Aligned z [] l {stack} {xs} ls h f r b = record {
    stack = stack;
    returns = unfold shift_pieces in refl;
    low = l;
    high = ls;
    forest = rw append-nil f;
    rising = r;
    above = omega arith;
    small = omega arith;
  }
  shift_pieces-Aligned z (piece ∷ pieces) l {stack} {xs} ls ((k, e), hs) f r b =
      let small : k < 42 = omega (arith, level-le 41 k [] (omega arith)) in
      let a =
        rw (← e) at
          (pad_to-Aligned z rounds k l ls f r (omega arith) (omega (arith, two_pow_pos l))) in
      let levels : List ℕ = a.low ∷ a.high in
      let bound : total (k ∷ levels) + 2 ^ l ≤ total (l ∷ ls) + 2 * 2 ^ k + 2 ^ l =
        omega (arith, a.small) in
      let s =
        Aligned-of_Returns k levels
          (shift_reduce-Returns hash k piece e (Tree.leaf k piece e) a.forest
            (omega (arith, bound)))
          a.rising a.above in
      let power : is_power_of_two (padded piece.size) ≡ true = rw e (padded-IsPower k small) in
      let rest =
        shift_pieces-Aligned z pieces s.low s.high hs s.forest s.rising
          (omega (arith, s.small, bound)) in
      relax (shift_pieces_step piece pieces stack a.stack s.stack power a.returns s.returns)
        (omega arith) (omega arith) (rw (append_assoc xs (piece ∷ []) pieces) at rest)
