-- ===== src/Pieces/Total.antt =====
-- What `compute_comm_d` of filecoin-proofs/src/pieces.rs returns for pieces in range, and what a
-- successful call says about any pieces.
use native.Mathlib.Nat.{mul-div_right}
use rust_fil_proofs.Base.{
  ℕ, ◌*◌, ◌/◌, ◌^◌, ◌<◌, ◌≤◌, ◌≡◌, refl, ap, ◌∙◌, arith, List, [], ◌∷◌, ok, length, true, leb,
  le→leb, All,
}
use rust_fil_proofs.Base.Powers.{two_pow_pos}
use rust_fil_proofs.Fr32.Offsets.{to_unpadded_bytes-eq}
use rust_fil_proofs.Pieces.Sizes.{
  piece_size, padded, unpadded, is_power_of_two, padded-IsPower, padded-piece_size,
}
use rust_fil_proofs.Pieces.Levels.{level-le}
use rust_fil_proofs.Pieces.Stack.{
  Commitment, PieceInfo, IsPiece, raw_sum, minimum_piece_size, padded_sum, rounds, pad_to_one, pop,
  shift_pieces, compute_comm_d,
}
use rust_fil_proofs.Pieces.Tree.{Tree, ZeroRootsDiffer, Forest}
use rust_fil_proofs.Pieces.CommD.{shift_pieces-Aligned, pad_to_one-Single}

length-le-raw_sum :
    (pieces : List PieceInfo) → All IsPiece pieces → 127 * length pieces ≤ raw_sum pieces
length-le-raw_sum [] h = omega arith
length-le-raw_sum (p ∷ ps) ((k, e), hs) = omega (arith, length-le-raw_sum ps hs, two_pow_pos k)

piece_level-lt : (p : PieceInfo) (k : ℕ) → p.size ≡ piece_size k → p.size ≤ 127 * 2 ^ 40 → k < 42
piece_level-lt p k e h = omega (arith, level-le 40 k [] (omega arith))

padded_sum-eq :
    (pieces : List PieceInfo)
    → All IsPiece pieces
    → raw_sum pieces ≤ 127 * 2 ^ 40
    → 127 * padded_sum pieces ≡ 128 * raw_sum pieces
unfolding padded_sum
padded_sum-eq [] h b = refl
padded_sum-eq (p ∷ ps) ((k, e), hs) b = omega (
  arith,
  padded_sum-eq ps hs (omega arith),
  ap padded e,
  padded-piece_size k (piece_level-lt p k e (omega arith)),
)

unpadded_units : (u : ℕ) → u ≤ 2 ^ 40 → unpadded (128 * u) ≡ 127 * u
unfolding unpadded
unpadded_units u h = to_unpadded_bytes-eq (128 * u) (omega arith) ∙ omega arith

module _ (hash : List ℕ → List ℕ) (empty_comm_d : ℕ → Commitment) where
  compute_comm_d_runs :
      (sector_size : ℕ) (first top : PieceInfo) (pieces stack : List PieceInfo)
      → leb (length (first ∷ pieces)) (unpadded sector_size / minimum_piece_size) ≡ true
      → leb (padded_sum (first ∷ pieces)) sector_size ≡ true
      → is_power_of_two (padded first.size) ≡ true
      → shift_pieces hash pieces (first ∷ []) ≡ ok stack
      → pad_to_one hash rounds stack ≡ ok (top ∷ [])
      → compute_comm_d hash empty_comm_d sector_size (first ∷ pieces) ≡ ok top.commitment
  unfolding compute_comm_d pop
  compute_comm_d_runs sector_size first top pieces stack p q r s t = ground arith

  -- For pieces of full size that fit a sector of `128 * units` bytes (at most 2 ^ 47), all loops
  -- end, no guard fails, and the result is the root of a binary tree that holds exactly the pieces,
  -- in their order, each as a subtree of its own size, and zeros elsewhere. The hypothesis on `hash`
  -- is that no all-zero subtree hashes to 32 zero bytes.
  pub compute_comm_d-Tree :
      (units : ℕ) (first : PieceInfo) (pieces : List PieceInfo)
      → ZeroRootsDiffer hash
      → All IsPiece (first ∷ pieces)
      → raw_sum (first ∷ pieces) ≤ 127 * units
      → units ≤ 2 ^ 40
      → (c : Commitment) × (level : ℕ) × (compute_comm_d hash empty_comm_d
            (128 * units)
            (first ∷ pieces)
          ≡ ok c)
        × Tree hash level c (first ∷ pieces)
  compute_comm_d-Tree units first pieces z ((k, e), hs) b u =
      let small : k < 42 = piece_level-lt first k e (omega arith) in
      let start : Forest hash (first ∷ []) (first ∷ []) (k ∷ []) =
        Forest.grow first k e (Tree.leaf k first e) Forest.bare in
      let a = shift_pieces-Aligned hash z pieces k [] hs start tt (omega arith) in
      let s =
        pad_to_one-Single hash z rounds a.low a.high a.forest a.rising a.small (omega arith) in
      let few = length-le-raw_sum (first ∷ pieces) ((k, e), hs) in
      let sum = padded_sum-eq (first ∷ pieces) ((k, e), hs) (omega arith) in
      let limit : unpadded (128 * units) / minimum_piece_size ≡ units =
        rw (unpadded_units units u) (mul-div_right units (omega arith)) in
      (
        s.top.commitment,
        s.level,
        compute_comm_d_runs (128 * units) first s.top pieces a.stack
            (le→leb _ _ (omega (arith, few, limit))) (le→leb _ _ (omega (arith, sum)))
            (rw e (padded-IsPower k small)) a.returns s.returns,
        s.tree,
      )
