-- ===== src/Pieces/Tree.antt =====
-- What the data commitment of filecoin-proofs/src/pieces.rs should be: the root of a binary tree
-- over the pieces in order, with all-zero subtrees where the alignment leaves room.
use rust_fil_proofs.Base.{bytes_eq, ℕ, zero, suc, ◌+◌, ◌≡◌, ◌<◌, List, [], ◌∷◌, ◌++◌, false}
use rust_fil_proofs.Pieces.Sizes.{piece_size, max_level}
use rust_fil_proofs.Pieces.Stack.{Commitment, PieceInfo, zero_node, piece_hash}

module _ (hash : List ℕ → List ℕ) where
  -- The root of a tree of the given height over zero nodes of 32 bytes.
  abbrev pub zero_root : ℕ → Commitment
  zero_root zero = zero_node
  zero_root (suc h) = piece_hash hash (zero_root h) (zero_root h)

  -- `Tree k c pieces`: a tree for 128 * 2 ^ k padded bytes with the root `c` holds these pieces, in
  -- order, and zeros elsewhere. A piece is a subtree of its own size.
  pub data Tree : ℕ → Commitment → List PieceInfo → Type 0 where
    leaf : (k : ℕ) (p : PieceInfo) → p.size ≡ piece_size k → Tree k p.commitment (p ∷ [])
    zeros : (k : ℕ) → Tree k (zero_root (k + 2)) []
    node :
        {k : ℕ} {a b : Commitment} {xs ys : List PieceInfo}
        → Tree k a xs
        → Tree k b ys
        → Tree (suc k) (piece_hash hash a b) (xs ++ ys)

  -- No zero subtree that may be used as padding hashes to 32 zero bytes.
  abbrev pub ZeroRootsDiffer : Type 0
  ZeroRootsDiffer = (k : ℕ) → k < max_level → bytes_eq (zero_root (k + 2)) zero_node ≡ false

  -- The stack, top first, over the pieces that it holds and the levels of its entries.
  pub data Forest : List PieceInfo → List PieceInfo → List ℕ → Type 0 where
    bare : Forest [] [] []
    grow :
        {stack xs ys : List PieceInfo} {ls : List ℕ} (e : PieceInfo) (k : ℕ)
        → e.size ≡ piece_size k
        → Tree k e.commitment ys
        → Forest stack xs ls
        → Forest (e ∷ stack) (xs ++ ys) (k ∷ ls)
