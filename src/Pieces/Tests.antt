-- ===== src/Pieces/Tests.antt =====
-- Runs of the piece code (filecoin-proofs/src/pieces.rs) on small inputs, and the theorems at
-- concrete inputs. The hash of the tests is a constant.
use rust_fil_proofs.Base.{
  bytes_eq, ℕ, suc, ◌+◌, ◌*◌, ◌≡◌, refl, arith, List, [], ◌∷◌, ok, replicate, false,
}
use rust_fil_proofs.Pieces.Stack.{Commitment, PieceInfo, zero_node, piece_hash, compute_comm_d}
use rust_fil_proofs.Pieces.Alignment.{
  get_piece_alignment, bytes_needed_loop, sum_from, sum_piece_bytes_with_alignment, sum,
}
use rust_fil_proofs.Pieces.Sizes.{add_bytes}
use rust_fil_proofs.Pieces.Tree.{zero_root, Tree, ZeroRootsDiffer}
use rust_fil_proofs.Pieces.Total.{compute_comm_d-Tree}
use rust_fil_proofs.Pieces.Layout.{
  Laid, Announces, get_piece_start_byte-Laid, get_aligned_source-Announces,
}

abbrev one_node : Commitment
one_node = 1 ∷ replicate 31 0

abbrev flat_hash : List ℕ → List ℕ
flat_hash bytes = one_node

abbrev no_comm_d : ℕ → Commitment
no_comm_d size = zero_node

root_differs : (h : ℕ) → bytes_eq (zero_root flat_hash (suc h)) zero_node ≡ false
unfolding piece_hash bytes_eq
root_differs h = refl

flat_hash-ZeroRootsDiffer : ZeroRootsDiffer flat_hash
flat_hash-ZeroRootsDiffer k h =
    let e : k + 2 ≡ suc (suc k) = omega arith in rw e (root_differs (suc k))

abbrev piece : ℕ → PieceInfo
piece size = record { commitment = one_node; size = size }

-- Pieces of 127, 254 and 127 bytes, in a sector of 1024 padded bytes.
abbrev three_pieces : List PieceInfo
three_pieces = piece 254 ∷ piece 127 ∷ []

compute_comm_d-Tree_example :
    (c : Commitment) × (level : ℕ) × (compute_comm_d flat_hash no_comm_d
        (128 * 8)
        (piece 127 ∷ three_pieces)
      ≡ ok c)
    × Tree flat_hash level c (piece 127 ∷ three_pieces)
compute_comm_d-Tree_example =
    compute_comm_d-Tree flat_hash no_comm_d 8 (piece 127) three_pieces flat_hash-ZeroRootsDiffer
      ((0, refl), ((1, refl), ((0, refl), tt))) (omega arith) (omega arith)

two_sizes : sum_piece_bytes_with_alignment (100 ∷ 300 ∷ []) ≡ ok (127 * 8)
unfolding sum_piece_bytes_with_alignment sum_from get_piece_alignment bytes_needed_loop sum
    add_bytes
two_sizes = refl

get_piece_start_byte-Laid_example : Laid (100 ∷ 300 ∷ []) 128 (127 * 8)
get_piece_start_byte-Laid_example =
    get_piece_start_byte-Laid (100 ∷ 300 ∷ []) 128 (127 * 8) two_sizes (omega arith) (omega arith)

get_aligned_source-Announces_example : Announces (7 ∷ 8 ∷ 9 ∷ []) (100 ∷ 300 ∷ []) 3 (127 * 8)
get_aligned_source-Announces_example =
    get_aligned_source-Announces (7 ∷ 8 ∷ 9 ∷ []) (100 ∷ 300 ∷ []) 3 (127 * 8) two_sizes refl
      (omega arith) (omega arith)
