-- ===== src/Pieces/Alignment.antt =====
-- `PieceAlignment`, `get_piece_alignment`, `sum_piece_bytes_with_alignment`, `get_piece_start_byte`
-- and `get_aligned_source` of filecoin-proofs/src/pieces.rs. All amounts are unpadded bytes.
-- The loop that looks for the size of a piece has fuel; `stuck` stands for a loop that never ends.
use rust_fil_proofs.Base.{
  ℕ, zero, suc, ◌*◌, ◌%◌, List, [], ◌∷◌, ◌++◌, Result, ok, stuck, ◌>>=◌, ltb, if◌then◌else◌, u64,
  sub64, replicate,
}
use rust_fil_proofs.Pieces.Sizes.{add_bytes}
use rust_fil_proofs.Pieces.Stack.{PieceError, minimum_piece_size, rounds}

pub record PieceAlignment : Type 0 where
  pub left_bytes : ℕ
  pub right_bytes : ℕ

-- `PieceAlignment::sum`.
unfoldable pub sum : PieceAlignment → ℕ → ℕ
sum a piece_size = add_bytes (add_bytes a.left_bytes piece_size) a.right_bytes

-- `while piece_bytes_needed < piece_bytes { piece_bytes_needed *= 2; }`
unfoldable pub bytes_needed_loop : ℕ → ℕ → ℕ → Result PieceError ℕ
bytes_needed_loop zero needed piece_bytes = stuck
bytes_needed_loop (suc fuel) needed piece_bytes =
    let more = bytes_needed_loop fuel (u64 (needed * 2)) piece_bytes in
    if ltb needed piece_bytes then more else ok needed

unfoldable pub get_piece_alignment : ℕ → ℕ → Result PieceError PieceAlignment
get_piece_alignment written_bytes piece_bytes = do
  needed ← bytes_needed_loop rounds minimum_piece_size piece_bytes
  let encroaching = written_bytes % needed
  let left = (if ltb 0 encroaching then sub64 needed encroaching else 0)
  let right = sub64 needed piece_bytes
  ok (record { left_bytes = left; right_bytes = right })

-- The fold over the pieces, from an accumulator.
unfoldable pub sum_from : ℕ → List ℕ → Result PieceError ℕ
sum_from acc [] = ok acc
sum_from acc (piece_bytes ∷ pieces) = do
  alignment ← get_piece_alignment acc piece_bytes
  sum_from (add_bytes acc (sum alignment piece_bytes)) pieces

unfoldable pub sum_piece_bytes_with_alignment : List ℕ → Result PieceError ℕ
sum_piece_bytes_with_alignment pieces = sum_from 0 pieces

unfoldable pub get_piece_start_byte : List ℕ → ℕ → Result PieceError ℕ
get_piece_start_byte pieces piece_bytes = do
  last_byte ← sum_piece_bytes_with_alignment pieces
  alignment ← get_piece_alignment last_byte piece_bytes
  ok (add_bytes last_byte alignment.left_bytes)

-- A reader is the list of bytes that it yields.
unfoldable pub with_alignment : List ℕ → PieceAlignment → List ℕ
with_alignment source a = replicate a.left_bytes 0 ++ (source ++ replicate a.right_bytes 0)

unfoldable pub get_aligned_source :
    List ℕ → List ℕ → ℕ → Result PieceError (ℕ × PieceAlignment × List ℕ)
get_aligned_source source pieces piece_bytes = do
  written_bytes ← sum_piece_bytes_with_alignment pieces
  alignment ← get_piece_alignment written_bytes piece_bytes
  ok (
    add_bytes (add_bytes alignment.left_bytes piece_bytes) alignment.right_bytes,
    alignment,
    with_alignment source alignment,
  )
