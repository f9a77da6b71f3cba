-- ===== src/Pieces/Stack.antt =====
-- `Stack`, `zero_padding`, `join_piece_infos`, `compute_comm_d` and `verify_pieces` of
-- filecoin-proofs/src/pieces.rs, with the piece constants of filecoin-proofs/src/constants.rs.
use rust_fil_proofs.Base.{
  ℕ, zero, suc, ◌+◌, ◌-◌, ◌*◌, ◌/◌, ◌≡◌, Bool, true, false, not, List, [], ◌∷◌, ◌++◌, Result, ok,
  err, panic, stuck, ◌>>=◌, ◌>>◌, ensure, ltb, leb, ◌==◌, if◌then◌else◌, u64, length, replicate,
  bytes_eq,
}
use rust_fil_proofs.Pieces.Sizes.{piece_size, padded, unpadded, add_bytes, is_power_of_two}

-- `MINIMUM_RESERVED_LEAVES_FOR_PIECE_IN_SECTOR * NODE_SIZE - 1`.
abbrev pub minimum_piece_size : ℕ
minimum_piece_size = 4 * 32 - 1

abbrev pub Commitment : Type 0
Commitment = List ℕ

pub record PieceInfo : Type 0 where
  pub commitment : Commitment
  pub size : ℕ

pub data PieceError : Type 0 where
  zero_commitment too_many_pieces larger_than_sector not_power_of_two hashed_size sizes_differ
        stack_size empty_stack :
      PieceError

-- A piece of full size: 127 bytes times a power of two.
abbrev pub IsPiece : PieceInfo → Type 0
IsPiece p = (k : ℕ) × (p.size ≡ piece_size k)

abbrev pub raw_sum : List PieceInfo → ℕ
raw_sum [] = 0
raw_sum (p ∷ ps) = p.size + raw_sum ps

-- `[0; 32]`.
abbrev pub zero_node : Commitment
zero_node = replicate 32 0

-- `PieceInfo::new`.
unfoldable pub new_piece_info : Commitment → ℕ → Result PieceError PieceInfo
new_piece_info commitment size = do
  ensure (not (bytes_eq commitment zero_node)) zero_commitment
  ok (record { commitment = commitment; size = size })

-- The rounds that a loop over doubling sizes may take: a `u64` doubles at most 64 times.
abbrev pub rounds : ℕ
rounds = 64

-- Index `len - 1`: a panic on the empty stack.
unfoldable pub peek : List PieceInfo → Result PieceError PieceInfo
peek [] = panic
peek (top ∷ stack) = ok top

unfoldable pub pop : List PieceInfo → Result PieceError (PieceInfo × List PieceInfo)
pop [] = err empty_stack
pop (top ∷ stack) = ok (top, stack)

-- `piece_infos.iter().map(..).sum()`.
unfoldable pub padded_sum : List PieceInfo → ℕ
padded_sum [] = 0
padded_sum (piece ∷ pieces) = u64 (padded piece.size + padded_sum pieces)

module _ (hash : List ℕ → List ℕ) where
  unfoldable pub piece_hash : Commitment → Commitment → Commitment
  piece_hash a b = hash (a ++ b)

  -- The loop `while hashed_size < padded_size`.
  unfoldable pub hash_up : ℕ → Commitment → ℕ → ℕ → Result PieceError (Commitment × ℕ)
  hash_up zero commitment hashed padded_size = stuck
  hash_up (suc fuel) commitment hashed padded_size =
      let more = hash_up fuel (piece_hash commitment commitment) (u64 (hashed * 2)) padded_size in
      if ltb hashed padded_size then more else ok (commitment, hashed)

  unfoldable pub zero_padding : ℕ → Result PieceError PieceInfo
  zero_padding size = do
    let padded_size = padded size
    (commitment, hashed) ← hash_up rounds (piece_hash zero_node zero_node) 64 padded_size
    ensure (hashed == padded_size) hashed_size
    new_piece_info commitment size

  unfoldable pub join_piece_infos : PieceInfo → PieceInfo → Result PieceError PieceInfo
  unfolding piece_hash
  join_piece_infos left right = do
    ensure (left.size == right.size) sizes_differ
    ok (record {
      commitment = piece_hash left.commitment right.commitment;
      size = add_bytes left.size right.size;
    })

  unfoldable pub reduce1 : List PieceInfo → Result PieceError (Bool × List PieceInfo)
  unfolding join_piece_infos
  reduce1 [] = ok (false, [])
  reduce1 (top ∷ []) = ok (false, top ∷ [])
  reduce1 (right ∷ left ∷ stack) =
      if right.size == left.size
      then (do joined ← join_piece_infos left right; ok (true, joined ∷ stack))
      else ok (false, right ∷ left ∷ stack)

  -- `while self.reduce1()? {}`.
  unfoldable pub reduce_loop : ℕ → List PieceInfo → Result PieceError (List PieceInfo)
  unfolding reduce1
  reduce_loop zero stack = stuck
  reduce_loop (suc fuel) stack = do
    (again, stack') ← reduce1 stack
    let more = reduce_loop fuel stack'
    if again then more else ok stack'

  -- A round takes an element off, so the depth of the stack and one more round are enough.
  unfoldable pub reduce : List PieceInfo → Result PieceError (List PieceInfo)
  reduce stack = reduce_loop (suc (length stack)) stack

  unfoldable pub shift_reduce : PieceInfo → List PieceInfo → Result PieceError (List PieceInfo)
  shift_reduce piece stack = reduce (piece ∷ stack)

  -- `while stack.peek().size < piece_info.size`.
  unfoldable pub pad_to : ℕ → ℕ → List PieceInfo → Result PieceError (List PieceInfo)
  pad_to zero size stack = stuck
  pad_to (suc fuel) size stack = do
    top ← peek stack
    let more = (do
      padding ← zero_padding top.size
      stack' ← shift_reduce padding stack
      pad_to fuel size stack')
    if ltb top.size size then more else ok stack

  -- The loop over the pieces behind the first.
  unfoldable pub shift_pieces : List PieceInfo → List PieceInfo → Result PieceError (List PieceInfo)
  shift_pieces [] stack = ok stack
  shift_pieces (piece ∷ pieces) stack = do
    ensure (is_power_of_two (padded piece.size)) not_power_of_two
    aligned ← pad_to rounds piece.size stack
    stack' ← shift_reduce piece aligned
    shift_pieces pieces stack'

  -- `while stack.len() > 1`.
  unfoldable pub pad_to_one : ℕ → List PieceInfo → Result PieceError (List PieceInfo)
  pad_to_one zero stack = stuck
  pad_to_one (suc fuel) stack =
      let more = (do
        top ← peek stack
        padding ← zero_padding top.size
        stack' ← shift_reduce padding stack
        pad_to_one fuel stack') in
      if ltb 1 (length stack) then more else ok stack

  module _ (empty_comm_d : ℕ → Commitment) where
    unfoldable pub compute_comm_d : ℕ → List PieceInfo → Result PieceError Commitment
    compute_comm_d sector_size [] = ok (empty_comm_d sector_size)
    compute_comm_d sector_size (first ∷ pieces) = do
      ensure (leb (length (first ∷ pieces)) (unpadded sector_size / minimum_piece_size))
          too_many_pieces
      ensure (leb (padded_sum (first ∷ pieces)) sector_size) larger_than_sector
      ensure (is_power_of_two (padded first.size)) not_power_of_two
      stack ← shift_pieces pieces (first ∷ [])
      stack' ← pad_to_one rounds stack
      ensure (length stack' == 1) stack_size
      (piece, _) ← pop stack'
      ok piece.commitment

    unfoldable pub verify_pieces : Commitment → List PieceInfo → ℕ → Result PieceError Bool
    verify_pieces comm_d piece_infos sector_size = do
      comm_d_calculated ← compute_comm_d sector_size piece_infos
      ok (bytes_eq comm_d_calculated comm_d)
