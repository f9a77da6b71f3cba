-- ===== src/Pieces/Layout.antt =====
-- The layout of the pieces of a staged sector (filecoin-proofs/src/pieces.rs): where the next piece
-- starts, what the sector's length becomes, and what is written.
use rust_fil_proofs.Base.{
  ℕ, ◌+◌, ◌%◌, ◌^◌, ◌<◌, ◌≤◌, ◌≡◌, refl, ap, ◌∙◌, arith, List, [], ◌∷◌, ◌++◌, ok, >>=-eq-ok, length,
  length-append, length-replicate, replicate,
}
use rust_fil_proofs.Base.Powers.{two_pow-le}
use rust_fil_proofs.Pieces.Sizes.{piece_size, add_bytes, add_bytes-eq}
use rust_fil_proofs.Pieces.Alignment.{
  PieceAlignment, sum, get_piece_alignment, sum_from, sum_piece_bytes_with_alignment,
  get_piece_start_byte, with_alignment, get_aligned_source,
}
use rust_fil_proofs.Pieces.Placement.{Fits, IsPlaced, get_piece_alignment-Placed}

-- One more piece: the fold is continued from where it stood.
sum_from_snoc :
    (acc n last end : ℕ) (pieces : List ℕ) (a : PieceAlignment)
    → sum_from acc pieces ≡ ok last
    → get_piece_alignment last n ≡ ok a
    → add_bytes last (sum a n) ≡ end
    → sum_from acc (pieces ++ n ∷ []) ≡ ok end
unfolding sum_from
sum_from_snoc acc n last end [] a h p e = ground (arith, h, p, e)
sum_from_snoc acc n last end (m ∷ pieces) a h p e =
    let (b, q, t) =
      >>=-eq-ok (get_piece_alignment acc m)
        (λ (b : PieceAlignment). sum_from (add_bytes acc (sum b m)) pieces) h in
    rw q (sum_from_snoc (add_bytes acc (sum b m)) n last end pieces a t p e)

-- The piece behind `pieces`, which fill the sector up to `last`.
pub record Laid (pieces : List ℕ) (n last : ℕ) : Type 0 where
  pub start : ℕ
  pub level : ℕ
  pub starts : get_piece_start_byte pieces n ≡ ok start
  pub multiple : start % piece_size level ≡ 0
  pub after : last ≤ start
  pub near : start < last + piece_size level
  pub fits : Fits n level
  pub next : sum_piece_bytes_with_alignment (pieces ++ n ∷ []) ≡ ok (start + piece_size level)

get_piece_start_byte_of :
    (pieces : List ℕ) (n last : ℕ) (a : PieceAlignment)
    → sum_piece_bytes_with_alignment pieces ≡ ok last
    → get_piece_alignment last n ≡ ok a
    → get_piece_start_byte pieces n ≡ ok (add_bytes last a.left_bytes)
unfolding get_piece_start_byte
get_piece_start_byte_of pieces n last a p q = rw (p, q) refl

placed_sum :
    (last n k : ℕ) (a : PieceAlignment)
    → IsPlaced last n a k
    → last < 2 ^ 62
    → add_bytes last (sum a n) ≡ last + a.left_bytes + piece_size k
unfolding add_bytes sum
placed_sum last n k a p h =
    omega (arith, p.filled, p.gap, p.fits.holds, two_pow-le k 48 p.level_small)

-- Behind pieces that end below 2 ^ 62 and for a piece of at most the 48th full size: the next piece
-- starts at a multiple of the smallest full size that holds it, at or behind the end of the pieces
-- before it and less than one such size away; the sector then ends where that size ends. So no two
-- pieces overlap.
pub get_piece_start_byte-Laid :
    (pieces : List ℕ) (n last : ℕ)
    → sum_piece_bytes_with_alignment pieces ≡ ok last
    → last < 2 ^ 62
    → n ≤ piece_size 48
    → Laid pieces n last
get_piece_start_byte-Laid pieces n last h small fits =
    let a = get_piece_alignment-Placed last n fits in
    let k = a.level in
    let bound : 2 ^ k ≤ 2 ^ 48 = two_pow-le k 48 a.placed.level_small in
    let left : add_bytes last a.alignment.left_bytes ≡ last + a.alignment.left_bytes =
      add_bytes-eq last _ (omega (arith, a.placed.gap)) in
    record {
      start = last + a.alignment.left_bytes;
      level = k;
      starts = get_piece_start_byte_of pieces n last a.alignment h a.returns ∙ ap ok left;
      multiple = a.placed.starts;
      after = omega arith;
      near = omega (arith, a.placed.gap);
      fits = a.placed.fits;
      next =
          unfold sum_piece_bytes_with_alignment in
          sum_from_snoc 0 n last _ pieces a.alignment h a.returns
            (placed_sum last n k a.alignment a.placed small);
    }

length-with_alignment :
    (source : List ℕ) (a : PieceAlignment)
    → length (with_alignment source a) ≡ a.left_bytes + length source + a.right_bytes
unfolding with_alignment
length-with_alignment source a = omega (
  arith,
  length-append (replicate a.left_bytes 0) (source ++ replicate a.right_bytes 0),
  length-append source (replicate a.right_bytes 0),
  length-replicate {A = ℕ} a.left_bytes 0,
  length-replicate {A = ℕ} a.right_bytes 0,
)

-- The reader that `get_aligned_source` hands out, and the number of bytes that it announces: the
-- piece stands where `get_piece_start_byte` says, with zeros before and behind it.
pub record Announces (source pieces : List ℕ) (n last : ℕ) : Type 0 where
  pub announced : ℕ
  pub alignment : PieceAlignment
  pub bytes : List ℕ
  pub left : ℕ
  pub right : ℕ
  pub returns : get_aligned_source source pieces n ≡ ok (announced, alignment, bytes)
  pub starts : get_piece_start_byte pieces n ≡ ok (last + left)
  pub padded : bytes ≡ replicate left 0 ++ (source ++ replicate right 0)
  pub written : length bytes ≡ announced
  pub next : sum_piece_bytes_with_alignment (pieces ++ n ∷ []) ≡ ok (last + announced)

get_aligned_source_of :
    (source pieces : List ℕ) (n last : ℕ) (a : PieceAlignment)
    → sum_piece_bytes_with_alignment pieces ≡ ok last
    → get_piece_alignment last n ≡ ok a
    → get_aligned_source source pieces n ≡ ok (sum a n, a, with_alignment source a)
unfolding get_aligned_source sum
get_aligned_source_of source pieces n last a p q = rw (p, q) refl

placed_length :
    (last n k : ℕ) (a : PieceAlignment)
    → IsPlaced last n a k
    → sum a n ≡ a.left_bytes + n + a.right_bytes
unfolding add_bytes sum
placed_length last n k a p = omega (arith, p.filled, p.gap, two_pow-le k 48 p.level_small)

-- For a source that yields the bytes of the piece, behind pieces that end below 2 ^ 62 and for a
-- piece of at most the 48th full size: the padded reader yields zeros up to the byte where
-- `get_piece_start_byte` puts the piece, then the source's bytes, then zeros, together the announced
-- number of bytes, and that number is what the piece adds to the sector.
pub get_aligned_source-Announces :
    (source pieces : List ℕ) (n last : ℕ)
    → sum_piece_bytes_with_alignment pieces ≡ ok last
    → length source ≡ n
    → last < 2 ^ 62
    → n ≤ piece_size 48
    → Announces source pieces n last
get_aligned_source-Announces source pieces n last h len small fits =
    let a = get_piece_alignment-Placed last n fits in
    let size : sum a.alignment n ≡ a.alignment.left_bytes + n + a.alignment.right_bytes =
      placed_length last n a.level a.alignment a.placed in
    let bound : 2 ^ a.level ≤ 2 ^ 48 = two_pow-le a.level 48 a.placed.level_small in
    let left : add_bytes last a.alignment.left_bytes ≡ last + a.alignment.left_bytes =
      add_bytes-eq last _ (omega (arith, a.placed.gap)) in
    record {
      announced = sum a.alignment n;
      alignment = a.alignment;
      bytes = with_alignment source a.alignment;
      left = a.alignment.left_bytes;
      right = a.alignment.right_bytes;
      returns = get_aligned_source_of source pieces n last a.alignment h a.returns;
      starts = get_piece_start_byte_of pieces n last a.alignment h a.returns ∙ ap ok left;
      padded = unfold with_alignment in refl;
      written = length-with_alignment source a.alignment ∙ omega (arith, len, size);
      next =
          unfold sum_piece_bytes_with_alignment in
          sum_from_snoc 0 n last (last + sum a.alignment n) pieces a.alignment h a.returns (
            placed_sum last n a.level a.alignment a.placed small
            ∙ omega (arith, size, a.placed.filled));
    }
