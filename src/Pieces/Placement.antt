-- ===== src/Pieces/Placement.antt =====
-- Where pieces come to lie (filecoin-proofs/src/pieces.rs): every piece starts at a multiple of
-- the power-of-two size that it fills, and no piece reaches into another.
use native.Mathlib.Nat.{mod-lt, div-add-mod, mul-mod_right}
use native.Mathlib.Decide.{dec_lt}
use rust_fil_proofs.Base.{
  ℕ, zero, suc, ◌+◌, ◌-◌, ◌*◌, ◌/◌, ◌%◌, ◌^◌, ◌<◌, ◌≤◌, ◌≡◌, refl, ◌⊎◌, inl, inr, arith, Result, ok,
  u64, sub64, ltb, lt→ltb, ge→ltb, if◌then◌else◌,
}
use rust_fil_proofs.Base.Powers.{two_pow-suc, two_pow-le, two_pow_pos, lt_of_two_pow-lt}
use rust_fil_proofs.Pieces.Sizes.{piece_size}
use rust_fil_proofs.Pieces.Stack.{PieceError, minimum_piece_size, rounds}
use rust_fil_proofs.Pieces.Alignment.{PieceAlignment, bytes_needed_loop, get_piece_alignment}

-- The level of the smallest full piece that holds `n` bytes.
pub record Fits (n k : ℕ) : Type 0 where
  pub holds : n ≤ piece_size k
  pub smallest : (k ≡ 0) ⊎ (piece_size k < 2 * n)

pub record Needed (r : Result PieceError ℕ) (n : ℕ) : Type 0 where
  pub level : ℕ
  pub returns : r ≡ ok (piece_size level)
  pub fits : Fits n level
  pub small : level ≤ 48

bytes_needed_loop-Needed :
    (fuel k n : ℕ)
    → (k ≡ 0) ⊎ (piece_size k < 2 * n)
    → n ≤ piece_size 48
    → k ≤ 48
    → 48 - k < fuel
    → Needed (bytes_needed_loop fuel (piece_size k) n) n
unfolding bytes_needed_loop
bytes_needed_loop-Needed zero k n s h b f = absurd (omega arith)
bytes_needed_loop-Needed (suc fuel) k n s h b f = elim (dec_lt (piece_size k) n) [
  | yes lt ↦
      let below : k < 48 = lt_of_two_pow-lt k 48 (omega arith) in
      let double : u64 (piece_size k * 2) ≡ piece_size (suc k) =
        omega (arith, two_pow-suc k, two_pow-le k 48 b) in
      rw (lt→ltb (piece_size k) n lt, double)
        (bytes_needed_loop-Needed fuel (suc k) n (inr (omega (arith, two_pow-suc k))) h below
          (omega arith))
  | no ge ↦ record {
    level = k;
    returns = rw (ge→ltb (piece_size k) n (omega arith)) refl;
    fits = record { holds = omega arith; smallest = s };
    small = b;
  }
]

-- What `get_piece_alignment` is to give.
pub record IsPlaced (written n : ℕ) (a : PieceAlignment) (k : ℕ) : Type 0 where
  pub fits : Fits n k
  pub starts : (written + a.left_bytes) % piece_size k ≡ 0
  pub gap : a.left_bytes < piece_size k
  pub filled : n + a.right_bytes ≡ piece_size k
  pub level_small : k ≤ 48

alignment_of_needed :
    (written n k : ℕ)
    → bytes_needed_loop rounds minimum_piece_size n ≡ ok (piece_size k)
    → get_piece_alignment written n
      ≡ ok (record {
        left_bytes =
            (if ltb 0 (written % piece_size k)
              then sub64 (piece_size k) (written % piece_size k)
              else 0);
        right_bytes = sub64 (piece_size k) n;
      })
unfolding get_piece_alignment
alignment_of_needed written n k h = rw h refl

-- The bytes on the left bring the start to the next multiple.
abbrev gap : ℕ → ℕ → ℕ
gap w m = if ltb 0 (w % m) then sub64 m (w % m) else 0

gap_lem : (w m : ℕ) → 0 < m → m < 2 ^ 60 → (gap w m < m) × ((w + gap w m) % m ≡ 0)
gap_lem w m h b = elim (dec_lt 0 (w % m)) [
  | yes p ↦
      let inside : w % m < m = mod-lt w h in
      let d : sub64 m (w % m) ≡ m - w % m = omega arith in
      let e : w + (m - w % m) ≡ m * suc (w / m) = omega (arith, div-add-mod w m) in
      rw (lt→ltb 0 (w % m) p, d) (omega arith, rw e (mul-mod_right m (suc (w / m))))
  | no p ↦
      let none : w % m ≡ 0 = omega arith in
      rw (ge→ltb 0 (w % m) (omega arith)) (h, (let z : w + 0 ≡ w = omega arith in rw z none))
]

-- What `get_piece_alignment` gives: the piece starts at a multiple of the smallest full size that
-- holds it, and fills that size with the bytes on its right.
pub record Placed (r : Result PieceError PieceAlignment) (written n : ℕ) : Type 0 where
  pub alignment : PieceAlignment
  pub level : ℕ
  pub returns : r ≡ ok alignment
  pub placed : IsPlaced written n alignment level

pub get_piece_alignment-Placed :
    (written n : ℕ) → n ≤ piece_size 48 → Placed (get_piece_alignment written n) written n
get_piece_alignment-Placed written n h =
    let needed : Needed (bytes_needed_loop rounds minimum_piece_size n) n =
      bytes_needed_loop-Needed rounds 0 n (inl refl) h (omega arith) (omega arith) in
    let k = needed.level in
    let size_small : piece_size k < 2 ^ 60 = omega (arith, two_pow-le k 48 needed.small) in
    let g = gap_lem written (piece_size k) (omega (arith, two_pow_pos k)) size_small in
    record {
      alignment = record {
        left_bytes = gap written (piece_size k);
        right_bytes = sub64 (piece_size k) n;
      };
      level = k;
      returns = alignment_of_needed written n k needed.returns;
      placed = record {
        fits = needed.fits;
        starts = g.1;
        gap = g.0;
        filled = omega (arith, needed.fits.holds);
        level_small = needed.small;
      };
    }
