-- ===== src/Pieces/Sizes.antt =====
-- Amounts of bytes with and without bit padding (filecoin-proofs/src/types/bytes_amount.rs and
-- sector_size.rs), and `u64::is_power_of_two`.
use rust_fil_proofs.Base.{
  ℕ, zero, suc, ◌+◌, ◌*◌, ◌^◌, ◌<◌, ◌≡◌, refl, sym, arith, Bool, true, false, ◌||◌, ◌==◌, ==_iff,
  u64, sub64,
}
use native.Mathlib.Decide.{ℕ_discrete}
use rust_fil_proofs.Base.Powers.{two_pow-le, two_pow-add}
use rust_fil_proofs.Fr32.PaddingMap.{to_padded_bytes, to_unpadded_bytes}
use rust_fil_proofs.Fr32.Offsets.{to_padded_bytes_groups}

-- `PaddedBytesAmount::from(n)` for an `UnpaddedBytesAmount`, and back; a `SectorSize` counts
-- padded bytes.
unfoldable pub padded : ℕ → ℕ
padded n = to_padded_bytes n

unfoldable pub unpadded : ℕ → ℕ
unpadded n = to_unpadded_bytes n

-- `Add` and `Sub` of both kinds of amount.
unfoldable pub add_bytes : ℕ → ℕ → ℕ
add_bytes a b = u64 (a + b)

unfoldable pub sub_bytes : ℕ → ℕ → ℕ
sub_bytes a b = sub64 a b

pub add_bytes-eq : (a b : ℕ) → a + b < 2 ^ 64 → add_bytes a b ≡ a + b
unfolding add_bytes
add_bytes-eq a b h = omega arith

-- Is `n` one of the `k` lowest powers of two?
is_power_below : ℕ → ℕ → Bool
is_power_below zero n = false
is_power_below (suc k) n = n == 2 ^ k || is_power_below k n

unfoldable pub is_power_of_two : ℕ → Bool
unfolding is_power_below
is_power_of_two n = is_power_below 64 n

is_power_below_two_pow : (k j : ℕ) → j < k → is_power_below k (2 ^ j) ≡ true
unfolding is_power_below
is_power_below_two_pow zero j h = absurd (omega arith)
is_power_below_two_pow (suc k) j h = elim (ℕ_discrete j k) [
  | yes e ↦ rw (e, (==_iff (2 ^ k) (2 ^ k)).1 refl) refl
  | no e ↦ ground (arith, is_power_below_two_pow k j (omega arith))
]

pub is_power_of_two_pow : (j : ℕ) → j < 64 → is_power_of_two (2 ^ j) ≡ true
is_power_of_two_pow j h = unfold is_power_of_two in is_power_below_two_pow 64 j h

-- A piece of level `k` has 127 * 2 ^ k bytes before bit padding and 2 ^ (k + 7) after it.
abbrev pub piece_size : ℕ → ℕ
piece_size k = 127 * 2 ^ k

-- Every level in use is below this one, so that sizes and their sums stay far below 2 ^ 64.
abbrev pub max_level : ℕ
max_level = 42

pub piece_size-lt : (k : ℕ) → k < 42 → piece_size k < 2 ^ 48
piece_size-lt k h = omega (arith, two_pow-le k 41 (omega arith))

pub padded-piece_size : (k : ℕ) → k < 42 → padded (piece_size k) ≡ 128 * 2 ^ k
padded-piece_size k h =
    unfold padded in to_padded_bytes_groups (2 ^ k) (omega (arith, piece_size-lt k h))

pub padded-IsPower : (k : ℕ) → k < 42 → is_power_of_two (padded (piece_size k)) ≡ true
padded-IsPower k h =
    let e : 128 * 2 ^ k ≡ 2 ^ (7 + k) = sym (two_pow-add 7 k) in
    rw (padded-piece_size k h, e) (is_power_of_two_pow (7 + k) (omega arith))
