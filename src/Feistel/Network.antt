-- ===== src/Feistel/Network.antt =====
-- The functions of storage-proofs-core/src/crypto/feistel.rs. `none` stands for a panic (fewer keys
-- than rounds in `decode`) or for a loop that has not ended within its fuel.
use Prim.Native.Nat.{bit_and, bit_or, bit_xor}
use rust_fil_proofs.Base.{
  ℕ, zero, suc, ◌+◌, ◌-◌, ◌*◌, ◌^◌, List, [], ◌∷◌, ◌++◌, map, Option, none, some, ltb,
  if◌then◌else◌, u8, u64, ◌<<◌, ◌>>>◌, take, get_elem?,
}

abbrev pub feistel_rounds : ℕ
feistel_rounds = 3

pub record FeistelPrecomputed : Type 0 where
  pub left_mask : ℕ
  pub right_mask : ℕ
  pub half_bits : ℕ

infixl 5 ◌>>=◌
abbrev pub ◌>>=◌ {ℓ κ} : {A : Type ℓ} {B : Type κ} → Option A → (A → Option B) → Option B
none >>= f = none
some a >>= f = f a

-- `while next_pow4 < num_elements`: counts the factors of four.
unfoldable pub log4_loop : ℕ → ℕ → ℕ → ℕ → Option ℕ
log4_loop zero next_pow4 log4 num_elements = none
log4_loop (suc fuel) next_pow4 log4 num_elements =
    let more = log4_loop fuel (u64 (next_pow4 * 4)) (log4 + 1) num_elements in
    if ltb next_pow4 num_elements then more else some log4

unfoldable pub masks : ℕ → FeistelPrecomputed
masks log4 = record {
  left_mask = u64 ((2 ^ log4 - 1) << log4);
  right_mask = 2 ^ log4 - 1;
  half_bits = log4;
}

-- A `u64` has 32 factors of four.
unfoldable pub precompute : ℕ → Option FeistelPrecomputed
precompute num_elements = do log4 ← log4_loop 32 4 1 num_elements; some (masks log4)

-- Eight bytes, the highest first.
unfoldable pub be_bytes : ℕ → List ℕ
be_bytes x = map (λ s. u8 (x >>> s)) (56 ∷ 48 ∷ 40 ∷ 32 ∷ 24 ∷ 16 ∷ 8 ∷ 0 ∷ [])

unfoldable pub common_setup : ℕ → FeistelPrecomputed → ℕ × ℕ
common_setup index p = (bit_and index p.left_mask >>> p.half_bits, bit_and index p.right_mask)

unfoldable pub join : ℕ → ℕ × ℕ → ℕ
join half_bits (left, right) = bit_or (u64 (left << half_bits)) right

module _ (blake2b : List ℕ → ℕ → ℕ) where
  -- The round function: `FEISTEL_BYTES` is 16, so the second branch of the source is taken.
  unfoldable pub feistel : ℕ → ℕ → ℕ → ℕ
  feistel right key right_mask =
      let hash = blake2b (be_bytes right ++ be_bytes key) in
      let r = bit_or (u64 (hash 0 << 56)) (
        bit_or (u64 (hash 1 << 48)) (
          bit_or (u64 (hash 2 << 40)) (
            bit_or (u64 (hash 3 << 32)) (
              bit_or (u64 (hash 4 << 24))
                (bit_or (u64 (hash 5 << 16)) (bit_or (u64 (hash 6 << 8)) (hash 7))))))) in
      bit_and r right_mask

  unfoldable pub encode_round : ℕ → ℕ → ℕ × ℕ → ℕ × ℕ
  encode_round right_mask key (left, right) = (right, bit_xor left (feistel right key right_mask))

  unfoldable pub decode_round : ℕ → ℕ → ℕ × ℕ → ℕ × ℕ
  decode_round right_mask key (left, right) = (bit_xor right (feistel left key right_mask), left)

  -- `for key in keys.iter().take(FEISTEL_ROUNDS)`.
  unfoldable pub encode_rounds : ℕ → List ℕ → ℕ × ℕ → ℕ × ℕ
  encode_rounds right_mask [] halves = halves
  encode_rounds right_mask (key ∷ keys) halves =
      encode_rounds right_mask keys (encode_round right_mask key halves)

  -- `for i in (0..FEISTEL_ROUNDS).rev()`, with `rounds` of them left.
  unfoldable pub decode_rounds : ℕ → ℕ → List ℕ → ℕ × ℕ → Option (ℕ × ℕ)
  decode_rounds right_mask zero keys halves = some halves
  decode_rounds right_mask (suc i) keys halves = do
    key ← get_elem? keys i
    decode_rounds right_mask i keys (decode_round right_mask key halves)

  unfoldable pub encode : ℕ → List ℕ → FeistelPrecomputed → ℕ
  encode index keys p =
      join p.half_bits
        (encode_rounds p.right_mask (take feistel_rounds keys) (common_setup index p))

  unfoldable pub decode : ℕ → List ℕ → FeistelPrecomputed → Option ℕ
  decode index keys p = do
    halves ← decode_rounds p.right_mask feistel_rounds keys (common_setup index p)
    some (join p.half_bits halves)

-- `while u >= num_elements { u = f(u) }`.
unfoldable pub walk : (ℕ → Option ℕ) → ℕ → ℕ → ℕ → Option ℕ
walk f num_elements zero u = none
walk f num_elements (suc fuel) u =
    let more = (do v ← f u; walk f num_elements fuel v) in
    if ltb u num_elements then some u else more

module _ (blake2b : List ℕ → ℕ → ℕ) where
  -- The network permutes `4 ^ half_bits` numbers, so a walk that has not come back to its start
  -- takes fewer steps than that.
  unfoldable pub permute : ℕ → ℕ → List ℕ → FeistelPrecomputed → Option ℕ
  permute num_elements index keys p =
      walk (λ u. some (encode blake2b u keys p)) num_elements (4 ^ p.half_bits)
        (encode blake2b index keys p)

  unfoldable pub invert_permute : ℕ → ℕ → List ℕ → FeistelPrecomputed → Option ℕ
  invert_permute num_elements index keys p = do
    u ← decode blake2b index keys p
    walk (λ v. decode blake2b v keys p) num_elements (4 ^ p.half_bits) u
