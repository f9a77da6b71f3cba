-- ===== src/Feistel/Rounds.antt =====
-- `encode` and `decode` of storage-proofs-core/src/crypto/feistel.rs are inverse on the numbers of
-- twice the half width, whatever the hash is.
use native.Mathlib.Nat.{
  mod-lt, mod-eq_of_lt, div-lt_iff_lt-mul, div-add-mod', mul-add-mod_self_right, add-mul-div_right,
  div-eq_of_lt, mul-le-mul,
}
use rust_fil_proofs.Base.{
  ℕ, ◌+◌, ◌-◌, ◌*◌, ◌/◌, ◌%◌, ◌^◌, ◌<◌, ◌≤◌, ◌≡◌, refl, ap, ◌∙◌, arith, List, [], ◌∷◌, some, take,
}
use rust_fil_proofs.Base.Powers.{two_pow_pos, two_pow-le}
use rust_fil_proofs.Base.Bits.{
  bit_xor_cancel, bit_xor-lt_two_pow, bit_or_fields, bit_and_mask, bit_and_high_mask,
}
use rust_fil_proofs.Feistel.Network.{
  masks, common_setup, join, feistel, encode_round, decode_round, encode_rounds, decode_rounds,
  encode, decode,
}

abbrev pub IsHalves : ℕ → ℕ × ℕ → Type 0
IsHalves h s = (s.0 < 2 ^ h) × (s.1 < 2 ^ h)

shifted_fits : (h x : ℕ) → h ≤ 31 → x < 2 ^ h → x * 2 ^ h < 2 ^ 64
shifted_fits h x b p =
    let small : 2 ^ h ≤ 2 ^ 31 = two_pow-le h 31 b in
    let inside : x ≤ 2 ^ 31 = omega arith in
    let product : x * 2 ^ h ≤ 2 ^ 31 * 2 ^ 31 = mul-le-mul inside small in omega (arith, product)

join-eq : (h l r : ℕ) → h ≤ 31 → l < 2 ^ h → r < 2 ^ h → join h (l, r) ≡ l * 2 ^ h + r
unfolding join
join-eq h l r b p q = rw (mod-eq_of_lt (shifted_fits h l b p)) (bit_or_fields h l r q)

common_setup-eq : (h n : ℕ) → h ≤ 31 → common_setup n (masks h) ≡ (n / 2 ^ h % 2 ^ h, n % 2 ^ h)
unfolding common_setup masks
common_setup-eq h n b =
    let fits : (2 ^ h - 1) * 2 ^ h < 2 ^ 64 =
      shifted_fits h (2 ^ h - 1) b (omega (arith, two_pow_pos h)) in
    rw (mod-eq_of_lt fits, bit_and_high_mask h h n, bit_and_mask h n) refl

quotient_of_sum : (l r m : ℕ) → r < m → (l * m + r) / m ≡ l
quotient_of_sum l r m h =
    let e : l * m + r ≡ r + l * m = omega arith in
    let pos : 0 < m = omega arith in rw (e, add-mul-div_right r l pos, div-eq_of_lt h) (omega arith)

remainder_of_sum : (l r m : ℕ) → r < m → (l * m + r) % m ≡ r
remainder_of_sum l r m h = mul-add-mod_self_right l m r ∙ mod-eq_of_lt h

-- The halves of a joined number.
halves_of_join :
    (h l r : ℕ) → h ≤ 31 → l < 2 ^ h → r < 2 ^ h → common_setup (join h (l, r)) (masks h) ≡ (l, r)
halves_of_join h l r b p q =
    rw
      (
        join-eq h l r b p q,
        common_setup-eq h (l * 2 ^ h + r) b,
        quotient_of_sum l r (2 ^ h) q,
        remainder_of_sum l r (2 ^ h) q,
        mod-eq_of_lt p,
      )
      refl

join_of_halves : (h n : ℕ) → h ≤ 31 → n < 2 ^ h * 2 ^ h → join h (n / 2 ^ h % 2 ^ h, n % 2 ^ h) ≡ n
join_of_halves h n b p =
    let small : n / 2 ^ h < 2 ^ h = (div-lt_iff_lt-mul (two_pow_pos h)).1 p in
    rw (mod-eq_of_lt small) (
      join-eq h (n / 2 ^ h) (n % 2 ^ h) b small (mod-lt n (two_pow_pos h)) ∙ div-add-mod' n (2 ^ h))

module _ (blake2b : List ℕ → ℕ → ℕ) where
  feistel-lt : (h right key : ℕ) → feistel blake2b right key (2 ^ h - 1) < 2 ^ h
  unfolding feistel
  feistel-lt h right key = rw (bit_and_mask h _) (mod-lt _ (two_pow_pos h))

  encode_round-IsHalves :
      (h key : ℕ) (s : ℕ × ℕ) → IsHalves h s → IsHalves h (encode_round blake2b (2 ^ h - 1) key s)
  unfolding encode_round
  encode_round-IsHalves h key (l, r) (p, q) =
      (q, bit_xor-lt_two_pow h l (feistel blake2b r key (2 ^ h - 1)) p (feistel-lt h r key))

  encode_rounds-IsHalves :
      (h : ℕ) (keys : List ℕ) (s : ℕ × ℕ)
      → IsHalves h s
      → IsHalves h (encode_rounds blake2b (2 ^ h - 1) keys s)
  unfolding encode_rounds
  encode_rounds-IsHalves h [] s p = p
  encode_rounds-IsHalves h (key ∷ keys) s p =
      encode_rounds-IsHalves h keys _ (encode_round-IsHalves h key s p)

  decode_round-encode_round :
      (m key : ℕ) (s : ℕ × ℕ) → decode_round blake2b m key (encode_round blake2b m key s) ≡ s
  unfolding decode_round encode_round
  decode_round-encode_round m key (l, r) = rw (bit_xor_cancel l (feistel blake2b r key m)) refl

  decode_rounds-encode_rounds :
      (m a b c : ℕ) (keys : List ℕ) (s : ℕ × ℕ)
      → decode_rounds blake2b m 3
          (a ∷ b ∷ c ∷ keys)
          (encode_rounds blake2b m (take 3 (a ∷ b ∷ c ∷ keys)) s)
        ≡ some s
  unfolding decode_rounds encode_rounds
  decode_rounds-encode_rounds m a b c keys s =
      rw
        (
          decode_round-encode_round m c _,
          decode_round-encode_round m b _,
          decode_round-encode_round m a s,
        )
        refl

  -- What `encode` gives is in range, and `decode` takes it back.
  pub record Invertible (h index : ℕ) (keys : List ℕ) : Type 0 where
    pub in_range : encode blake2b index keys (masks h) < 2 ^ h * 2 ^ h
    pub back : decode blake2b (encode blake2b index keys (masks h)) keys (masks h) ≡ some index

  encode-eq :
      (h index : ℕ) (keys : List ℕ) (s : ℕ × ℕ)
      → common_setup index (masks h) ≡ s
      → encode blake2b index keys (masks h)
        ≡ join h (encode_rounds blake2b (2 ^ h - 1) (take 3 keys) s)
  unfolding encode masks
  encode-eq h index keys s e = rw e refl

  decode-eq :
      (h index : ℕ) (keys : List ℕ) (s t : ℕ × ℕ)
      → common_setup index (masks h) ≡ s
      → decode_rounds blake2b (2 ^ h - 1) 3 keys s ≡ some t
      → decode blake2b index keys (masks h) ≡ some (join h t)
  unfolding decode masks
  decode-eq h index keys s t e f = rw (e, f) refl

  pub encode-Invertible :
      (h index a b c : ℕ) (keys : List ℕ)
      → h ≤ 31
      → index < 2 ^ h * 2 ^ h
      → Invertible h index (a ∷ b ∷ c ∷ keys)
  encode-Invertible h index a b c keys bound p =
      let ks : List ℕ = a ∷ b ∷ c ∷ keys in
      let s : ℕ × ℕ = (index / 2 ^ h % 2 ^ h, index % 2 ^ h) in
      let start : IsHalves h s = (mod-lt _ (two_pow_pos h), mod-lt _ (two_pow_pos h)) in
      let t : ℕ × ℕ = encode_rounds blake2b (2 ^ h - 1) (take 3 ks) s in
      let end : IsHalves h t = encode_rounds-IsHalves h (take 3 ks) s start in
      let e : encode blake2b index ks (masks h) ≡ join h t =
        encode-eq h index ks s (common_setup-eq h index bound) in
      record {
        in_range = rw (e, join-eq h t.0 t.1 bound end.0 end.1) (grind (arith, end.0, end.1));
        back = rw e (
            decode-eq h (join h t) ks t s (halves_of_join h t.0 t.1 bound end.0 end.1)
              (decode_rounds-encode_rounds (2 ^ h - 1) a b c keys s)
            ∙ ap some (join_of_halves h index bound p));
      }
