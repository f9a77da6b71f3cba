-- ===== src/Fr32/Offsets.antt =====
-- Byte offsets under padding and unpadding (fr32/src/padding.rs), within the sizes at which
-- neither `u64` nor `f64` loses anything.
use rust_fil_proofs.Base.{
  ℕ, zero, suc, ◌+◌, ◌*◌, ◌/◌, ◌%◌, ◌^◌, ◌<◌, ◌≤◌, ◌≡◌, ◌↔◌, ◌∙◌, refl, arith, true, false, u64,
  min, ltb, if◌then◌else◌,
}
use rust_fil_proofs.Fr32.Float.{as_f64, as_f64-eq_of_lt}
use rust_fil_proofs.Fr32.PaddingMap.{
  fr32_padding_map, BitByte, transform_bit_offset, to_padded_bytes, to_unpadded_bytes,
  next_boundary,
}

-- Sizes up to 2 ^ 49 bytes, 512 TiB.
abbrev pub IsExact : ℕ → Type 0
IsExact n = n < 2 ^ 49

pad_bit_offset :
    (n : ℕ)
    → IsExact n
    → transform_bit_offset fr32_padding_map (u64 (n * 8)) true ≡ n * 8 / 254 * 256 + n * 8 % 254
unfolding transform_bit_offset
pad_bit_offset n h = omega arith

unpad_bit_offset :
    (n : ℕ)
    → IsExact n
    → transform_bit_offset fr32_padding_map (u64 (n * 8)) false ≡ n * 8 / 256 * 254 + n * 8 % 256
unfolding transform_bit_offset
unpad_bit_offset n h = omega arith

pub to_padded_bytes-eq :
    (n : ℕ) → IsExact n → to_padded_bytes n ≡ (n * 8 / 254 * 256 + n * 8 % 254 + 7) / 8
to_padded_bytes-eq n h =
    let bits : ℕ = n * 8 / 254 * 256 + n * 8 % 254 in
    let small : bits < 2 ^ 53 = omega arith in
    let whole : to_padded_bytes n
        ≡ (as_f64 (transform_bit_offset fr32_padding_map (u64 (n * 8)) true) + 7) / 8 =
      unfold to_padded_bytes in refl in
    rw (whole, pad_bit_offset n h, as_f64-eq_of_lt bits small) refl

pub to_unpadded_bytes-eq :
    (n : ℕ) → IsExact n → to_unpadded_bytes n ≡ (n * 8 / 256 * 254 + n * 8 % 256) / 8
to_unpadded_bytes-eq n h =
    let bits : ℕ = n * 8 / 256 * 254 + n * 8 % 256 in
    let small : bits < 2 ^ 53 = omega arith in
    let whole : to_unpadded_bytes n
        ≡ as_f64 (transform_bit_offset fr32_padding_map (u64 (n * 8)) false) / 8 =
      unfold to_unpadded_bytes in refl in
    rw (whole, unpad_bit_offset n h, as_f64-eq_of_lt bits small) refl

-- Whole groups of 127 bytes become whole groups of 128.
pub to_padded_bytes_groups : (k : ℕ) → IsExact (127 * k) → to_padded_bytes (127 * k) ≡ 128 * k
to_padded_bytes_groups k h = to_padded_bytes-eq (127 * k) h ∙ omega arith

-- The data bits among the first `bits` bits of the padded layout: in each element of 256 bits, the
-- first 254.
unfoldable pub data_bits_among : ℕ → ℕ
data_bits_among zero = 0
data_bits_among (suc bit) =
    let before = data_bits_among bit in if ltb (bit % 256) 254 then before + 1 else before

data_bits_among-eq : (bits : ℕ) → data_bits_among bits ≡ bits / 256 * 254 + min (bits % 256) 254
unfolding data_bits_among
data_bits_among-eq zero = omega arith
data_bits_among-eq (suc bit) = ground (arith, data_bits_among-eq bit)

-- Below 2 ^ 49 raw bytes, the padded size is the least number of bytes of the padded layout with
-- room for the raw bits: as many bytes as it, or more, hold as many data bits as the raw bytes have
-- bits, and fewer do not.
pub to_padded_bytes-least :
    (n m : ℕ) → IsExact n → (to_padded_bytes n ≤ m) ↔ (n * 8 ≤ data_bits_among (m * 8))
to_padded_bytes-least n m h =
    rw (to_padded_bytes-eq n h, data_bits_among-eq (m * 8)) (λ e. omega arith, λ e. omega arith)

-- Unpadding gives the number of raw bytes back.
pub to_unpadded_bytes-to_padded_bytes :
    (n : ℕ) → n < 2 ^ 48 → to_unpadded_bytes (to_padded_bytes n) ≡ n
to_unpadded_bytes-to_padded_bytes n h =
    let p : ℕ = (n * 8 / 254 * 256 + n * 8 % 254 + 7) / 8 in
    rw (to_padded_bytes-eq n (omega arith), to_unpadded_bytes-eq p (omega arith)) (omega arith)

-- From a position inside the data unit of an element, `next_boundary` names the end of the data
-- unit and the first byte of the next element.
pub next_boundary_lem :
    (p : BitByte)
    → p.bits < 8
    → p.bytes < 2 ^ 48
    → (p.bytes * 8 + p.bits) % 256 < 254
    → let e = next_boundary fr32_padding_map p in
      (e.0 ≡ (p.bytes / 32 + 1) * 32) × (p.bytes * 8 + p.bits + e.1 + 2 ≡ e.0 * 8)
unfolding next_boundary
next_boundary_lem p hb hs hd = (omega arith, omega arith)
