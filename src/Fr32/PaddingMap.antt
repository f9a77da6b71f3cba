-- ===== src/Fr32/PaddingMap.antt =====
-- `PaddingMap`, `BitByte`, `to_padded_bytes` and `to_unpadded_bytes` of fr32/src/padding.rs.
-- `usize` is 64 bits wide, and products wrap.
use rust_fil_proofs.Base.{ℕ, ◌+◌, ◌*◌, ◌/◌, ◌%◌, ◌==◌, if◌then◌else◌, Bool, true, false, u64, sub64}
use rust_fil_proofs.Fr32.Float.{as_f64}

pub record PaddingMap : Type 0 where
  pub data_bits : ℕ
  pub element_bits : ℕ

abbrev pub fr32_padding_map : PaddingMap
fr32_padding_map = record { data_bits = 254; element_bits = 256 }

pub record BitByte : Type 0 where
  pub bytes : ℕ
  pub bits : ℕ

unfoldable pub from_bits : ℕ → BitByte
from_bits bits = record { bytes = bits / 8; bits = bits % 8 }

unfoldable pub total_bits : BitByte → ℕ
total_bits b = u64 (b.bytes * 8 + b.bits)

unfoldable pub bytes_needed : BitByte → ℕ
bytes_needed b = b.bytes + (if b.bits == 0 then 0 else 1)

unfoldable pub div_rem : ℕ → ℕ → ℕ × ℕ
div_rem a b = (a / b, a % b)

unfoldable pub pad_bits : PaddingMap → ℕ
pad_bits m = sub64 m.element_bits m.data_bits

unfoldable pub transform_bit_offset : PaddingMap → ℕ → Bool → ℕ
unfolding div_rem
transform_bit_offset m pos padding =
    let (from_size, to_size) =
      (if padding then (m.data_bits, m.element_bits) else (m.element_bits, m.data_bits)) in
    let (full_elements, incomplete_data) = div_rem pos from_size in
    u64 (full_elements * to_size + incomplete_data)

-- The quotient by 8 of an `f64` is exact, so `ceil` and `floor` are those of the rounded number.
unfoldable pub transform_byte_offset : PaddingMap → ℕ → Bool → ℕ
unfolding transform_bit_offset as_f64
transform_byte_offset m pos padding =
    let transformed_bit_pos = transform_bit_offset m (u64 (pos * 8)) padding in
    let rounded = as_f64 transformed_bit_pos in if padding then (rounded + 7) / 8 else rounded / 8

-- The start of the next element in bytes, and the bits left in the current data unit.
unfoldable pub next_boundary : PaddingMap → BitByte → ℕ × ℕ
unfolding total_bits div_rem pad_bits
next_boundary m position =
    let position_bits = total_bits position in
    let bits_after_last_boundary = (div_rem position_bits m.element_bits).1 in
    let remaining_data_unit_bits = sub64 m.data_bits bits_after_last_boundary in
    (u64 (position_bits + remaining_data_unit_bits + pad_bits m) / 8, remaining_data_unit_bits)

unfoldable pub to_unpadded_bytes : ℕ → ℕ
unfolding transform_byte_offset
to_unpadded_bytes padded_bytes = transform_byte_offset fr32_padding_map padded_bytes false

unfoldable pub to_padded_bytes : ℕ → ℕ
unfolding transform_byte_offset
to_padded_bytes unpadded_bytes = transform_byte_offset fr32_padding_map unpadded_bytes true
