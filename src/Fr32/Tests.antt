-- ===== src/Fr32/Tests.antt =====
-- The padding arithmetic (fr32/src/padding.rs) at concrete sizes.
use rust_fil_proofs.Base.{◌+◌, ◌*◌, ◌^◌, ◌≤◌, ◌↔◌, ◌≡◌, refl, arith}
use rust_fil_proofs.Fr32.Float.{as_f64}
use rust_fil_proofs.Fr32.PaddingMap.{
  fr32_padding_map, next_boundary, to_padded_bytes, to_unpadded_bytes,
}
use rust_fil_proofs.Fr32.Offsets.{
  to_padded_bytes-least, data_bits_among, to_unpadded_bytes-to_padded_bytes, next_boundary_lem,
}

as_f64_ties : as_f64 (2 ^ 54 + 2) ≡ 2 ^ 54
unfolding as_f64
as_f64_ties = refl

as_f64_rounds_up : as_f64 (2 ^ 54 + 3) ≡ 2 ^ 54 + 4
unfolding as_f64
as_f64_rounds_up = refl

to_unpadded_bytes-to_padded_bytes_example : to_unpadded_bytes (to_padded_bytes 200) ≡ 200
to_unpadded_bytes-to_padded_bytes_example = to_unpadded_bytes-to_padded_bytes 200 (omega arith)

to_padded_bytes-least_example : (to_padded_bytes 32 ≤ 33) ↔ (32 * 8 ≤ data_bits_among (33 * 8))
to_padded_bytes-least_example = to_padded_bytes-least 32 33 (omega arith)

next_boundary_lem_example :
    let e = next_boundary fr32_padding_map (record { bytes = 40; bits = 3 }) in
    (e.0 ≡ 64) × (40 * 8 + 3 + e.1 + 2 ≡ e.0 * 8)
next_boundary_lem_example =
    next_boundary_lem (record { bytes = 40; bits = 3 }) (omega arith) (omega arith) (omega arith)
