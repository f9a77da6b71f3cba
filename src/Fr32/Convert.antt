-- ===== src/Fr32/Convert.antt =====
-- fr32/src/convert.rs: bytes that are made to fit into the field.
use rust_fil_proofs.Base.{
  ℕ, zero, suc, List, [], ◌∷◌, Result, ok, panic, ◌==◌, if◌then◌else◌, length,
}
use Prim.Native.Nat.{bit_and}

-- `bytes[i] &= 0b0011_1111`.
unfoldable pub mask_at : ℕ → List ℕ → List ℕ
mask_at i [] = []
mask_at zero (b ∷ bytes) = bit_and b 63 ∷ bytes
mask_at (suc i) (b ∷ bytes) = b ∷ mask_at i bytes

-- The copy into an array of 32 bytes panics for another length.
unfoldable pub bytes_into_fr_repr_safe : {E : Type 0} → List ℕ → Result E (List ℕ)
bytes_into_fr_repr_safe le_bytes = if length le_bytes == 32 then ok (mask_at 31 le_bytes) else panic
