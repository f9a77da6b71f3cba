-- ===== src/Feistel/Tests.antt =====
-- The permutation of storage-proofs-core/src/crypto/feistel.rs on few elements, with a hash that
-- adds up its input.
use rust_fil_proofs.Base.{ℕ, ◌+◌, ◌*◌, ◌<◌, ◌≡◌, refl, arith, List, [], ◌∷◌, some}
use rust_fil_proofs.Feistel.Network.{
  FeistelPrecomputed, precompute, permute, invert_permute, masks, walk, encode, encode_rounds,
  encode_round, feistel, be_bytes, common_setup, join,
}
use rust_fil_proofs.Feistel.Permutation.{invert_permute-permute}

abbrev weigh : ℕ → List ℕ → ℕ
weigh w [] = 0
weigh w (b ∷ bytes) = w * b + weigh (w + 1) bytes

abbrev toy_hash : List ℕ → ℕ → ℕ
toy_hash bytes i = 3 * weigh 1 bytes + i

permute_runs : permute toy_hash 12 5 (1 ∷ 2 ∷ 3 ∷ 4 ∷ []) (masks 2) ≡ some 9
unfolding permute masks walk encode encode_rounds encode_round feistel be_bytes common_setup join
permute_runs = refl

invert_permute-permute_example :
    (p : FeistelPrecomputed) × (w : ℕ) × (precompute 12 ≡ some p)
    × (permute toy_hash 12 5 (1 ∷ 2 ∷ 3 ∷ 4 ∷ []) p ≡ some w)
    × (w < 12)
    × (invert_permute toy_hash 12 w (1 ∷ 2 ∷ 3 ∷ 4 ∷ []) p ≡ some 5)
invert_permute-permute_example =
    invert_permute-permute toy_hash 12 5 1 2 3 (4 ∷ []) (omega arith) (omega arith)
