-- ===== src/Porep/Tests.antt =====
-- The challenges of storage-proofs-porep/src/stacked/vanilla/challenges.rs with made-up hashes and
-- streams.
use rust_fil_proofs.Base.{
  ℕ, ◌+◌, ◌*◌, ◌%◌, ◌≤◌, ◌<◌, ◌≡◌, min, arith, List, [], ◌∷◌, ◌++◌, map, range_from, length, All,
  ok,
}
use rust_fil_proofs.Porep.Challenges.{derive_interactive, derive_ni}
use rust_fil_proofs.Porep.Synthetic.{
  Purpose, generation, selection, default_synth_challenge_count, derive_synth, derive_indexes,
  derive_synthetic,
}
use rust_fil_proofs.Porep.Selected.{synth_at, derive_synth-derive_synthetic}
use rust_fil_proofs.Porep.Interactive.{IsChallenge, derive_interactive-IsChallenge}

abbrev toy_blake2b : Purpose → List ℕ → List ℕ
toy_blake2b generation bytes = 1 ∷ bytes
toy_blake2b selection bytes = 2 ∷ bytes

abbrev toy_stream : List ℕ → ℕ → ℕ
toy_stream [] position = position % 256
toy_stream (b ∷ bytes) position = (b * 7 + toy_stream bytes (position + b)) % 256

abbrev toy_sha256 : List ℕ → List ℕ
toy_sha256 bytes = bytes ++ 9 ∷ []

derive_synth-derive_synthetic_example :
    (indexes : List ℕ) × (derive_indexes toy_blake2b toy_stream 3 64 (5 ∷ []) (6 ∷ []) (7 ∷ []) 1
      ≡ ok indexes)
    × (length indexes ≡ 3)
    × All (λ i. i < min 64 default_synth_challenge_count) indexes
    × (derive_synthetic toy_blake2b toy_stream 64 (5 ∷ []) (6 ∷ [])
        ≡ ok (
            map
              (synth_at toy_blake2b toy_stream 64 (5 ∷ []) (6 ∷ []))
              (range_from 0 (min 64 default_synth_challenge_count))))
    × (derive_synth toy_blake2b toy_stream 3 64 (5 ∷ []) (6 ∷ []) (7 ∷ []) 1
        ≡ ok (map (synth_at toy_blake2b toy_stream 64 (5 ∷ []) (6 ∷ [])) indexes))
    × All
        (λ c. (1 ≤ c) × (c < 64))
        (map (synth_at toy_blake2b toy_stream 64 (5 ∷ []) (6 ∷ [])) indexes)
derive_synth-derive_synthetic_example =
    derive_synth-derive_synthetic toy_blake2b toy_stream 3 64 (5 ∷ []) (6 ∷ []) (7 ∷ []) 1
      (omega arith) (omega arith) (omega arith)

derive_interactive-IsChallenge_example :
    ((cs : List ℕ) × (derive_interactive toy_sha256 4 64 (5 ∷ []) (6 ∷ []) 2 ≡ ok cs)
      × (length cs ≡ 4)
      × All (IsChallenge 64) cs)
    × ((cs : List ℕ) × (derive_ni toy_sha256 4 64 (5 ∷ []) (6 ∷ []) 2 ≡ ok cs)
        × (length cs ≡ 4)
        × All (IsChallenge 64) cs)
derive_interactive-IsChallenge_example =
    derive_interactive-IsChallenge toy_sha256 4 64 (5 ∷ []) (6 ∷ []) 2 (omega arith) (omega arith)
