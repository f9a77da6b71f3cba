-- ===== src/Porep/Selected.antt =====
-- The challenges for a partition are synthetic challenges, selected by their indexes
-- (storage-proofs-porep/src/stacked/vanilla/challenges.rs).
use native.Mathlib.Nat.{mod-lt}
use rust_fil_proofs.Base.{
  ℕ, zero, suc, ◌+◌, ◌-◌, ◌*◌, ◌%◌, ◌^◌, ◌<◌, ◌≤◌, ◌≡◌, refl, ap, ◌∙◌, arith, min, false, List, [],
  ◌∷◌, ◌++◌, map, range_from, length, All, none, some, ok, lt→ltb, ge→ltb, ◌==◌, u32, u64, sub64,
  from_le,
}
use rust_fil_proofs.Porep.Challenges.{bigint_to_challenge}
use rust_fil_proofs.Porep.Synthetic.{
  Purpose, generation, SynthChallengeGenerator, default_synth_challenge_count, le_words, rem_all,
  apply_keystream, chacha20_gen, chacha20_select, next_synth, new_synth, default_synth, seek, clone,
  gen_synth_challenge, gen_partition_synth_indexes, gen_synth_challenges,
  gen_porep_partition_challenges, collect_synth, derive_synth, derive_indexes, derive_synthetic,
}

pub bigint_to_challenge-eq :
    (bigint nodes : ℕ)
    → 2 ≤ nodes
    → nodes < 2 ^ 32
    → bigint_to_challenge bigint nodes ≡ ok (bigint % (nodes - 1) + 1)
unfolding bigint_to_challenge
bigint_to_challenge-eq bigint nodes low high =
    let a : sub64 nodes 1 ≡ nodes - 1 = omega arith in
    let p : 0 < nodes - 1 = omega arith in
    let b : (nodes - 1 == 0) ≡ false = ground arith in
    let m : bigint % (nodes - 1) < nodes - 1 = mod-lt bigint p in
    let c : u32 (bigint % (nodes - 1) + 1) ≡ bigint % (nodes - 1) + 1 = omega arith in
    rw (a, b, c) refl

rem_all-All :
    (n : ℕ) (xs : List ℕ)
    → 1 ≤ n
    → (ys : List ℕ) × (rem_all n xs ≡ ok ys) × (length ys ≡ length xs) × All (λ y. y < n) ys
unfolding rem_all
rem_all-All n [] h = ([], refl, refl, tt)
rem_all-All n (x ∷ xs) h =
    let (ys, e, size, below) = rem_all-All n xs h in
    let ne : (n == 0) ≡ false = ground arith in
    (x % n ∷ ys, rw (e, ne) refl, ap suc size, (mod-lt x h, below))

le_words_lem :
    (f : ℕ → ℕ) (count from : ℕ)
    → (words : List ℕ) × (le_words (map f (range_from from (count * 4))) ≡ ok words)
      × (length words ≡ count)
unfolding le_words
le_words_lem f zero from = ([], refl, refl)
le_words_lem f (suc count) from =
    let four : suc count * 4 ≡ suc (suc (suc (suc (count * 4)))) = omega arith in
    let (words, e, size) = le_words_lem f count (from + 1 + 1 + 1 + 1) in
    (
      from_le (f from ∷ f (from + 1) ∷ f (from + 1 + 1) ∷ f (from + 1 + 1 + 1) ∷ []) ∷ words,
      rw (four, e) refl,
      ap suc size,
    )

module _ (blake2b : Purpose → List ℕ → List ℕ) (keystream : List ℕ → ℕ → ℕ) (nodes : ℕ)
    (replica_id comm_r : List ℕ) where
  abbrev pub count : ℕ
  count = min nodes default_synth_challenge_count

  -- The `i`-th synthetic challenge: a node drawn from the `i`-th 32 bytes of the stream.
  abbrev pub synth_at : ℕ → ℕ
  synth_at i =
      from_le (map (keystream (blake2b generation (replica_id ++ comm_r))) (range_from (i * 32) 32))
        % (nodes - 1)
      + 1

  abbrev pub state : ℕ → ℕ → SynthChallengeGenerator
  state position i = record {
    sector_nodes = nodes;
    replica_id = replica_id;
    comm_r = comm_r;
    num_synth_challenges = count;
    chacha20 = record { key = blake2b generation (replica_id ++ comm_r); position = position };
    i = i;
  }

  module _ (low : 2 ≤ nodes) (high : nodes < 2 ^ 32) where
    next_synth-state :
        (i : ℕ)
        → i < count
        → next_synth blake2b keystream (state (i * 32) i)
          ≡ ok (some (synth_at i), state (i * 32 + 32) (i + 1))
    unfolding next_synth apply_keystream
    next_synth-state i h =
        let e =
          bigint_to_challenge-eq
            (from_le (
              map (keystream (blake2b generation (replica_id ++ comm_r))) (range_from (i * 32) 32)))
            nodes low high in
        let w : u64 (i + 1) ≡ i + 1 = omega arith in rw (lt→ltb i count h, e, w) refl

    gen_synth_challenge-state :
        (position i j : ℕ)
        → j < count
        → gen_synth_challenge blake2b keystream (state position i) j
          ≡ ok (synth_at j, state (j * 32 + 32) (j + 1))
    unfolding gen_synth_challenge seek
    gen_synth_challenge-state position i j h =
        let w : u32 (u64 (j * 32)) ≡ j * 32 = omega arith in
        rw (lt→ltb j count h, w, next_synth-state j h) refl

    gen_synth_challenges-state :
        (position i : ℕ) (indexes : List ℕ)
        → All (λ j. j < count) indexes
        → gen_synth_challenges blake2b keystream (state position i) indexes
          ≡ ok (map synth_at indexes)
    unfolding gen_synth_challenges
    gen_synth_challenges-state position i [] h = refl
    gen_synth_challenges-state position i (j ∷ indexes) (below, rest) =
        let again = gen_synth_challenges-state (j * 32 + 32) (j + 1) indexes rest in
        rw (gen_synth_challenge-state position i j below, again) refl

    next_synth-end :
        (i : ℕ)
        → count ≤ i
        → next_synth blake2b keystream (state (i * 32) i) ≡ ok (none, state (i * 32) i)
    unfolding next_synth
    next_synth-end i h = rw (ge→ltb i count h) refl

    collect_synth-state :
        (m i : ℕ)
        → i + m ≡ count
        → collect_synth blake2b keystream (suc m) (state (i * 32) i)
          ≡ ok (map synth_at (range_from i m))
    unfolding collect_synth
    collect_synth-state zero i e = rw (next_synth-end i (omega arith)) refl
    collect_synth-state (suc m) i e =
        let next_place : i * 32 + 32 ≡ (i + 1) * 32 = omega arith in
        let again = collect_synth-state m (i + 1) (omega arith) in
        rw (next_synth-state i (omega arith), next_place, again) refl

    default_synth-state : default_synth blake2b keystream nodes replica_id comm_r ≡ ok (state 0 0)
    unfolding default_synth new_synth chacha20_gen
    default_synth-state = let p : count < 2 ^ 32 = omega arith in rw (lt→ltb count (2 ^ 32) p) refl

    clone-state : clone blake2b keystream (state 0 0) ≡ state 0 0
    unfolding clone seek chacha20_gen
    clone-state = let w : u32 (u64 (0 * 32)) ≡ 0 = omega arith in rw w refl

    synth_at_lem : (i : ℕ) → (1 ≤ synth_at i) × (synth_at i < nodes)
    synth_at_lem i =
        let p : 0 < nodes - 1 = omega arith in
        let m =
          mod-lt
            (from_le (
              map (keystream (blake2b generation (replica_id ++ comm_r))) (range_from (i * 32) 32)))
            p in
        (omega arith, omega (arith, m))

    synth_at-All : (indexes : List ℕ) → All (λ c. (1 ≤ c) × (c < nodes)) (map synth_at indexes)
    synth_at-All [] = tt
    synth_at-All (i ∷ indexes) = (synth_at_lem i, synth_at-All indexes)

    indexes_lem :
        (num k : ℕ) (rand : List ℕ)
        → num < 2 ^ 62
        → (indexes : List ℕ) × (gen_partition_synth_indexes blake2b keystream (state 0 0) num rand k
            ≡ ok indexes)
          × (length indexes ≡ num)
          × All (λ i. i < count) indexes
    unfolding gen_partition_synth_indexes apply_keystream
    indexes_lem num k rand h =
        let w : u64 (num * 4) ≡ num * 4 = omega arith in
        let (words, e, size) =
          le_words_lem (keystream (chacha20_select blake2b keystream replica_id rand).key) num
            (u32 (u64 (u64 (k * num) * 4))) in
        let (indexes, r, size', below) = rem_all-All count words (omega arith) in
        (indexes, rw (w, e, r) refl, size' ∙ size, below)

-- For a sector of 2 to `2 ^ 32 - 1` nodes and fewer than `2 ^ 62` challenges in a partition: the
-- synthetic challenges are `synth_at` of 0, 1, … in order, as many as there are nodes and at most
-- `2 ^ 18`; `derive_indexes` returns as many indexes of synthetic challenges as a partition has
-- challenges; `derive` returns exactly the synthetic challenges with these indexes, although it
-- seeks to them; and each is a node of the sector other than the first.
pub derive_synth-derive_synthetic :
    (blake2b : Purpose → List ℕ → List ℕ) (keystream : List ℕ → ℕ → ℕ)
    (challenges_per_partition nodes : ℕ) (replica_id comm_r seed : List ℕ) (k : ℕ)
    → 2 ≤ nodes
    → nodes < 2 ^ 32
    → challenges_per_partition < 2 ^ 62
    → (indexes : List ℕ) × (derive_indexes blake2b keystream challenges_per_partition nodes
          replica_id comm_r seed k
        ≡ ok indexes)
      × (length indexes ≡ challenges_per_partition)
      × All (λ i. i < min nodes default_synth_challenge_count) indexes
      × (derive_synthetic blake2b keystream nodes replica_id comm_r
          ≡ ok (
              map
                (synth_at blake2b keystream nodes replica_id comm_r)
                (range_from 0 (min nodes default_synth_challenge_count))))
      × (derive_synth blake2b keystream challenges_per_partition nodes replica_id comm_r seed k
          ≡ ok (map (synth_at blake2b keystream nodes replica_id comm_r) indexes))
      × All
          (λ c. (1 ≤ c) × (c < nodes))
          (map (synth_at blake2b keystream nodes replica_id comm_r) indexes)
unfolding derive_indexes derive_synthetic derive_synth gen_porep_partition_challenges
derive_synth-derive_synthetic blake2b keystream num nodes replica_id comm_r seed k low high h =
    let start = default_synth-state blake2b keystream nodes replica_id comm_r low high in
    let (indexes, e, size, below) =
      indexes_lem blake2b keystream nodes replica_id comm_r low high num k seed h in
    (
      indexes,
      rw (start) e,
      size,
      below,
      rw (start) (
          collect_synth-state blake2b keystream nodes replica_id comm_r low high
            (min nodes default_synth_challenge_count) 0 (omega arith)),
      rw (start, e, clone-state blake2b keystream nodes replica_id comm_r low high)
          (gen_synth_challenges-state blake2b keystream nodes replica_id comm_r low high 0 0 indexes
            below),
      synth_at-All blake2b keystream nodes replica_id comm_r low high indexes,
    )
