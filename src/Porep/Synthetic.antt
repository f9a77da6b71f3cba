-- ===== src/Porep/Synthetic.antt =====
-- The synthetic challenges of storage-proofs-porep/src/stacked/vanilla/challenges.rs. The stream
-- cipher and the keyed hash of other packages are parameters: a stream is its key and a position.
use rust_fil_proofs.Base.{
  ℕ, zero, suc, ◌+◌, ◌*◌, ◌%◌, ◌^◌, min, List, [], ◌∷◌, ◌++◌, map, range_from, Option, none, some,
  ok, panic, stuck, ◌>>=◌, ◌>>◌, assert, ltb, ◌==◌, if◌then◌else◌, u32, u64, from_le,
}
use rust_fil_proofs.Porep.Challenges.{Outcome, bigint_to_challenge}

abbrev pub default_synth_challenge_count : ℕ
default_synth_challenge_count = 2 ^ 18

abbrev pub synth_challenge_size : ℕ
synth_challenge_size = 32

abbrev pub synth_index_size : ℕ
synth_index_size = 4

pub data Purpose : Type 0 where
  generation selection : Purpose

pub record ChaCha20 : Type 0 where
  pub key : List ℕ
  pub position : ℕ

pub record SynthChallengeGenerator : Type 0 where
  pub sector_nodes : ℕ
  pub replica_id : List ℕ
  pub comm_r : List ℕ
  pub num_synth_challenges : ℕ
  pub chacha20 : ChaCha20
  -- The index of the next synthetic challenge to generate.
  pub i : ℕ

-- `chunks(SYNTH_INDEX_SIZE)` and the conversion of each; a short chunk panics.
unfoldable pub le_words : List ℕ → Outcome (List ℕ)
le_words [] = ok []
le_words (a ∷ []) = panic
le_words (a ∷ b ∷ []) = panic
le_words (a ∷ b ∷ c ∷ []) = panic
le_words (a ∷ b ∷ c ∷ d ∷ bytes) = do
  words ← le_words bytes
  ok (from_le (a ∷ b ∷ c ∷ d ∷ []) ∷ words)

unfoldable pub rem_all : ℕ → List ℕ → Outcome (List ℕ)
rem_all n [] = ok []
rem_all n (x ∷ xs) = do rest ← rem_all n xs; if n == 0 then panic else ok (x % n ∷ rest)

module _ (blake2b : Purpose → List ℕ → List ℕ) (keystream : List ℕ → ℕ → ℕ) where
  -- Bytes of zeros with the key stream applied.
  unfoldable pub apply_keystream : ChaCha20 → ℕ → List ℕ × ChaCha20
  apply_keystream c n = (
    map (keystream c.key) (range_from c.position n),
    record { key = c.key; position = c.position + n },
  )

  unfoldable pub chacha20_gen : List ℕ → List ℕ → ChaCha20
  chacha20_gen replica_id comm_r = record {
    key = blake2b generation (replica_id ++ comm_r);
    position = 0;
  }

  unfoldable pub chacha20_select : List ℕ → List ℕ → ChaCha20
  chacha20_select replica_id rand = record {
    key = blake2b selection (replica_id ++ rand);
    position = 0;
  }

  unfoldable pub next_synth : SynthChallengeGenerator → Outcome (Option ℕ × SynthChallengeGenerator)
  next_synth s =
      let step = (do
        let (rand_bytes, chacha20) = apply_keystream s.chacha20 synth_challenge_size
        challenge ← bigint_to_challenge (from_le rand_bytes) s.sector_nodes
        ok (
          some challenge,
          record {
            sector_nodes = s.sector_nodes;
            replica_id = s.replica_id;
            comm_r = s.comm_r;
            num_synth_challenges = s.num_synth_challenges;
            chacha20 = chacha20;
            i = u64 (s.i + 1);
          },
        )) in
      if ltb s.i s.num_synth_challenges then step else ok (none, s)

  unfoldable pub new_synth : ℕ → List ℕ → List ℕ → ℕ → Outcome SynthChallengeGenerator
  new_synth sector_nodes replica_id comm_r num_synth_challenges = do
    assert (ltb num_synth_challenges (2 ^ 32))
    ok (record {
      sector_nodes = sector_nodes;
      replica_id = replica_id;
      comm_r = comm_r;
      num_synth_challenges = num_synth_challenges;
      chacha20 = chacha20_gen replica_id comm_r;
      i = 0;
    })

  unfoldable pub default_synth : ℕ → List ℕ → List ℕ → Outcome SynthChallengeGenerator
  default_synth sector_nodes replica_id comm_r =
      new_synth sector_nodes replica_id comm_r (min sector_nodes default_synth_challenge_count)

  -- A position of 32 bits is inside every key stream.
  unfoldable pub seek : SynthChallengeGenerator → ℕ → SynthChallengeGenerator
  seek s i = record {
    sector_nodes = s.sector_nodes;
    replica_id = s.replica_id;
    comm_r = s.comm_r;
    num_synth_challenges = s.num_synth_challenges;
    chacha20 = record { key = s.chacha20.key; position = u32 (u64 (i * synth_challenge_size)) };
    i = i;
  }

  unfoldable pub clone : SynthChallengeGenerator → SynthChallengeGenerator
  clone s =
      seek
        (record {
          sector_nodes = s.sector_nodes;
          replica_id = s.replica_id;
          comm_r = s.comm_r;
          num_synth_challenges = s.num_synth_challenges;
          chacha20 = chacha20_gen s.replica_id s.comm_r;
          i = 0;
        })
        s.i

  abbrev pub expect : Option ℕ × SynthChallengeGenerator → Outcome (ℕ × SynthChallengeGenerator)
  expect (none, s) = panic
  expect (some challenge, s) = ok (challenge, s)

  unfoldable pub gen_synth_challenge :
      SynthChallengeGenerator → ℕ → Outcome (ℕ × SynthChallengeGenerator)
  gen_synth_challenge s i = do
    assert (ltb i s.num_synth_challenges)
    result ← next_synth (seek s i)
    expect result

  unfoldable pub gen_partition_synth_indexes :
      SynthChallengeGenerator → ℕ → List ℕ → ℕ → Outcome (List ℕ)
  gen_partition_synth_indexes s num_partition_challenges rand k = do
    let first_porep_challenge = u64 (k * num_partition_challenges)
    let chacha20 = chacha20_select s.replica_id rand
    let (rand_bytes, _) =
        apply_keystream
          (record {
            key = chacha20.key;
            position = u32 (u64 (first_porep_challenge * synth_index_size));
          })
          (u64 (num_partition_challenges * synth_index_size))
    words ← le_words rand_bytes
    rem_all s.num_synth_challenges words

  -- The map of `gen_porep_partition_challenges`, with the generator handed on.
  unfoldable pub gen_synth_challenges : SynthChallengeGenerator → List ℕ → Outcome (List ℕ)
  gen_synth_challenges s [] = ok []
  gen_synth_challenges s (i ∷ indexes) = do
    (challenge, s') ← gen_synth_challenge s i
    rest ← gen_synth_challenges s' indexes
    ok (challenge ∷ rest)

  unfoldable pub gen_porep_partition_challenges :
      SynthChallengeGenerator → ℕ → List ℕ → ℕ → Outcome (List ℕ)
  gen_porep_partition_challenges s num_partition_challenges rand k = do
    indexes ← gen_partition_synth_indexes s num_partition_challenges rand k
    gen_synth_challenges (clone s) indexes

  abbrev pub gather_synth : Option ℕ → Outcome (List ℕ) → Outcome (List ℕ)
  gather_synth none rest = ok []
  gather_synth (some challenge) rest = do challenges ← rest; ok (challenge ∷ challenges)

  -- `collect` on the generator.
  unfoldable pub collect_synth : ℕ → SynthChallengeGenerator → Outcome (List ℕ)
  collect_synth zero s = stuck
  collect_synth (suc fuel) s = do
    (item, s') ← next_synth s
    let rest = collect_synth fuel s'
    gather_synth item rest

  unfoldable pub derive_synth : ℕ → ℕ → List ℕ → List ℕ → List ℕ → ℕ → Outcome (List ℕ)
  derive_synth challenges_per_partition sector_nodes replica_id comm_r seed k = do
    s ← default_synth sector_nodes replica_id comm_r
    gen_porep_partition_challenges s challenges_per_partition seed k

  unfoldable pub derive_indexes : ℕ → ℕ → List ℕ → List ℕ → List ℕ → ℕ → Outcome (List ℕ)
  derive_indexes challenges_per_partition sector_nodes replica_id comm_r seed k = do
    s ← default_synth sector_nodes replica_id comm_r
    gen_partition_synth_indexes s challenges_per_partition seed k

  -- One round more than there are challenges.
  unfoldable pub derive_synthetic : ℕ → List ℕ → List ℕ → Outcome (List ℕ)
  derive_synthetic sector_nodes replica_id comm_r = do
    synth ← default_synth sector_nodes replica_id comm_r
    collect_synth (suc synth.num_synth_challenges) synth
