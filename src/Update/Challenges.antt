-- ===== src/Update/Challenges.antt =====
-- `Challenges` of storage-proofs-update/src/challenges.rs: the iterator as a state and its `next`.
use Prim.Native.Nat.{bit_or}
use rust_fil_proofs.Base.{
  ℕ, zero, suc, ◌+◌, ◌-◌, ◌*◌, ◌/◌, ◌%◌, ◌^◌, Bool, List, [], ◌∷◌, Option, none, some, Result, ok,
  panic, stuck, ◌>>=◌, ◌>>◌, assert, ltb, leb, ◌==◌, ◌&&◌, if◌then◌else◌, u32, u64, sub64, ◌<<◌,
  take, drop, length,
}
use rust_fil_proofs.Update.Constants.{partition_count, challenge_count}

-- `usize::trailing_zeros`: 64 for zero.
unfoldable pub trailing_zeros : ℕ → ℕ → ℕ
trailing_zeros zero n = 0
trailing_zeros (suc bits) n =
    let rest = trailing_zeros bits (n / 2) in if n % 2 == 0 then suc rest else 0

-- Bits that a field element holds for sure: `Fr::CAPACITY`.
abbrev pub capacity : ℕ
capacity = 254

-- A commitment is a field element, kept as a number.
pub record Challenges : Type 0 where
  pub comm_r_new : ℕ
  pub partition_bits : ℕ
  pub random_bits_per_challenge : ℕ
  pub challenges_per_digest : ℕ
  pub digest_index_all_partitions : ℕ
  pub i : ℕ
  pub digest_bits : List Bool
  pub challenges_remaining : ℕ

-- The quotient of two counts as `f32`, rounded up. Counts below 2 ^ 12 and their quotients lie
-- further from an integer than `f32` rounds; a division by zero is infinite and saturates.
unfoldable pub ceil_div : ℕ → ℕ → ℕ
ceil_div a b = if b == 0 then 2 ^ 64 - 1 else (a + (b - 1)) / b

-- A division by zero panics.
unfoldable pub div_checked : {E : Type 0} → ℕ → ℕ → Result E ℕ
div_checked a b = if b == 0 then panic else ok (a / b)

unfoldable pub new : {E : Type 0} → ℕ → ℕ → ℕ → Result E Challenges
new sector_nodes comm_r_new k = do
  let partitions = partition_count sector_nodes
  assert (ltb k partitions)
  let challenge_bit_len = trailing_zeros 64 sector_nodes
  let partition_bit_len = trailing_zeros 64 partitions
  let random_bits = sub64 challenge_bit_len partition_bit_len
  challenges_per_digest ← div_checked capacity random_bits
  let count = challenge_count sector_nodes
  let digests_per_partition = ceil_div count challenges_per_digest
  ok (record {
    comm_r_new = comm_r_new;
    partition_bits = u32 (u64 (k << (random_bits % 64)));
    random_bits_per_challenge = random_bits;
    challenges_per_digest = challenges_per_digest;
    digest_index_all_partitions = u64 (k * digests_per_partition);
    i = 0;
    digest_bits = [];
    challenges_remaining = count;
  })

unfoldable pub new_poseidon : {E : Type 0} → ℕ → ℕ → Result E Challenges
new_poseidon sector_nodes comm_r_new = do
  let repeats = partition_count sector_nodes
  let random_bits = trailing_zeros 64 sector_nodes
  challenges_per_digest ← div_checked capacity random_bits
  ok (record {
    comm_r_new = comm_r_new;
    partition_bits = 0;
    random_bits_per_challenge = random_bits;
    challenges_per_digest = challenges_per_digest;
    digest_index_all_partitions = 0;
    i = 0;
    digest_bits = [];
    challenges_remaining = u64 (challenge_count sector_nodes * repeats);
  })

-- `&xs[start..stop]`.
unfoldable pub slice : {E : Type 0} → List Bool → ℕ → ℕ → Result E (List Bool)
slice xs start stop =
    if leb start stop && leb stop (length xs)
    then ok (take (stop - start) (drop start xs))
    else panic

-- `for (i, bit) in c_bits.iter().enumerate() { if *bit { c |= 1 << i } }`, on 32 bits.
unfoldable pub or_bits : ℕ → ℕ → List Bool → ℕ
or_bits i c [] = c
or_bits i c (bit ∷ bits) = or_bits (i + 1) (if bit then bit_or c (u32 (1 << (i % 32))) else c) bits

abbrev pub gather : {E : Type 0} → Option ℕ → Result E (List ℕ) → Result E (List ℕ)
gather none rest = ok []
gather (some c) rest = do cs ← rest; ok (c ∷ cs)

-- The bits of the digest of a commitment and an index (Poseidon, `to_le_bits`) are a parameter.
module _ (poseidon_bits : ℕ → ℕ → List Bool) where
  unfoldable pub next : {E : Type 0} → Challenges → Result E (Option ℕ × Challenges)
  next s =
      let step = (do
        let digest_bits =
            (if s.i == 0
              then poseidon_bits s.comm_r_new s.digest_index_all_partitions
              else s.digest_bits)
        let start = u64 (s.i * s.random_bits_per_challenge)
        let stop = u64 (start + s.random_bits_per_challenge)
        c_bits ← slice digest_bits start stop
        let c = bit_or (or_bits 0 0 c_bits) s.partition_bits
        let i = u64 (s.i + 1)
        let wraps = i == s.challenges_per_digest
        ok (
          some c,
          record {
            comm_r_new = s.comm_r_new;
            partition_bits = s.partition_bits;
            random_bits_per_challenge = s.random_bits_per_challenge;
            challenges_per_digest = s.challenges_per_digest;
            digest_index_all_partitions =
                if wraps
                then u64 (s.digest_index_all_partitions + 1)
                else s.digest_index_all_partitions;
            i = if wraps then 0 else i;
            digest_bits = digest_bits;
            challenges_remaining = s.challenges_remaining - 1;
          },
        )) in
      if s.challenges_remaining == 0 then ok (none, s) else step

  -- What a consumer of the iterator gets: `next` until it returns `None`.
  unfoldable pub collect : {E : Type 0} → ℕ → Challenges → Result E (List ℕ)
  collect zero s = stuck
  collect (suc fuel) s = do (item, s') ← next s; let rest = collect fuel s'; gather item rest
