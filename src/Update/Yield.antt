-- ===== src/Update/Yield.antt =====
-- What the iterator of storage-proofs-update/src/challenges.rs yields: the `n`-th challenge in
-- closed form, and where it lies.
use Prim.Native.Nat.{bit_or}
use native.Mathlib.Decide.{ℕ_discrete}
use native.Mathlib.Nat.{mod-lt, zero-mod, div-le_self, mul-le-mul_right, mul-le-mul_left}
use rust_fil_proofs.Base.{
  ℕ, zero, suc, ◌+◌, ◌-◌, ◌*◌, ◌/◌, ◌%◌, ◌^◌, ◌<◌, ◌≤◌, ◌≡◌, refl, sym, ◌∙◌, arith, Bool, true,
  false, List, [], ◌∷◌, some, none, ok, ◌==◌, if◌then◌else◌, u32, u64, ◌<<◌, take, drop, length,
  map, range_from, length-take, length-drop, le→leb, ◌⊎◌, inl, inr,
}
use rust_fil_proofs.Base.Powers.{two_pow-suc, two_pow-lt}
use rust_fil_proofs.Base.Bits.{bit_or_fields_swapped}
use rust_fil_proofs.Update.Divmod.{next_in_digest, next_digest}
use rust_fil_proofs.Update.Challenges.{Challenges, or_bits, slice, next, collect}

-- The number of little-endian bits.
abbrev pub bits_value : List Bool → ℕ
bits_value [] = 0
bits_value (bit ∷ bits) = (if bit then 1 else 0) + 2 * bits_value bits

pub bits_value-lt : (bits : List Bool) → bits_value bits < 2 ^ length bits
bits_value-lt [] = omega arith
bits_value-lt (true ∷ bits) = omega (arith, bits_value-lt bits, two_pow-suc (length bits))
bits_value-lt (false ∷ bits) = omega (arith, bits_value-lt bits, two_pow-suc (length bits))

or_bit : (i c : ℕ) → c < 2 ^ i → i < 32 → bit_or c (u32 (1 << (i % 32))) ≡ c + 2 ^ i
or_bit i c h s =
    let e : i % 32 ≡ i = omega arith in
    let f : u32 (1 << (i % 32)) ≡ 1 * 2 ^ i = rw e (omega (arith, two_pow-lt i 32 s)) in
    rw (f, bit_or_fields_swapped i 1 c h) (omega arith)

or_bits_eq :
    (bits : List Bool) (i c : ℕ)
    → c < 2 ^ i
    → i + length bits ≤ 32
    → or_bits i c bits ≡ c + 2 ^ i * bits_value bits
unfolding or_bits
or_bits_eq [] i c h s = omega arith
or_bits_eq (true ∷ bits) i c h s =
    let o : i + 1 ≡ suc i = omega arith in
    let b : i < 32 = omega arith in
    let again = or_bits_eq bits (suc i) (c + 2 ^ i) (omega (arith, two_pow-suc i)) (omega arith) in
    rw (or_bit i c h b, o, again, two_pow-suc i) (omega arith)
or_bits_eq (false ∷ bits) i c h s =
    let o : i + 1 ≡ suc i = omega arith in
    let again = or_bits_eq bits (suc i) c (omega (arith, two_pow-suc i)) (omega arith) in
    rw (o, again, two_pow-suc i) (omega arith)

module _ (poseidon_bits : ℕ → ℕ → List Bool) (comm rb cpd first k : ℕ) where
  -- The `n`-th challenge: `rb` bits of the digest that is `n / cpd` behind the first one, at place
  -- `n % cpd`, below the bits of the partition.
  abbrev pub challenge_at : ℕ → ℕ
  challenge_at n =
      bits_value (take rb (drop (n % cpd * rb) (poseidon_bits comm (first + n / cpd)))) + k * 2 ^ rb

module _ (poseidon_bits : ℕ → ℕ → List Bool) (comm rb cpd first k count : ℕ) where
  abbrev pub at : ℕ → List Bool → Challenges
  at n held = record {
    comm_r_new = comm;
    partition_bits = k * 2 ^ rb;
    random_bits_per_challenge = rb;
    challenges_per_digest = cpd;
    digest_index_all_partitions = first + n / cpd;
    i = n % cpd;
    digest_bits = held;
    challenges_remaining = count - n;
  }

  module _ (full : (comm d : ℕ) → 254 ≤ length (poseidon_bits comm d)) (wide : 1 ≤ rb)
      (narrow : rb ≤ 31) (some_per_digest : 1 ≤ cpd) (fits : cpd * rb ≤ 254)
      (no_wrap : k * 2 ^ rb < 2 ^ 32) (small : first + count < 2 ^ 64) where
    place_lem : (n : ℕ) → n % cpd * rb + rb ≤ 254
    place_lem n =
        let h : n % cpd < cpd = mod-lt n some_per_digest in
        let e : n % cpd + 1 ≤ cpd = omega arith in omega (arith, mul-le-mul_right rb e)

    slice_lem :
        {E : Type 0} (n : ℕ)
        → slice {E = E}
            (poseidon_bits comm (first + n / cpd))
            (u64 (n % cpd * rb))
            (u64 (u64 (n % cpd * rb) + rb))
          ≡ ok (take rb (drop (n % cpd * rb) (poseidon_bits comm (first + n / cpd))))
    unfolding slice
    slice_lem n =
        let h = place_lem n in
        let l = full comm (first + n / cpd) in
        let a : u64 (n % cpd * rb) ≡ n % cpd * rb = omega arith in
        let b : u64 (n % cpd * rb + rb) ≡ n % cpd * rb + rb = omega arith in
        let c : n % cpd * rb + rb - n % cpd * rb ≡ rb = omega arith in
        rw
          (
            a,
            b,
            c,
            le→leb (n % cpd * rb) (n % cpd * rb + rb) (omega arith),
            le→leb (n % cpd * rb + rb) (length (poseidon_bits comm (first + n / cpd)))
                (omega arith),
          )
          refl

    combined :
        (bits : List Bool)
        → length bits ≡ rb
        → bit_or (or_bits 0 0 bits) (k * 2 ^ rb) ≡ bits_value bits + k * 2 ^ rb
    combined bits h =
        let low : bits_value bits < 2 ^ rb = rw (sym h) (bits_value-lt bits) in
        let e : or_bits 0 0 bits ≡ bits_value bits =
          or_bits_eq bits 0 0 (omega arith) (omega arith) ∙ omega arith in
        rw (e, bit_or_fields_swapped rb k (bits_value bits) low) (omega arith)

    length_taken :
        (n : ℕ) → length (take rb (drop (n % cpd * rb) (poseidon_bits comm (first + n / cpd)))) ≡ rb
    length_taken n =
        let digest = poseidon_bits comm (first + n / cpd) in
        omega (
          arith,
          place_lem n,
          full comm (first + n / cpd),
          length-take rb (drop (n % cpd * rb) digest),
          length-drop (n % cpd * rb) digest,
        )

    -- Whatever bits the state holds, they are those of the current digest unless a new one starts.
    abbrev Holds : ℕ → List Bool → Type 0
    Holds n held = (n % cpd ≡ 0) ⊎ (held ≡ poseidon_bits comm (first + n / cpd))

    pick :
        (n : ℕ) (held : List Bool)
        → Holds n held
        → (if n % cpd == 0 then poseidon_bits comm (first + n / cpd) else held)
          ≡ poseidon_bits comm (first + n / cpd)
    pick n held (inl z) = rw z refl
    pick n held (inr e) = rw e (same (n % cpd == 0))
      where
        same :
            (b : Bool)
            → (if b
                then poseidon_bits comm (first + n / cpd)
                else poseidon_bits comm (first + n / cpd))
              ≡ poseidon_bits comm (first + n / cpd)
        same true = refl
        same false = refl

    turn :
        (n : ℕ)
        → n < count
        → ((if u64 (n % cpd + 1) == cpd then u64 (first + n / cpd + 1) else first + n / cpd)
            ≡ first + (n + 1) / cpd)
          × ((if u64 (n % cpd + 1) == cpd then 0 else u64 (n % cpd + 1)) ≡ (n + 1) % cpd)
    turn n h =
        let l : n % cpd < cpd = mod-lt n some_per_digest in
        let c : cpd ≤ 254 = omega (arith, mul-le-mul_left cpd wide) in
        let q = div-le_self n cpd in
        elim (ℕ_discrete (n % cpd + 1) cpd) [
          | yes e ↦ let (a, b) = next_digest n cpd e in (ground (arith, a), ground (arith, b))
          | no e ↦
              let (a, b) = next_in_digest n cpd (omega arith) in
              (ground (arith, a), ground (arith, b))
        ]

    Holds-next : (n : ℕ) → Holds (n + 1) (poseidon_bits comm (first + n / cpd))
    Holds-next n =
        let l : n % cpd < cpd = mod-lt n some_per_digest in
        elim (ℕ_discrete (n % cpd + 1) cpd) [
          | yes e ↦ inl ((next_digest n cpd e).1)
          | no e ↦ let (a, _) = next_in_digest n cpd (omega arith) in inr (rw a refl)
        ]

    next-end :
        {E : Type 0} (n : ℕ) (held : List Bool)
        → count ≤ n
        → next poseidon_bits {E = E} (at n held) ≡ ok (none, at n held)
    unfolding next
    next-end n held h = let done : ((count - n) == 0) ≡ true = ground arith in rw done refl

    next-at :
        {E : Type 0} (n : ℕ) (held : List Bool)
        → n < count
        → Holds n held
        → next poseidon_bits {E = E} (at n held)
          ≡ ok (
            some (challenge_at poseidon_bits comm rb cpd first k n),
            at (n + 1) (poseidon_bits comm (first + n / cpd)),
          )
    unfolding next
    next-at n held h q =
        let (index, place) = turn n h in
        let left : ((count - n) == 0) ≡ false = ground arith in
        let fewer : count - n - 1 ≡ count - (n + 1) = omega arith in
        rw
          (
            left,
            pick n held q,
            slice_lem n,
            combined (take rb (drop (n % cpd * rb) (poseidon_bits comm (first + n / cpd))))
                (length_taken n),
            index,
            place,
            fewer,
          )
          refl

    collect-at :
        {E : Type 0} (m n : ℕ) (held : List Bool)
        → n + m ≡ count
        → Holds n held
        → collect poseidon_bits {E = E} (suc m) (at n held)
          ≡ ok (map (challenge_at poseidon_bits comm rb cpd first k) (range_from n m))
    unfolding collect
    collect-at zero n held e q = rw (next-end n held (omega arith)) refl
    collect-at {E = E} (suc m) n held e q =
        let rest =
          collect-at {E = E} m (n + 1) (poseidon_bits comm (first + n / cpd)) (omega arith)
            (Holds-next n) in
        rw (next-at n held (omega arith) q, rest) refl

    -- From its first state the iterator yields `count` challenges, each the one of its number.
    pub collect_all :
        {E : Type 0}
        → collect poseidon_bits {E = E} (suc count) (at 0 [])
          ≡ ok (map (challenge_at poseidon_bits comm rb cpd first k) (range_from 0 count))
    collect_all = collect-at count 0 [] (omega arith) (inl (zero-mod cpd))
