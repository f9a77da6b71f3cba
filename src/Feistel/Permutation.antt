-- ===== src/Feistel/Permutation.antt =====
-- `precompute`, `permute` and `invert_permute` of storage-proofs-core/src/crypto/feistel.rs: for
-- every hash and all keys a permutation of `[0, num_elements)`, computed in finitely many steps.
use native.Mathlib.Decide.{dec_lt}
use native.Mathlib.Nat.{pow-suc, pow-le-pow_right}
use rust_fil_proofs.Base.{
  ℕ, zero, suc, ◌+◌, ◌-◌, ◌*◌, ◌^◌, ◌<◌, ◌≤◌, ◌≡◌, refl, ◌∙◌, arith, List, ◌∷◌, some, u64, lt→ltb,
  ge→ltb,
}
use rust_fil_proofs.Base.Powers.{two_pow-suc}
use rust_fil_proofs.Feistel.Network.{
  FeistelPrecomputed, masks, precompute, log4_loop, encode, decode, walk, permute, invert_permute,
  ◌>>=◌,
}
use rust_fil_proofs.Feistel.Rounds.{encode-Invertible}
use rust_fil_proofs.Feistel.Cycle.{IsReversible, walk_there_and_back}

four_pow-eq : (h : ℕ) → 4 ^ h ≡ 2 ^ h * 2 ^ h
four_pow-eq zero = refl
four_pow-eq (suc h) = rw (pow-suc 4 h, four_pow-eq h, two_pow-suc h) (omega arith)

four_pow-le : (a b : ℕ) → a ≤ b → 4 ^ a ≤ 4 ^ b
four_pow-le a b h = pow-le-pow_right (omega arith) h

-- The width that `precompute` finds: four to its power covers all elements.
pub record Width (num_elements : ℕ) : Type 0 where
  pub half_bits : ℕ
  pub found : precompute num_elements ≡ some (masks half_bits)
  pub small : half_bits ≤ 31
  pub covers : num_elements ≤ 4 ^ half_bits

log4_loop_lem :
    (fuel h n : ℕ)
    → n ≤ 4 ^ 31
    → h ≤ 31
    → 31 - h < fuel
    → (k : ℕ) × (log4_loop fuel (4 ^ h) h n ≡ some k) × (k ≤ 31) × (n ≤ 4 ^ k)
unfolding log4_loop
log4_loop_lem zero h n b s f = absurd (omega arith)
log4_loop_lem (suc fuel) h n b s f = elim (dec_lt (4 ^ h) n) [
  | yes lt ↦
      let below : h < 31 = elim (dec_lt h 31) [
        | yes p ↦ p
        | no p ↦ absurd (omega (arith, four_pow-le 31 h (omega arith)))
      ] in
      let e : u64 (4 ^ h * 4) ≡ 4 ^ suc h =
        omega (arith, pow-suc 4 h, four_pow-le h 30 (omega arith)) in
      let o : h + 1 ≡ suc h = omega arith in
      rw (lt→ltb (4 ^ h) n lt, e, o) (log4_loop_lem fuel (suc h) n b below (omega arith))
  | no ge ↦ (h, rw (ge→ltb (4 ^ h) n (omega arith)) refl, s, omega arith)
]

precompute_of : (n k : ℕ) → log4_loop 32 4 1 n ≡ some k → precompute n ≡ some (masks k)
unfolding precompute
precompute_of n k e = rw e refl

pub precompute-Width : (num_elements : ℕ) → num_elements ≤ 4 ^ 31 → Width num_elements
precompute-Width n b =
    let (k, e, s, c) = log4_loop_lem 32 1 n b (omega arith) (omega arith) in
    record { half_bits = k; found = precompute_of n k e; small = s; covers = c }

module _ (blake2b : List ℕ → ℕ → ℕ) where
  permute-eq :
      (n index h : ℕ) (keys : List ℕ)
      → permute blake2b n index keys (masks h)
        ≡ walk
            (λ u. some (encode blake2b u keys (masks h)))
            n
            (4 ^ h)
            (encode blake2b index keys (masks h))
  unfolding permute masks
  permute-eq n index h keys = refl

  invert_permute-eq :
      (n index h : ℕ) (keys : List ℕ)
      → invert_permute blake2b n index keys (masks h) ≡ (
          decode blake2b index keys (masks h)
          >>= walk (λ u. decode blake2b u keys (masks h)) n (4 ^ h))
  unfolding invert_permute masks
  invert_permute-eq n index h keys = refl

  -- With three keys or more and at most 4 ^ 31 elements: `precompute` ends; `permute` takes every
  -- index below the number of elements to a value below it, in finitely many steps; and
  -- `invert_permute` takes that value back to the index. So `permute` is a permutation.
  pub invert_permute-permute :
      (num_elements index a b c : ℕ) (keys : List ℕ)
      → num_elements ≤ 4 ^ 31
      → index < num_elements
      → (p : FeistelPrecomputed) × (w : ℕ) × (precompute num_elements ≡ some p)
        × (permute blake2b num_elements index (a ∷ b ∷ c ∷ keys) p ≡ some w)
        × (w < num_elements)
        × (invert_permute blake2b num_elements w (a ∷ b ∷ c ∷ keys) p ≡ some index)
  invert_permute-permute n index a b c keys bound h =
      let width = precompute-Width n bound in
      let k = width.half_bits in
      let ks : List ℕ = a ∷ b ∷ c ∷ keys in
      let size_eq = four_pow-eq k in
      let code = λ (u : ℕ). λ (q : u < 4 ^ k).
        encode-Invertible blake2b k u a b c keys width.small (omega (arith, size_eq)) in
      let reversible : IsReversible (λ u. encode blake2b u ks (masks k))
          (λ u. decode blake2b u ks (masks k)) (4 ^ k) =
        record {
          stays = λ u q. omega (arith, size_eq, (code u q).in_range);
          undone = λ u q. (code u q).back;
        } in
      let (w, there, low, back) =
        walk_there_and_back (λ u. encode blake2b u ks (masks k))
          (λ u. decode blake2b u ks (masks k)) (4 ^ k) n reversible index h width.covers in
      (
        masks k,
        w,
        width.found,
        permute-eq n index k ks ∙ there,
        low,
        invert_permute-eq n w k ks ∙ back,
      )
