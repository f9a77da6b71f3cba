-- ===== src/Update/Chunks.antt =====
-- The loops over chunks and the rhos of storage-proofs-update/src/vanilla.rs: what they compute.
use native.Mathlib.Decide.{ℕ_discrete}
use native.Mathlib.Nat.{zero-div, le-div_iff_mul-le, div-mul-le_self}
use rust_fil_proofs.Base.{
  ℕ, zero, suc, ◌+◌, ◌-◌, ◌*◌, ◌/◌, ◌%◌, ◌^◌, ◌≤◌, ◌<◌, ◌≡◌, ◌∙◌, refl, sym, ap, arith, true, false,
  not, List, [], ◌∷◌, ◌++◌, some, Result, ok, leb, ◌==◌, u64, sub64, length, take, drop, get_elem?,
  length-drop, le→leb,
}
use rust_fil_proofs.Base.Powers.{two_pow_pos}
use rust_fil_proofs.Porep.CacheReads.{drop-get_elem?, drop_end}
use rust_fil_proofs.Update.Encoding.{
  Node, UpdateError, Fr, Rhos, lookup, get, calc_bits_shr, calc_high_range, collect_rhos, rhos_over,
  chunk_nodes, process_chunks, process,
}

-- What is used of the field.
pub record IsField {F : Type 0} (fr : Fr F) : Type 0 where
  pub repr : (x : F) → fr.from_repr (fr.to_repr x) ≡ some x
  pub repr_length : (x : F) → length (fr.to_repr x) ≡ 32
  pub add_back : (a b : F) → fr.sub (fr.add a b) a ≡ b
  pub add_off : (a b : F) → fr.sub (fr.add a b) b ≡ a
  pub mul_back : (a r s : F) → fr.invert r ≡ some s → fr.mul (fr.mul a r) s ≡ a

-- The chunks fill the output with a file of which each node is computed.
module _ (node : ℕ → Result UpdateError Node) (target : List Node)
    (computes : (i : ℕ) (x : Node) → get_elem? target i ≡ some x → node i ≡ ok x) where
  found_at : (i : ℕ) (xs : List Node) → i < length xs → (x : Node) × (get_elem? xs i ≡ some x)
  found_at i [] h = absurd (omega arith)
  found_at zero (x ∷ xs) h = (x, refl)
  found_at (suc i) (x ∷ xs) h = found_at i xs (omega arith)

  chunk_nodes-take :
      (count i : ℕ)
      → i + count ≤ length target
      → chunk_nodes node i count ≡ ok (take count (drop i target))
  unfolding chunk_nodes
  chunk_nodes-take zero i h = refl
  chunk_nodes-take (suc count) i h =
      let (x, found) = found_at i target (omega arith) in
      let rest = chunk_nodes-take count (i + 1) (omega arith) in
      rw (computes i x found, rest, drop-get_elem? target i x found) refl

  take-drop : (k : ℕ) (xs : List Node) → take k xs ++ drop k xs ≡ xs
  take-drop zero xs = refl
  take-drop (suc k) [] = refl
  take-drop (suc k) (x ∷ xs) = ap (λ t. x ∷ t) (take-drop k xs)

  drop-drop : (a b : ℕ) (xs : List Node) → drop b (drop a xs) ≡ drop (a + b) xs
  drop-drop zero b xs = let e : 0 + b ≡ b = omega arith in rw e refl
  drop-drop (suc a) b [] = let e : suc a + b ≡ suc (a + b) = omega arith in drop_empty b ∙ rw e refl
    where
      drop_empty : (b : ℕ) → drop {A = Node} b [] ≡ []
      drop_empty zero = refl
      drop_empty (suc b) = refl
  drop-drop (suc a) b (x ∷ xs) =
      let e : suc a + b ≡ suc (a + b) = omega arith in rw e (drop-drop a b xs)

  process_step :
      (c fuel end start : ℕ) (o : Node) (output nodes more : List Node)
      → start < end
      → c ≤ length (o ∷ output)
      → chunk_nodes node start c ≡ ok nodes
      → process_chunks node c fuel end (start + c) (drop c (o ∷ output)) ≡ ok more
      → process_chunks node c (suc fuel) end start (o ∷ output) ≡ ok (nodes ++ more)
  unfolding process_chunks
  process_step c fuel end start o output nodes more h k e es =
      let going : leb end start ≡ false = ground arith in
      let whole = le→leb c (length (o ∷ output)) k in rw (es, going, whole, e) refl

  process_chunks-drop :
      (m c fuel end start : ℕ) (output : List Node)
      → 1 ≤ c
      → length output ≡ c * m
      → length output ≤ fuel
      → start + length output ≡ length target
      → length target ≤ end
      → process_chunks node c fuel end start output ≡ ok (drop start target)
  unfolding process_chunks
  process_chunks-drop m c fuel end start [] positive size enough same long =
      ap (λ xs. ok xs) (sym (drop_end target start (omega (arith, same))))
  process_chunks-drop m c zero end start (o ∷ output) positive size enough same long =
      absurd (omega arith)
  process_chunks-drop zero c (suc fuel) end start (o ∷ output) positive size enough same long =
      absurd (omega (arith, size))
  process_chunks-drop (suc m) c (suc fuel) end start (o ∷ output) positive size enough same long =
      let fits : c ≤ length (o ∷ output) = omega (arith, size) in
      let rest_size : length (drop c (o ∷ output)) ≡ length (o ∷ output) - c =
        length-drop c (o ∷ output) in
      let rest =
        process_chunks-drop m c fuel end (start + c) (drop c (o ∷ output)) positive
          (omega (arith, size, rest_size)) (omega (arith, rest_size))
          (omega (arith, rest_size, same)) long in
      process_step c fuel end start o output _ _ (omega (arith, same)) fits
        (chunk_nodes-take c start (omega (arith, same))) rest
      ∙ ap (λ xs. ok xs)
          (ap (λ t. take c (drop start target) ++ t) (sym (drop-drop start c target))
            ∙ take-drop c (drop start target))

  pub process-target :
      (m c end : ℕ) (output : List Node)
      → 1 ≤ c
      → length output ≡ c * m
      → length output ≡ length target
      → length target ≤ end
      → process node c end output ≡ ok target
  unfolding process
  process-target m c end output positive size same long =
      let step : not (c == 0) ≡ true = ground arith in
      let e =
        process_chunks-drop m c (length output) end 0 output positive size (omega arith)
          (omega (arith, same)) long in
      rw step e

-- The pairs of high bits and their values.
module _ {F : Type 0} (fr : Fr F) (rho : ℕ → Result UpdateError F) (value : ℕ → F)
    (valued : (high : ℕ) → rho high ≡ ok (value high)) where
  collect_rhos-lookup :
      (count first : ℕ)
      → (pairs : List (ℕ × F)) × (collect_rhos fr rho first count ≡ ok pairs)
        × ((high : ℕ)
            → first ≤ high
            → high < first + count
            → lookup fr pairs high ≡ some (value high))
  unfolding collect_rhos lookup
  collect_rhos-lookup zero first = ([], refl, λ high a b. absurd (omega arith))
  collect_rhos-lookup (suc count) first =
      let (pairs, e, found) = collect_rhos-lookup count (first + 1) in
      (
        (first, value first) ∷ pairs,
        rw (valued first, e) refl,
        λ high a b. elim (ℕ_discrete first high) [
          | yes same ↦
              let test : (first == high) ≡ true = ground (arith, same) in
              rw test (ap (λ k. some (value k)) same)
          | no other ↦
              let test : (first == high) ≡ false = ground (arith, other) in
              rw test (found high (omega arith) (omega arith))
        ],
      )

  pub rhos_over-get :
      (h nodes_count : ℕ)
      → 1 ≤ nodes_count
      → nodes_count < 2 ^ 64
      → (rhos : Rhos fr) × (rhos_over fr rho h nodes_count 0 nodes_count ≡ ok rhos)
        × ((i : ℕ)
            → i < nodes_count
            → get fr rhos i ≡ ok (value (i / 2 ^ (calc_bits_shr fr h nodes_count % 64))))
  unfolding rhos_over get calc_high_range
  rhos_over-get h nodes_count positive word =
      let shr = calc_bits_shr fr h nodes_count in
      let last = sub64 (u64 (0 + nodes_count)) 1 / 2 ^ (shr % 64) in
      let (pairs, e, found) = collect_rhos-lookup (last + 1 - 0) 0 in
      let first : 0 / 2 ^ (shr % 64) ≡ 0 = zero-div (2 ^ (shr % 64)) in
      (
        record { rhos = pairs; bits_shr = shr },
        rw (first, e) refl,
        λ i k.
            let low : i / 2 ^ (shr % 64) ≤ last =
              below (2 ^ (shr % 64)) (two_pow_pos (shr % 64)) i (sub64 (u64 (0 + nodes_count)) 1)
                (omega arith) in
            rw (found (i / 2 ^ (shr % 64)) (omega arith) (omega arith)) refl,
      )
    where
      below : (d : ℕ) → 1 ≤ d → (i n : ℕ) → i ≤ n → i / d ≤ n / d
      below d positive i n h = (le-div_iff_mul-le positive).1 (omega (arith, div-mul-le_self i d))
