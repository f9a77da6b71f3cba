-- ===== src/Update/RoundTrip.antt =====
-- Encoding of data into a sector key (storage-proofs-update/src/vanilla.rs) and its two inverses.
use rust_fil_proofs.Base.{
  ℕ, zero, suc, ◌+◌, ◌<◌, ◌≡◌, ◌∙◌, refl, sym, ap, arith, List, [], ◌∷◌, some, ok, length,
  get_elem?, map, length-map,
}
use rust_fil_proofs.Update.Encoding.{
  Node, Fr, bytes_into_fr, Rhos, get, encode_node, decode_node, remove_node,
}
use rust_fil_proofs.Update.Chunks.{IsField}

some-lt : {A : Type 0} (xs : List A) (i : ℕ) (x : A) → get_elem? xs i ≡ some x → i < length xs
some-lt [] i x h = cc
some-lt (y ∷ xs) zero x h = omega arith
some-lt (y ∷ xs) (suc i) x h = let e = some-lt xs i x h in omega arith

get_elem?-map :
    {A B : Type 0} (f : A → B) (xs : List A) (i : ℕ) (x : A)
    → get_elem? xs i ≡ some x
    → get_elem? (map f xs) i ≡ some (f x)
get_elem?-map f [] i x h = cc
get_elem?-map f (y ∷ xs) zero x h = let same : y ≡ x = cc in ap (λ t. some (f t)) same
get_elem?-map f (y ∷ xs) (suc i) x h = get_elem?-map f xs i x h

module _ {F : Type 0} (fr : Fr F) (is_field : IsField fr) where
  bytes_into_fr-to_repr : (x : F) → bytes_into_fr fr (fr.to_repr x) ≡ ok x
  unfolding bytes_into_fr
  bytes_into_fr-to_repr x = rw (is_field.repr_length x, is_field.repr x) refl

  -- The encoded elements, from number `i` on.
  pub replica_of : (ℕ → F) → ℕ → List F → List F → List F
  replica_of rho i [] ds = []
  replica_of rho i (k ∷ ks) [] = []
  replica_of rho i (k ∷ ks) (d ∷ ds) = fr.add k (fr.mul d (rho i)) ∷ replica_of rho (i + 1) ks ds

  pub replica_of-length :
      (rho : ℕ → F) (i : ℕ) (ks ds : List F)
      → length ks ≡ length ds
      → length (replica_of rho i ks ds) ≡ length ds
  unfolding replica_of
  replica_of-length rho i [] [] h = refl
  replica_of-length rho i [] (d ∷ ds) h = absurd (omega (arith, h))
  replica_of-length rho i (k ∷ ks) [] h = refl
  replica_of-length rho i (k ∷ ks) (d ∷ ds) h =
      ap suc (replica_of-length rho (i + 1) ks ds (omega (arith, h)))

  -- The three elements at one place.
  element :
      (rho : ℕ → F) (j i : ℕ) (ks ds : List F)
      → length ks ≡ length ds
      → i < length ds
      → (k : F) × (d : F) × (get_elem? ks i ≡ some k)
        × (get_elem? ds i ≡ some d)
        × (get_elem? (replica_of rho j ks ds) i ≡ some (fr.add k (fr.mul d (rho (j + i)))))
  unfolding replica_of
  element rho j i ks [] h b = absurd (omega arith)
  element rho j i [] (d ∷ ds) h b = absurd (omega (arith, h))
  element rho j zero (k ∷ ks) (d ∷ ds) h b =
      let e : j + 0 ≡ j = omega arith in
      (k, d, refl, refl, ap (λ n. some (fr.add k (fr.mul d (rho n)))) (sym e))
  element rho j (suc i) (k ∷ ks) (d ∷ ds) h b =
      let (k', d', a, c, r) = element rho (j + 1) i ks ds (omega (arith, h)) (omega arith) in
      let e : j + 1 + i ≡ j + suc i = omega arith in
      (k', d', a, c, r ∙ ap (λ n. some (fr.add k' (fr.mul d' (rho n)))) e)

  -- The three loop bodies, at a place of files that hold field elements.
  module _ (ks ds : List F) (same_size : length ks ≡ length ds) (rho : ℕ → F) where
    abbrev keys : List Node
    keys = map fr.to_repr ks

    abbrev datas : List Node
    datas = map fr.to_repr ds

    abbrev replica : List Node
    replica = map fr.to_repr (replica_of rho 0 ks ds)

    pub encode_node-replica :
        (rhos : Rhos fr) (i : ℕ) (x : Node)
        → ((j : ℕ) → j < length ds → get fr rhos j ≡ ok (rho j))
        → get_elem? replica i ≡ some x
        → encode_node fr rhos keys datas i ≡ ok x
    unfolding encode_node
    encode_node-replica rhos i x has_rho found =
        let size =
          length-map fr.to_repr (replica_of rho 0 ks ds)
          ∙ replica_of-length rho 0 ks ds same_size in
        let low = some-lt replica i x found in
        let below : i < length ds = omega (arith, size) in
        let (k, d, key, data_, r) = element rho 0 i ks ds same_size below in
        let at_key = get_elem?-map fr.to_repr ks i k key in
        let at_data = get_elem?-map fr.to_repr ds i d data_ in
        let at_replica = get_elem?-map fr.to_repr (replica_of rho 0 ks ds) i _ r in
        let zero_i : 0 + i ≡ i = omega arith in
        let same : fr.to_repr (fr.add k (fr.mul d (rho (0 + i)))) ≡ x =
          (let q = sym at_replica ∙ found in cc) in
        rw (has_rho i below, at_key, bytes_into_fr-to_repr k, at_data, bytes_into_fr-to_repr d)
          (ap (λ n. ok (fr.to_repr (fr.add k (fr.mul d (rho n))))) (sym zero_i)
            ∙ ap (λ t. ok t) same)

    pub remove_node-keys :
        (rhos : Rhos fr) (i : ℕ) (x : Node)
        → ((j : ℕ) → j < length ds → get fr rhos j ≡ ok (rho j))
        → get_elem? keys i ≡ some x
        → remove_node fr rhos datas replica i ≡ ok x
    unfolding remove_node
    remove_node-keys rhos i x has_rho found =
        let size = length-map fr.to_repr ks ∙ same_size in
        let low = some-lt keys i x found in
        let below : i < length ds = omega (arith, size) in
        let (k, d, key, data_, r) = element rho 0 i ks ds same_size below in
        let at_key = get_elem?-map fr.to_repr ks i k key in
        let at_data = get_elem?-map fr.to_repr ds i d data_ in
        let at_replica = get_elem?-map fr.to_repr (replica_of rho 0 ks ds) i _ r in
        let zero_i : i ≡ 0 + i = omega arith in
        let same : fr.to_repr k ≡ x = (let q = sym at_key ∙ found in cc) in
        let off = is_field.add_off k (fr.mul d (rho (0 + i))) in
        rw
          (
            has_rho i below,
            at_data,
            bytes_into_fr-to_repr d,
            at_replica,
            bytes_into_fr-to_repr (fr.add k (fr.mul d (rho (0 + i)))),
          )
          (ap (λ n. ok (fr.to_repr (fr.sub (fr.add k (fr.mul d (rho (0 + i)))) (fr.mul d (rho n)))))
              zero_i
            ∙ ap (λ t. ok (fr.to_repr t)) off
            ∙ ap (λ t. ok t) same)

    pub decode_node-datas :
        (rho_invs : Rhos fr) (inverse : ℕ → F) (i : ℕ) (x : Node)
        → ((j : ℕ) → j < length ds → get fr rho_invs j ≡ ok (inverse j))
        → ((j : ℕ) → fr.invert (rho j) ≡ some (inverse j))
        → get_elem? datas i ≡ some x
        → decode_node fr rho_invs keys replica i ≡ ok x
    unfolding decode_node
    decode_node-datas rho_invs inverse i x has_inv inverts found =
        let size = length-map fr.to_repr ds in
        let low = some-lt datas i x found in
        let below : i < length ds = omega (arith, size) in
        let (k, d, key, data_, r) = element rho 0 i ks ds same_size below in
        let at_key = get_elem?-map fr.to_repr ks i k key in
        let at_data = get_elem?-map fr.to_repr ds i d data_ in
        let at_replica = get_elem?-map fr.to_repr (replica_of rho 0 ks ds) i _ r in
        let zero_i : 0 + i ≡ i = omega arith in
        let same : fr.to_repr d ≡ x = (let q = sym at_data ∙ found in cc) in
        let back = is_field.add_back k (fr.mul d (rho (0 + i))) in
        let unmul = is_field.mul_back d (rho i) (inverse i) (inverts i) in
        rw
          (
            has_inv i below,
            at_key,
            bytes_into_fr-to_repr k,
            at_replica,
            bytes_into_fr-to_repr (fr.add k (fr.mul d (rho (0 + i)))),
          )
          (ap (λ t. ok (fr.to_repr (fr.mul t (inverse i))))
              (back ∙ ap (λ n. fr.mul d (rho n)) zero_i)
            ∙ ap (λ t. ok (fr.to_repr t)) unmul
            ∙ ap (λ t. ok t) same)
