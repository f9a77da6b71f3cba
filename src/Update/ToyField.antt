-- ===== src/Update/ToyField.antt =====
-- A sector of four nodes in two chunks, over the field of two elements.
use rust_fil_proofs.Base.{
  zero, suc, ◌≡◌, refl, arith, Bool, true, false, ◌&&◌, List, [], ◌∷◌, Option, none, some, ok,
  length, map, replicate,
}
use rust_fil_proofs.Update.Encoding.{
  Node, Fr, UpdateExternals, encode_into, decode_from, remove_encoded_data,
}
use rust_fil_proofs.Update.Chunks.{IsField}
use rust_fil_proofs.Update.Recovered.{encode_into-decode_from}

abbrev xor : Bool → Bool → Bool
xor true true = false
xor true false = true
xor false b = b

abbrev inverse : Bool → Option Bool
inverse true = some true
inverse false = none

abbrev to_bytes : Bool → Node
to_bytes true = 1 ∷ replicate 31 0
to_bytes false = 0 ∷ replicate 31 0

abbrev of_bytes : Node → Option Bool
of_bytes [] = none
of_bytes (zero ∷ bytes) = some false
of_bytes (suc zero ∷ bytes) = some true
of_bytes (suc (suc b) ∷ bytes) = none

abbrev two : Fr Bool
two = record {
  from_repr = of_bytes;
  to_repr = to_bytes;
  add = xor;
  sub = xor;
  mul = λ a b. a && b;
  invert = inverse;
}

two-IsField : IsField two
two-IsField = record {
  repr = repr;
  repr_length = size;
  add_back = back;
  add_off = off;
  mul_back = unmul;
}
  where
    repr : (x : Bool) → of_bytes (to_bytes x) ≡ some x
    repr true = refl
    repr false = refl

    size : (x : Bool) → length (to_bytes x) ≡ 32
    size true = refl
    size false = refl

    back : (a b : Bool) → xor (xor a b) a ≡ b
    back true true = refl
    back true false = refl
    back false true = refl
    back false false = refl

    off : (a b : Bool) → xor (xor a b) b ≡ a
    off true true = refl
    off true false = refl
    off false true = refl
    off false false = refl

    unmul : (a r s : Bool) → inverse r ≡ some s → ((a && r) && s) ≡ a
    unmul a false s h = cc
    unmul true true true h = refl
    unmul false true true h = refl
    unmul a true false h = cc

abbrev first_bytes : List Node → Node
first_bytes [] = []
first_bytes (n ∷ file) = n

abbrev toy : UpdateExternals Bool
toy = record {
  rho = λ phi high. true;
  phi = λ a b. a;
  hash2 = λ a b. b;
  tree_d_root = first_bytes;
  tree_r_root = first_bytes;
}

abbrev the_key : List Bool
the_key = true ∷ false ∷ true ∷ true ∷ []

abbrev the_data : List Bool
the_data = false ∷ false ∷ true ∷ true ∷ []

abbrev blank : List Node
blank = replicate 4 []

encode_into-decode_from_example :
    (encoded : List Node) × (encode_into two toy 2 4 1
        (7 ∷ [])
        (9 ∷ [])
        blank
        (map to_bytes the_key)
        (map to_bytes the_data)
      ≡ ok (encoded, first_bytes encoded, first_bytes encoded, to_bytes false))
    × (length encoded ≡ 4)
    × (decode_from two toy 2 4 1
          (7 ∷ [])
          (to_bytes false)
          (9 ∷ [])
          blank
          encoded
          (map to_bytes the_key)
        ≡ ok (map to_bytes the_data))
    × (remove_encoded_data two toy 2 4 1
          (7 ∷ [])
          (to_bytes false)
          (9 ∷ [])
          blank
          encoded
          (map to_bytes the_data)
        ≡ ok (map to_bytes the_key, to_bytes true))
encode_into-decode_from_example =
    encode_into-decode_from two two-IsField toy 2 4 1 2 (omega arith) (omega arith) (omega arith)
      (omega arith) the_key the_data refl refl (7 ∷ []) (9 ∷ []) (λ high. (true, refl)) blank blank
      blank refl refl refl
