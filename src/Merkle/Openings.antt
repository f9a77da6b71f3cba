-- ===== src/Merkle/Openings.antt =====
-- Two proofs that `validate` accepts for one node of one tree (storage-proofs-core/src/merkle/proof.rs).
use mathlib.Core.Option.{some-injective}
use rust_fil_proofs.Base.{
  ℕ, ◌≡◌, ◌⊎◌, refl, sym, ap, ◌∙◌, arith, Bool, true, false, List, [], ◌∷◌, ◌++◌, Option, some,
  ◌==◌, ==_iff, if◌then◌else◌, length, length-append,
}
use rust_fil_proofs.Merkle.Paths.{
  Domain, PathElement, ProofData, Arities, verify, leaf_of, root_of, proof_index, proof_path,
}
use rust_fil_proofs.Merkle.Validate.{validate}
use rust_fil_proofs.Merkle.Binding.{Collision, bound, verify-binding}
use rust_fil_proofs.Merkle.Index.{InTree, SameShape, proof_index-SamePlace}
use rust_fil_proofs.Merkle.RoundTrip.{Fits}

last_row :
    (xs ys : List PathElement) (e f : PathElement)
    → length (xs ++ e ∷ []) ≡ length (ys ++ f ∷ [])
    → length xs ≡ length ys
last_row xs ys e f h = omega (arith, h, length-append xs (e ∷ []), length-append ys (f ∷ []))

same_shape :
    (t : Arities) (p q : ProofData)
    → Fits t p
    → Fits t q
    → length (proof_path p) ≡ length (proof_path q)
    → SameShape p q
same_shape t (ProofData.single p) (ProofData.single q) (Fits.single a) (Fits.single b) h =
    SameShape.single h
same_shape t (ProofData.sub p) (ProofData.sub q) (Fits.sub {base_proof = xs} {e} a b)
      (Fits.sub {base_proof = ys} {e = f} c d) h =
    SameShape.sub (last_row xs ys e f h) refl
same_shape t (ProofData.top p) (ProofData.top q) (Fits.top {base_proof = xs} {e} {f} a b)
      (Fits.top {base_proof = ys} {e = k} {f = l} c d) h =
    SameShape.top (last_row xs ys e k (last_row (xs ++ e ∷ []) (ys ++ k ∷ []) f l h)) refl refl
same_shape t (ProofData.single p) (ProofData.sub q) (Fits.single a) (Fits.sub b c) h = cc
same_shape t (ProofData.single p) (ProofData.top q) (Fits.single a) (Fits.top b c) h = cc
same_shape t (ProofData.sub p) (ProofData.single q) (Fits.sub a b) (Fits.single c) h = cc
same_shape t (ProofData.sub p) (ProofData.top q) (Fits.sub a b) (Fits.top c d) h = cc
same_shape t (ProofData.top p) (ProofData.single q) (Fits.top a b) (Fits.single c) h = cc
same_shape t (ProofData.top p) (ProofData.sub q) (Fits.top a b) (Fits.sub c d) h = cc

at_node :
    (verified : Bool) (node index : ℕ)
    → (if verified then node == index else false) ≡ true
    → (verified ≡ true) × (node ≡ index)
at_node true node index h = (refl, (==_iff node index).0 h)
at_node false node index h = cc

module _ (multi_node : List Domain → ℕ → Domain) where
  validated :
      (t : Arities) (p : ProofData) (node : ℕ)
      → validate multi_node t p node ≡ some true
      → (verify multi_node p ≡ some true) × (node ≡ proof_index t p)
  unfolding validate
  validated t p node h =
      let parts = bound (verify multi_node p) _ h in
      let (verified, here) =
        at_node parts.value node (proof_index t p) (some-injective _ _ parts.after) in
      (parts.first ∙ ap {B = Option Bool} some verified, here)

  -- Two proofs of the shape that the arities ask for, with places below the arities, in a tree of fewer
  -- than 2 ^ 64 leaves, that validate accepts for the same node, with paths of the same length and with
  -- equal roots, have one leaf, unless they exhibit two different rows of nodes that `multi_node` maps
  -- to the same node at one height.
  pub validate-binding :
      (t : Arities) (p q : ProofData) (node : ℕ)
      → Fits t p
      → Fits t q
      → InTree t p
      → InTree t q
      → root_of p ≡ root_of q
      → length (proof_path p) ≡ length (proof_path q)
      → validate multi_node t p node ≡ some true
      → validate multi_node t q node ≡ some true
      → Collision multi_node ⊎ (leaf_of p ≡ leaf_of q)
  validate-binding t p q node fits_p fits_q in_p in_q one_root len v w =
      let (ok_p, at_p) = validated t p node v in
      let (ok_q, at_q) = validated t q node w in
      verify-binding p q
        (proof_index-SamePlace t p q (same_shape t p q fits_p fits_q len) in_p in_q
          (sym at_p ∙ at_q))
        one_root ok_p ok_q
