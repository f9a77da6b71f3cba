-- ===== src/Merkle/RoundTrip.antt =====
-- `MerkleProof::from_parts` and `path` (storage-proofs-core/src/merkle/proof.rs).
use rust_fil_proofs.Base.{◌≡◌, refl, true, false, List, [], ◌∷◌, ◌++◌, some, ◌==◌}
use rust_fil_proofs.Merkle.Paths.{
  Domain, PathElement, SingleProof, ProofData, Arities, leaf_of, root_of, proof_path, pop,
  from_parts,
}

-- The shape that the arities ask for: one row in a layer above the base.
pub data Fits (t : Arities) : ProofData → Type 0 where
  single : {p : SingleProof} → (t.sub_arity == 0) ≡ true → Fits t (ProofData.single p)
  sub :
      {base_proof : List PathElement} {e : PathElement} {root leaf : Domain}
      → (t.sub_arity == 0) ≡ false
      → (t.top_arity == 0) ≡ true
      → Fits t (
          ProofData.sub
            (record { base_proof = base_proof; sub_proof = e ∷ []; root = root; leaf = leaf }))
  top :
      {base_proof : List PathElement} {e f : PathElement} {root leaf : Domain}
      → (t.sub_arity == 0) ≡ false
      → (t.top_arity == 0) ≡ false
      → Fits t (
          ProofData.top (record {
            base_proof = base_proof;
            sub_proof = e ∷ [];
            top_proof = f ∷ [];
            root = root;
            leaf = leaf;
          }))

pop_lem : (path : List PathElement) (e : PathElement) → pop (path ++ (e ∷ [])) ≡ some (path, e)
unfolding pop
pop_lem [] e = refl
pop_lem (f ∷ []) e = refl
pop_lem (f ∷ (g ∷ path)) e = rw (pop_lem (g ∷ path) e) refl

-- `from_parts` gives a proof back from its leaf, its root and its path, where the proof has the shape
-- that the arities ask for: a single one without a sub arity, else one row for each layer above the base.
pub from_parts-proof_path :
    (t : Arities) (p : ProofData)
    → Fits t p
    → from_parts t (leaf_of p) (root_of p) (proof_path p) ≡ some p
unfolding from_parts
from_parts-proof_path t (ProofData.single p) (Fits.single flat) = rw (flat) refl
from_parts-proof_path t (ProofData.sub p) (Fits.sub {base_proof} {e} above flat) =
    rw (above, flat, pop_lem base_proof e) refl
from_parts-proof_path t (ProofData.top p) (Fits.top {base_proof} {e} {f} above over) =
    rw (above, over, pop_lem (base_proof ++ (e ∷ [])) f, pop_lem base_proof e) refl
