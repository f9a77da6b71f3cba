-- ===== src/Merkle/Binding.antt =====
-- What the root of a tree binds an inclusion proof to (`Proof::verify`,
-- storage-proofs-core/src/merkle/proof.rs).
use native.Mathlib.Decide.{ℕ_discrete}
use mathlib.Core.List.{List-discrete, nil≢cons, head-eq_of_cons-eq, tail-eq_of_cons-eq}
use mathlib.Core.Option.{some-injective, none-ne-some}
use rust_fil_proofs.Base.{
  ℕ, zero, suc, ◌+◌, ◌≡◌, ◌≢◌, ◌⊎◌, inl, inr, refl, sym, ap, ◌∙◌, Bool, true, bytes_eq, List, [],
  ◌∷◌, Option, none, some, map, eq_of_bytes_eq,
}
use rust_fil_proofs.Feistel.Network.{◌>>=◌}
use rust_fil_proofs.Merkle.Paths.{
  Domain, PathElement, insert, path_root, SingleProof, SubProof, TopProof, ProofData, verify_single,
  verify_sub, verify_top, verify, leaf_of, root_of,
}

pub record Collision (multi_node : List Domain → ℕ → Domain) : Type 0 where
  pub height : ℕ
  pub xs : List Domain
  pub ys : List Domain
  pub differ : xs ≢ ys
  pub same : multi_node xs height ≡ multi_node ys height

-- The places that a path goes through, one for each row.
abbrev pub places : List PathElement → List ℕ
places path = map (λ (e : PathElement). e.index) path

pub data SamePlace : ProofData → ProofData → Type 0 where
  single :
      {p q : SingleProof}
      → places p.path ≡ places q.path
      → SamePlace (ProofData.single p) (ProofData.single q)
  sub :
      {p q : SubProof}
      → places p.base_proof ≡ places q.base_proof
      → places p.sub_proof ≡ places q.sub_proof
      → SamePlace (ProofData.sub p) (ProofData.sub q)
  top :
      {p q : TopProof}
      → places p.base_proof ≡ places q.base_proof
      → places p.sub_proof ≡ places q.sub_proof
      → places p.top_proof ≡ places q.top_proof
      → SamePlace (ProofData.top p) (ProofData.top q)

-- A chain that returns: what its first step returned.
pub record Bound {ℓ κ} {A : Type ℓ} {B : Type κ} (o : Option A) (f : A → Option B) (b : B)
    : Type (ℓ ⊔ κ) where
  pub value : A
  pub first : o ≡ some value
  pub after : f value ≡ some b

pub bound {ℓ κ} :
    {A : Type ℓ} {B : Type κ} (o : Option A) (f : A → Option B) {b : B}
    → (o >>= f) ≡ some b
    → Bound o f b
bound none f {b} h = absurd (none-ne-some b h)
bound (some a) f h = record { value = a; first = refl; after = h }

rest_eq :
    {n m : Domain} {r s row : List Domain}
    → Path (Option (List Domain)) (some (n ∷ r)) (some row)
    → Path (Option (List Domain)) (some (m ∷ s)) (some row)
    → s ≡ r
rest_eq p q = cc

insert-injective :
    (i : ℕ) {h k : Domain} (ns ms : List Domain) {row : List Domain}
    → insert i h ns ≡ some row
    → insert i k ms ≡ some row
    → h ≡ k
unfolding insert
insert-injective zero ns ms p q = cc
insert-injective (suc i) [] ms {row} p q = absurd (none-ne-some row p)
insert-injective (suc i) (n ∷ ns) [] {row} p q = absurd (none-ne-some row q)
insert-injective (suc i) {h} {k} (n ∷ ns) (m ∷ ms) {row} p q =
    let left = bound (insert i h ns) _ p in
    let right = bound (insert i k ms) _ q in
    insert-injective i ns ms left.first
      (right.first ∙ ap {B = Option (List Domain)} some (rest_eq left.after right.after))

accepted : (root r : Domain) → Path (Option Bool) (some (bytes_eq root r)) (some true) → root ≡ r
accepted root r h = eq_of_bytes_eq root r (some-injective _ _ h)

module _ {multi_node : List Domain → ℕ → Domain} where
  -- Two paths through the same places to one root begin at one node, or two rows collide.
  path_root-binding :
      (height : ℕ) (h k : Domain) (path others : List PathElement) {root : Domain}
      → places path ≡ places others
      → path_root multi_node height h path ≡ some root
      → path_root multi_node height k others ≡ some root
      → Collision multi_node ⊎ (h ≡ k)
  unfolding path_root
  path_root-binding height h k [] [] same p q = inr cc
  path_root-binding height h k [] (o ∷ others) same p q = absurd (nil≢cons same)
  path_root-binding height h k (e ∷ path) [] same p q = absurd (nil≢cons (sym same))
  path_root-binding height h k (e ∷ path) (o ∷ others) same p q =
      let left = bound (insert e.index h e.hashes) _ p in
      let right = bound (insert o.index k o.hashes) _ q in
      elim (path_root-binding (height + 1) _ _ path others (tail-eq_of_cons-eq same) left.after
        right.after) [
          | inl collision ↦ inl collision
          | inr one_node ↦ elim (List-discrete (List-discrete ℕ_discrete) left.value right.value) [
            | yes one_row ↦ inr (
                insert-injective e.index e.hashes o.hashes left.first (
                  ap (λ i. insert i k o.hashes) (head-eq_of_cons-eq same)
                  ∙ right.first
                  ∙ ap {B = Option (List Domain)} some (sym one_row)))
            | no two_rows ↦ inl (record {
              height = height;
              xs = left.value;
              ys = right.value;
              differ = two_rows;
              same = one_node;
            })
          ]
        ]

  -- The same of one layer of a tree, from what the layers above it say of its roots.
  layer :
      (h k : Domain) (path others : List PathElement) {r s : Domain}
      → places path ≡ places others
      → path_root multi_node 0 h path ≡ some r
      → path_root multi_node 0 k others ≡ some s
      → Collision multi_node ⊎ (r ≡ s)
      → Collision multi_node ⊎ (h ≡ k)
  layer h k path others same p q (inl collision) = inl collision
  layer h k path others same p q (inr one_root) =
      path_root-binding 0 h k path others same p (q ∙ ap {B = Option Domain} some (sym one_root))

  roots :
      {root other : Domain} (r s : Domain)
      → root ≡ other
      → Path (Option Bool) (some (bytes_eq root r)) (some true)
      → Path (Option Bool) (some (bytes_eq other s)) (some true)
      → Collision multi_node ⊎ (r ≡ s)
  roots {root} {other} r s same p q = inr (sym (accepted root r p) ∙ same ∙ accepted other s q)

  -- Two proofs of the same shape that `verify` accepts, whose paths go through the same places and whose
  -- roots are equal, have one leaf, unless they exhibit two different rows of nodes that `multi_node`
  -- maps to the same node at one height.
  pub verify-binding :
      (p q : ProofData)
      → SamePlace p q
      → root_of p ≡ root_of q
      → verify multi_node p ≡ some true
      → verify multi_node q ≡ some true
      → Collision multi_node ⊎ (leaf_of p ≡ leaf_of q)
  unfolding verify verify_single verify_sub verify_top
  verify-binding (ProofData.single p) (ProofData.single q) (SamePlace.single same) one_root v w =
      let left = bound (path_root multi_node 0 p.leaf p.path) _ v in
      let right = bound (path_root multi_node 0 q.leaf q.path) _ w in
      layer p.leaf q.leaf p.path q.path same left.first right.first
        (roots left.value right.value one_root left.after right.after)
  verify-binding (ProofData.sub p) (ProofData.sub q) (SamePlace.sub base above) one_root v w =
      let left = bound (path_root multi_node 0 p.leaf p.base_proof) _ v in
      let right = bound (path_root multi_node 0 q.leaf q.base_proof) _ w in
      let left_sub = bound (path_root multi_node 0 left.value p.sub_proof) _ left.after in
      let right_sub = bound (path_root multi_node 0 right.value q.sub_proof) _ right.after in
      layer p.leaf q.leaf p.base_proof q.base_proof base left.first right.first (
        layer left.value right.value p.sub_proof q.sub_proof above left_sub.first right_sub.first
          (roots left_sub.value right_sub.value one_root left_sub.after right_sub.after))
  verify-binding (ProofData.top p) (ProofData.top q) (SamePlace.top base middle above) one_root v
        w =
      let left = bound (path_root multi_node 0 p.leaf p.base_proof) _ v in
      let right = bound (path_root multi_node 0 q.leaf q.base_proof) _ w in
      let left_sub = bound (path_root multi_node 0 left.value p.sub_proof) _ left.after in
      let right_sub = bound (path_root multi_node 0 right.value q.sub_proof) _ right.after in
      let left_top = bound (path_root multi_node 0 left_sub.value p.top_proof) _ left_sub.after in
      let right_top =
        bound (path_root multi_node 0 right_sub.value q.top_proof) _ right_sub.after in
      layer p.leaf q.leaf p.base_proof q.base_proof base left.first right.first (
        layer left.value right.value p.sub_proof q.sub_proof middle left_sub.first right_sub.first (
          layer left_sub.value right_sub.value p.top_proof q.top_proof above left_top.first
            right_top.first
            (roots left_top.value right_top.value one_root left_top.after right_top.after)))
  verify-binding (ProofData.single p) (ProofData.sub q) shape one_root v w = elim shape [ ]
  verify-binding (ProofData.single p) (ProofData.top q) shape one_root v w = elim shape [ ]
  verify-binding (ProofData.sub p) (ProofData.single q) shape one_root v w = elim shape [ ]
  verify-binding (ProofData.sub p) (ProofData.top q) shape one_root v w = elim shape [ ]
  verify-binding (ProofData.top p) (ProofData.single q) shape one_root v w = elim shape [ ]
  verify-binding (ProofData.top p) (ProofData.sub q) shape one_root v w = elim shape [ ]
