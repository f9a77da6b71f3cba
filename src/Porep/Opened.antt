-- ===== src/Porep/Opened.antt =====
-- What the prover of storage-proofs-porep/src/stacked/vanilla/proof.rs opens for a sector that was
-- sealed: the parents of a node, their columns, and the data of the parents for the labels.
use native.Mathlib.Decide.{dec_lt}
use rust_fil_proofs.Base.{
  ℕ, zero, suc, ◌+◌, ◌-◌, ◌≤◌, ◌<◌, ◌≡◌, ◌∙◌, ◌⊎◌, inl, inr, refl, sym, ap, subst, arith, min, max,
  true, false, not, List, [], ◌∷◌, ◌++◌, some, ok, ltb, ◌==◌, if◌then◌else◌, le→leb, lt→ltb, ge→ltb,
  length, length-append, All-append, take, replicate, get_elem?, All, >>=-eq-ok,
}
use rust_fil_proofs.Post.Complete.{ok_inj}
use rust_fil_proofs.Api.{ApiVersion}
use rust_fil_proofs.Graph.Bucket.{parents}
use rust_fil_proofs.Graph.Parents.{IsLog2, parents-IsParents}
use rust_fil_proofs.Graph.Stacked.{StackedGraph, stacked_parents, generate_expanded_parents}
use rust_fil_proofs.Graph.Expanded.{IsGraph, expanded-All, stacked_parents-eq}
use rust_fil_proofs.Porep.Labeling.{Domain, Externals}
use rust_fil_proofs.Porep.Proofs.{total_parents}
use rust_fil_proofs.Porep.Layers.{
  read_at, labels_for_layer, domain_node_at_layer, read_rows, fill_chunks, repeat_parents,
  parent_labels, parents_data_at, parents_data_full_at,
}

take_all : (k : ℕ) (xs : List ℕ) → length xs ≤ k → take k xs ≡ xs
take_all zero [] h = refl
take_all zero (x ∷ xs) h = absurd (omega arith)
take_all (suc k) [] h = refl
take_all (suc k) (x ∷ xs) h = ap (λ t. x ∷ t) (take_all k xs (omega arith))

earlier_below :
    (node nodes : ℕ) (xs : List ℕ)
    → node < nodes
    → All (λ p. p < max node 1) xs
    → All (λ p. p < nodes) xs
earlier_below node nodes [] h all = tt
earlier_below node nodes (x ∷ xs) h (p, all) = (omega arith, earlier_below node nodes xs h all)

-- The parents that the three functions of the graph give for one node.
pub record NodeParents (ext : Externals) (g : StackedGraph) (nodes node : ℕ) : Type 0 where
  pub base : List ℕ
  pub expanded : List ℕ
  pub base_eq :
      parents ext.rng ext.log2_ceil g.base_graph node (replicate g.base_graph.base_degree 0)
      ≡ ok base
  pub expanded_eq :
      generate_expanded_parents ext.blake2b g node 0 (replicate g.expansion_degree 0) ≡ ok expanded
  pub both_eq :
      stacked_parents ext.blake2b ext.rng ext.log2_ceil g node
        (replicate (g.base_graph.base_degree + g.expansion_degree) 0)
      ≡ ok (base ++ expanded)
  pub base_length : length base ≡ 6
  pub base_low : All (λ p. p < nodes) base
  pub expanded_low : All (λ p. p < nodes) expanded

module _ (ext : Externals) (is_log2 : IsLog2 ext.log2_ceil) (nodes : ℕ) (version : ApiVersion)
    (g : StackedGraph) (is : IsGraph nodes version g) where
  pub parents_of : (node : ℕ) → node < nodes → NodeParents ext g nodes node
  unfolding rust_fil_proofs.Graph.Bucket.slice_of
  parents_of node h =
      let few = is.few in
      let degree = is.base_size in
      let expansion = is.expansion in
      let (base, e, lem) =
        parents-IsParents ext.rng ext.log2_ceil is_log2 g.base_graph node (replicate 6 0)
          (omega (arith, degree)) (omega (arith, degree)) (omega (arith, degree)) (omega arith)
          (rw degree (omega arith)) in
      let size : length base ≡ 6 = lem.same_length in
      let low : All (λ p. p < max node 1) (take 6 base) =
        subst (λ d. All (λ p. p < max node 1) (take d base)) degree lem.earlier in
      let (expanded, es, expanded_size, expanded_low) =
        expanded-All ext.blake2b nodes version g is node 0 (replicate 8 0) h (omega arith) in
      record {
        base = base;
        expanded = expanded;
        base_eq =
            ap (λ d. parents ext.rng ext.log2_ceil g.base_graph node (replicate d 0)) degree ∙ e;
        expanded_eq =
            ap (λ d. generate_expanded_parents ext.blake2b g node 0 (replicate d 0)) expansion ∙ es;
        both_eq =
            stacked_parents-eq ext.blake2b ext.rng ext.log2_ceil g node
              (replicate (g.base_graph.base_degree + g.expansion_degree) 0) (replicate 6 0)
              (replicate 8 0) base expanded (rw (degree, expansion) refl) e
              (rw (degree, expansion) refl) es (rw (degree, expansion) refl);
        base_length = size;
        base_low = earlier_below node nodes base h (
            subst (λ xs. All (λ p. p < max node 1) xs) (take_all 6 base (omega (arith, size))) low);
        expanded_low = expanded_low;
      }

pub fill_chunks-step :
    (fuel : ℕ) (data_ : List Domain) (remaining : ℕ) (out : List Domain)
    → 1 ≤ remaining
    → fill_chunks fuel data_ (remaining - min (length data_) remaining) ≡ ok out
    → fill_chunks (suc fuel) data_ remaining ≡ ok (take (min (length data_) remaining) data_ ++ out)
unfolding fill_chunks
fill_chunks-step fuel data_ remaining out h e =
    let some_left : (remaining == 0) ≡ false = ground arith in rw (e, some_left) refl

fill_chunks-total :
    (fuel : ℕ) (data_ : List Domain) (remaining : ℕ)
    → 1 ≤ length data_
    → remaining ≤ fuel
    → (out : List Domain) × (fill_chunks fuel data_ remaining ≡ ok out)
unfolding fill_chunks
fill_chunks-total zero data_ zero h k = ([], refl)
fill_chunks-total zero data_ (suc remaining) h k = absurd (omega arith)
fill_chunks-total (suc fuel) data_ zero h k = ([], refl)
fill_chunks-total (suc fuel) data_ (suc remaining) h k =
    let (out, e) =
      fill_chunks-total fuel data_ (suc remaining - min (length data_) (suc remaining)) h
        (omega arith) in
    (
      take (min (length data_) (suc remaining)) data_ ++ out,
      fill_chunks-step fuel data_ (suc remaining) out (omega arith) e,
    )

-- The copies of one parent or more fill all places.
pub repeat_parents-total :
    (data_ : List Domain) → 1 ≤ length data_ → (out : List Domain) × (repeat_parents data_ ≡ ok out)
unfolding repeat_parents
repeat_parents-total data_ h =
    let some_parents : not (length data_ == 0) ≡ true = ground arith in
    let (out, e) = fill_chunks-total total_parents data_ total_parents h (omega arith) in
    (out, rw (some_parents, e) refl)

-- A row of a column is the label in the store of its layer.
row_at :
    (labels : List (List Domain)) (i l : ℕ) (rows : List Domain)
    → read_rows labels i ≡ ok rows
    → l < length labels
    → (store : List Domain) × (x : Domain) × (get_elem? labels l ≡ some store)
      × (get_elem? rows l ≡ some x)
      × (read_at store i ≡ ok x)
unfolding read_rows
row_at [] i l rows e h = absurd (omega arith)
row_at (store ∷ labels) i zero rows e h =
    let (x, first, more) = >>=-eq-ok (read_at store i) _ e in
    let (xs, rest, final) = >>=-eq-ok (read_rows labels i) _ more in
    let same : x ∷ xs ≡ rows = ok_inj final in
    (store, x, refl, ap (λ r. get_elem? r 0) (sym same), first)
row_at (store ∷ labels) i (suc l) rows e h =
    let (x, first, more) = >>=-eq-ok (read_at store i) _ e in
    let (xs, rest, final) = >>=-eq-ok (read_rows labels i) _ more in
    let same : x ∷ xs ≡ rows = ok_inj final in
    let (st, y, a, b, c) = row_at labels i l xs rest (omega arith) in
    (st, y, a, ap (λ r. get_elem? r (suc l)) (sym same) ∙ b, c)

-- The labels of all nodes can be read.
abbrev pub AllRows : List (List Domain) → ℕ → (ℕ → List Domain) → Type 0
AllRows labels nodes column_at = (i : ℕ) → i < nodes → read_rows labels i ≡ ok (column_at i)

module _ (labels : List (List Domain)) (nodes : ℕ) (column_at : ℕ → List Domain)
    (rows : AllRows labels nodes column_at) where
  pub node_at_layer :
      (layer i : ℕ)
      → 1 ≤ layer
      → layer ≤ length labels
      → i < nodes
      → (x : Domain) × (domain_node_at_layer labels layer i ≡ ok x)
        × (get_elem? (column_at i) (layer - 1) ≡ some x)
  unfolding domain_node_at_layer labels_for_layer
  node_at_layer layer i a b h =
      let (store, x, found, row, read) =
        row_at labels i (layer - 1) (column_at i) (rows i h) (omega arith) in
      let positive : not (layer == 0) ≡ true = ground arith in
      (x, rw (positive, le→leb layer (length labels) b, found) read, row)

  -- The label of one parent, of the layer or of the layer before.
  parent_label :
      (layer base_count i p : ℕ)
      → 1 ≤ layer
      → layer ≤ length labels
      → (2 ≤ layer) ⊎ (i < base_count)
      → p < nodes
      → (x : Domain) × (domain_node_at_layer labels
            (if ltb i base_count then layer else layer - 1)
            p
          ≡ ok x)
  parent_label layer base_count i p a b c h = elim (dec_lt i base_count) [
    | yes base ↦
        let (x, e, row) = node_at_layer layer p a b h in (x, rw (lt→ltb i base_count base) e)
    | no expanded ↦
        let (x, e, row) = node_at_layer (layer - 1) p (before c expanded) (omega arith) h in
        (x, rw (ge→ltb i base_count (omega arith)) e)
  ]
    where
      before : (2 ≤ layer) ⊎ (i < base_count) → ¬ (i < base_count) → 1 ≤ layer - 1
      before (inl two) no_base = omega arith
      before (inr base) no_base = absurd (no_base base)

  pub parent_labels-total :
      (ext : Externals) (layer base_count i : ℕ) (ps : List ℕ)
      → 1 ≤ layer
      → layer ≤ length labels
      → (2 ≤ layer) ⊎ (i + length ps ≤ base_count)
      → All (λ p. p < nodes) ps
      → (out : List Domain) × (parent_labels ext labels layer base_count i ps ≡ ok out)
        × (length out ≡ length ps)
  unfolding parent_labels
  parent_labels-total ext layer base_count i [] a b c low = ([], refl, refl)
  parent_labels-total ext layer base_count i (p ∷ ps) a b c (h, low) =
      let (x, e) = parent_label layer base_count i p a b (first c) h in
      let (out, es, size) = parent_labels-total ext layer base_count (i + 1) ps a b (next c) low in
      (x ∷ out, rw (e, es) refl, ap suc size)
    where
      first : (2 ≤ layer) ⊎ (i + length (p ∷ ps) ≤ base_count) → (2 ≤ layer) ⊎ (i < base_count)
      first (inl two) = inl two
      first (inr few) = inr (omega arith)

      next :
          (2 ≤ layer) ⊎ (i + length (p ∷ ps) ≤ base_count)
          → (2 ≤ layer) ⊎ (i + 1 + length ps ≤ base_count)
      next (inl two) = inl two
      next (inr few) = inr (omega arith)

-- The data of the parents of a node can be read at each layer.
module _ (ext : Externals) (labels : List (List Domain)) (nodes : ℕ) (column_at : ℕ → List Domain)
    (rows : AllRows labels nodes column_at) (g : StackedGraph) where
  pub parents_data_full-total :
      (layer node : ℕ)
      → NodeParents ext g nodes node
      → 1 ≤ layer
      → layer ≤ length labels
      → (out : List Domain) × (parents_data_full_at ext g labels layer node ≡ ok out)
  unfolding parents_data_full_at parents_data_at
  parents_data_full-total layer node ps a b = elim (dec_lt layer 2) [
    | yes first ↦
        let one : (layer == 1) ≡ true = ground arith in
        let (data_, e, size) =
          parent_labels-total labels nodes column_at rows ext layer (length ps.base) 0 ps.base a b
            (inr (omega arith)) ps.base_low in
        let (out, es) = repeat_parents-total data_ (omega (arith, size, ps.base_length)) in
        (out, rw (one, ps.base_eq, e) es)
    | no later ↦
        let more : (layer == 1) ≡ false = ground arith in
        let (data_, e, size) =
          parent_labels-total labels nodes column_at rows ext layer g.base_graph.base_degree 0
            (ps.base ++ ps.expanded) a b (inl (omega arith))
            (All-append (λ p. p < nodes) ps.base ps.expanded ps.base_low ps.expanded_low) in
        let (out, es) =
          repeat_parents-total data_
            (omega (arith, size, ps.base_length, length-append ps.base ps.expanded)) in
        (out, rw (more, ps.both_eq, e) es)
  ]
