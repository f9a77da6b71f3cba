-- ===== src/Merkle/Places.antt =====
-- The index of an inclusion proof (`path_index`, storage-proofs-core/src/merkle/proof.rs) as digits.
use native.Mathlib.Nat.{pow-zero, pow-succ', mul-le-mul_right, mod-eq_of_lt}
use rust_fil_proofs.Base.{
  ℕ, suc, ◌+◌, ◌*◌, ◌^◌, ◌<◌, ◌≤◌, ◌≡◌, refl, sym, ◌∙◌, subst, arith, List, [], ◌∷◌, u64, length,
}
use rust_fil_proofs.Update.Divmod.{div_mod_unique}
use rust_fil_proofs.Merkle.Paths.{PathElement, path_index, base_leaves}
use rust_fil_proofs.Merkle.Binding.{places}

-- The rows of a path have `arity` places.
pub data InRows (arity : ℕ) : List PathElement → Type 0 where
  bottom : InRows arity []
  above :
      {e : PathElement} {path : List PathElement}
      → e.index < arity
      → InRows arity path
      → InRows arity (e ∷ path)

pub digits : (a q r i j : ℕ) → i < a → j < a → q * a + i ≡ r * a + j → (q ≡ r) × (i ≡ j)
digits a q r i j x y h =
    let left = div_mod_unique (q * a + i) a q i (omega arith) x in
    let right = div_mod_unique (q * a + i) a r j (h ∙ omega arith) y in
    (sym left.0 ∙ right.0, sym left.1 ∙ right.1)

pub digit_lt : (q i a n : ℕ) → q < n → i < a → q * a + i < n * a
digit_lt q i a n x y =
    let row : suc q * a ≤ n * a = mul-le-mul_right a (omega arith) in omega (arith, row)

pub smaller : (a n : ℕ) → 0 < a → n ≤ n * a
smaller a n h = let row : 1 * n ≤ a * n = mul-le-mul_right n (omega arith) in omega (arith, row)

pub no_wrap : (q i a n : ℕ) → q < n → i < a → n * a < 2 ^ 64 → u64 (u64 (q * a) + i) ≡ q * a + i
no_wrap q i a n x y h = omega (arith, digit_lt q i a n x y)

module _ (arity : ℕ) where
  leaves_cons :
      (e : PathElement) (path : List PathElement)
      → arity ^ length (e ∷ path) ≡ arity ^ length path * arity
  leaves_cons e path = pow-succ' arity (length path) ∙ omega arith

  fewer :
      (e : PathElement) (path : List PathElement)
      → e.index < arity
      → arity ^ length (e ∷ path) < 2 ^ 64
      → arity ^ length path < 2 ^ 64
  fewer e path h fits =
      omega (arith, smaller arity (arity ^ length path) (omega arith), leaves_cons e path)

  pub path_index-lt :
      (path : List PathElement)
      → InRows arity path
      → arity ^ length path < 2 ^ 64
      → path_index arity path < arity ^ length path
  unfolding path_index
  path_index-lt [] InRows.bottom fits = omega (arith, pow-zero arity)
  path_index-lt (e ∷ path) (InRows.above low rows) fits =
      let below = path_index-lt path rows (fewer e path low fits) in
      let fits' : arity ^ length path * arity < 2 ^ 64 = omega (arith, leaves_cons e path) in
      omega (
        arith,
        no_wrap (path_index arity path) e.index arity (arity ^ length path) below low fits',
        digit_lt (path_index arity path) e.index arity (arity ^ length path) below low,
        leaves_cons e path,
      )

  path_index-cons :
      (e : PathElement) (path : List PathElement)
      → InRows arity (e ∷ path)
      → arity ^ length (e ∷ path) < 2 ^ 64
      → path_index arity (e ∷ path) ≡ path_index arity path * arity + e.index
  unfolding path_index
  path_index-cons e path (InRows.above low rows) fits =
      no_wrap (path_index arity path) e.index arity (arity ^ length path)
        (path_index-lt path rows (fewer e path low fits)) low (omega (arith, leaves_cons e path))

  pub places_eq :
      (path others : List PathElement)
      → InRows arity path
      → InRows arity others
      → arity ^ length path < 2 ^ 64
      → length path ≡ length others
      → path_index arity path ≡ path_index arity others
      → places path ≡ places others
  places_eq [] [] a b fits len h = refl
  places_eq [] (o ∷ others) a b fits len h = absurd (omega arith)
  places_eq (e ∷ path) [] a b fits len h = absurd (omega arith)
  places_eq (e ∷ path) (o ∷ others) (InRows.above low rows) (InRows.above low' rows') fits len h =
      let fits_other : arity ^ length (o ∷ others) < 2 ^ 64 =
        subst (λ n. arity ^ n < 2 ^ 64) len fits in
      let split =
        digits arity (path_index arity path) (path_index arity others) e.index o.index low low' (
          sym (path_index-cons e path (InRows.above low rows) fits)
          ∙ h
          ∙ path_index-cons o others (InRows.above low' rows') fits_other) in
      rw (split.1, places_eq path others rows rows' (fewer e path low fits) (omega arith) split.0)
        refl

  pub base_leaves_eq :
      (path : List PathElement)
      → 0 < arity
      → arity ^ length path < 2 ^ 64
      → base_leaves arity path ≡ arity ^ length path
  unfolding base_leaves
  base_leaves_eq [] h fits = omega (arith, pow-zero arity)
  base_leaves_eq (e ∷ path) h fits =
      let less = smaller arity (arity ^ length path) h in
      let rest = base_leaves_eq path h (omega (arith, less, leaves_cons e path)) in
      rw rest (mod-eq_of_lt (omega (arith, leaves_cons e path))) ∙ sym (leaves_cons e path)
