-- ===== src/Pieces/Levels.antt =====
-- The stack of filecoin-proofs/src/pieces.rs seen through the levels of its entries: shifting an
-- entry and reducing is adding a power of two to a binary counter.
use rust_fil_proofs.Base.{
  ℕ, suc, ◌+◌, ◌*◌, ◌^◌, ◌<◌, ◌≤◌, ◌≡◌, ◌≢◌, ◌∙◌, refl, arith, List, [], ◌∷◌, ◌==◌, if◌then◌else◌,
}
use native.Mathlib.Decide.{dec_lt, ℕ_discrete}
use rust_fil_proofs.Base.Powers.{two_pow-suc, two_pow-le, two_pow-lt, two_pow_pos, lt_of_two_pow-lt}

-- The levels behind `add`, the top of the stack first.
unfoldable pub add : ℕ → List ℕ → List ℕ
add k [] = k ∷ []
add k (l ∷ ls) = if k == l then add (suc k) ls else k ∷ l ∷ ls

abbrev pub total : List ℕ → ℕ
total [] = 0
total (k ∷ ls) = 2 ^ k + total ls

-- Every level on the stack is below the one under it.
abbrev pub IsRising : List ℕ → Type 0
IsRising [] = Unit
IsRising (k ∷ []) = Unit
IsRising (k ∷ l ∷ ls) = (k < l) × IsRising (l ∷ ls)

abbrev pub AtLeast : ℕ → List ℕ → Type 0
AtLeast k [] = Unit
AtLeast k (l ∷ ls) = k ≤ l

abbrev pub bottom : ℕ → List ℕ → ℕ
bottom k [] = k
bottom k (l ∷ ls) = bottom l ls

pub IsRising-tail : (k : ℕ) (ls : List ℕ) → IsRising (k ∷ ls) → IsRising ls
IsRising-tail k [] h = tt
IsRising-tail k (l ∷ ls) h = h.1

pub AtLeast-suc : (k : ℕ) (ls : List ℕ) → IsRising (k ∷ ls) → AtLeast (suc k) ls
AtLeast-suc k [] h = tt
AtLeast-suc k (l ∷ ls) h = h.0

pub total-add : (k : ℕ) (ls : List ℕ) → total (add k ls) ≡ 2 ^ k + total ls
unfolding add
total-add k [] = refl
total-add k (l ∷ ls) = ground (arith, total-add (suc k) ls, two_pow-suc k)

pub add_same : (k l : ℕ) (ls : List ℕ) → k ≡ l → add k (l ∷ ls) ≡ add (suc k) ls
unfolding add
add_same k l ls e = ground arith

pub add_other : (k l : ℕ) (ls : List ℕ) → k ≢ l → add k (l ∷ ls) ≡ k ∷ l ∷ ls
unfolding add
add_other k l ls e = ground arith

-- The counter after an addition: its lowest digit, and its other digits.
pub record Counter (k : ℕ) (ls : List ℕ) : Type 0 where
  pub low : ℕ
  pub high : List ℕ
  pub shape : add k ls ≡ low ∷ high
  pub above : k ≤ low
  pub rising : IsRising (low ∷ high)

pub add-Counter : (k : ℕ) (ls : List ℕ) → IsRising ls → AtLeast k ls → Counter k ls
add-Counter k [] r a = record {
  low = k;
  high = [];
  shape = unfold add in refl;
  above = omega arith;
  rising = tt;
}
add-Counter k (l ∷ ls) r a = elim (ℕ_discrete k l) [
  | yes e ↦
      let c = add-Counter (suc k) ls (IsRising-tail l ls r) (rw e (AtLeast-suc l ls r)) in
      record {
        low = c.low;
        high = c.high;
        shape = add_same k l ls e ∙ c.shape;
        above = omega (arith, c.above);
        rising = c.rising;
      }
  | no e ↦ record {
    low = k;
    high = l ∷ ls;
    shape = add_other k l ls e;
    above = omega arith;
    rising = (omega arith, r);
  }
]

total-le-bottom :
    (k : ℕ) (ls : List ℕ) → IsRising (k ∷ ls) → total (k ∷ ls) + 2 ^ k ≤ 2 * 2 ^ bottom k ls
total-le-bottom k [] r = omega arith
total-le-bottom k (l ∷ ls) r =
    omega (arith, total-le-bottom l ls r.1, two_pow-le (suc k) l r.0, two_pow-suc k)

bottom-le-total : (k : ℕ) (ls : List ℕ) → 2 ^ bottom k ls ≤ total (k ∷ ls)
bottom-le-total k [] = omega arith
bottom-le-total k (l ∷ ls) = omega (arith, bottom-le-total l ls)

-- As long as two levels are left there is room for one more entry of the lowest level.
pub total_room :
    (m k l : ℕ) (ls : List ℕ)
    → IsRising (k ∷ l ∷ ls)
    → total (k ∷ l ∷ ls) ≤ 2 ^ m
    → total (k ∷ l ∷ ls) + 2 ^ k ≤ 2 ^ m
total_room m k l ls r h =
    let b : ℕ = bottom l ls in
    let below : b < m = lt_of_two_pow-lt b m (omega (arith, bottom-le-total l ls, two_pow_pos k)) in
    omega (arith, total-le-bottom k (l ∷ ls) r, two_pow-le (suc b) m below, two_pow-suc b)

-- A level is below the exponent that bounds the total.
pub level-le : (m k : ℕ) (ls : List ℕ) → total (k ∷ ls) ≤ 2 ^ m → k ≤ m
level-le m k ls h = elim (dec_lt m k) [
  | yes p ↦ absurd (omega (arith, two_pow-lt m k p))
  | no p ↦ omega arith
]
