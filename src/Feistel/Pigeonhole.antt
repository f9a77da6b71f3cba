-- ===== src/Feistel/Pigeonhole.antt =====
-- Of more numbers than there are values, two are equal.
use native.Mathlib.Decide.{ℕ_discrete}
use rust_fil_proofs.Base.{
  ℕ, zero, suc, ◌-◌, ◌<◌, ◌≤◌, ◌≡◌, ◌≢◌, ◌⊎◌, inl, inr, sym, ap, ◌∙◌, arith, ltb, if◌then◌else◌,
}

-- Two places below or at `n` where `g` has one value.
pub record Collision (g : ℕ → ℕ) (n : ℕ) : Type 0 where
  pub first : ℕ
  pub second : ℕ
  pub before : first < second
  pub within : second ≤ n
  pub same : g first ≡ g second

find : (g : ℕ → ℕ) (v n : ℕ) → ((a : ℕ) × (a < n) × (g a ≡ v)) ⊎ ((a : ℕ) → a < n → g a ≢ v)
find g v zero = inr (λ a h. absurd (omega arith))
find g v (suc n) = elim (ℕ_discrete (g n) v) [
  | yes e ↦ inl (n, omega arith, e)
  | no e ↦ elim (find g v n) [
    | inl (a, h, p) ↦ inl (a, omega arith, p)
    | inr none ↦ inr (λ a h q. elim (ℕ_discrete a n) [
      | yes same ↦ e (sym (ap g same) ∙ q)
      | no other ↦ none a (omega arith) q
    ])
  ]
]

-- The values above `v` moved down by one, when `v` itself does not occur.
squeeze : ℕ → ℕ → ℕ
squeeze v x = if ltb v x then x - 1 else x

squeeze-injective : (v x y : ℕ) → x ≢ v → y ≢ v → squeeze v x ≡ squeeze v y → x ≡ y
unfolding squeeze
squeeze-injective v x y p q e = ground arith

squeeze-lt : (v x n : ℕ) → v < suc n → x < suc n → x ≢ v → squeeze v x < n
unfolding squeeze
squeeze-lt v x n p q e = ground arith

pub pigeonhole : (n : ℕ) (g : ℕ → ℕ) → ((a : ℕ) → a ≤ n → g a < n) → Collision g n
pigeonhole zero g h = absurd (omega (arith, h 0 (omega arith)))
pigeonhole (suc n) g h = elim (find g (g (suc n)) (suc n)) [
  | inl (a, p, e) ↦ record { first = a; second = suc n; before = p; within = omega arith; same = e }
  | inr none ↦
      let v : ℕ = g (suc n) in
      let c =
        pigeonhole n (λ a. squeeze v (g a))
          (λ a p.
            squeeze-lt v (g a) n (h (suc n) (omega arith)) (h a (omega arith))
              (none a (omega arith))) in
      record {
        first = c.first;
        second = c.second;
        before = c.before;
        within = omega (arith, c.within);
        same =
            squeeze-injective v (g c.first) (g c.second)
              (none c.first (omega (arith, c.before, c.within)))
              (none c.second (omega (arith, c.within))) c.same;
      }
]
