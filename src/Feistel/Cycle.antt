-- ===== src/Feistel/Cycle.antt =====
-- Walking along a function that can be taken back (the loops of `permute` and `invert_permute`,
-- storage-proofs-core/src/crypto/feistel.rs): the walk comes home, and the way back undoes it.
use native.Mathlib.Decide.{dec_lt}
use rust_fil_proofs.Base.{
  ℕ, zero, suc, ◌+◌, ◌-◌, ◌<◌, ◌≤◌, ◌≡◌, refl, sym, ◌∙◌, arith, Option, some, lt→ltb, ge→ltb,
}
use rust_fil_proofs.Feistel.Pigeonhole.{Collision, pigeonhole}
use rust_fil_proofs.Feistel.Network.{walk, ◌>>=◌}

-- `f` maps the numbers below `size` to themselves, and `g` takes it back there.
pub record IsReversible (f : ℕ → ℕ) (g : ℕ → Option ℕ) (size : ℕ) : Type 0 where
  pub stays : (u : ℕ) → u < size → f u < size
  pub undone : (u : ℕ) → u < size → g (f u) ≡ some u

abbrev pub iterate : (ℕ → ℕ) → ℕ → ℕ → ℕ
iterate f zero u = u
iterate f (suc n) u = f (iterate f n u)

-- The walk from `u` to `w`: `m` steps, of which only the last one lands below `n`.
pub data Way (f : ℕ → ℕ) (n : ℕ) : ℕ → ℕ → ℕ → Type 0 where
  lands : (u w : ℕ) → f u ≡ w → w < n → Way f n u w 1
  passes : (u w m : ℕ) → n ≤ f u → Way f n (f u) w m → Way f n u w (suc m)

module _ (f : ℕ → ℕ) (g : ℕ → Option ℕ) (size : ℕ) (r : IsReversible f g size) where
  injective : (u v : ℕ) → u < size → v < size → f u ≡ f v → u ≡ v
  injective u v p q e = cc (r.undone u p, r.undone v q)

  iterate-lt : (m u : ℕ) → u < size → iterate f m u < size
  iterate-lt zero u p = p
  iterate-lt (suc m) u p = r.stays _ (iterate-lt m u p)

  -- Equal places of the orbit of `u` have the same distance from equal places further down.
  meet : (a d u : ℕ) → u < size → iterate f a u ≡ iterate f (a + d) u → u ≡ iterate f d u
  meet zero d u p e = let z : zero + d ≡ d = omega arith in rw z at e
  meet (suc a) d u p e =
      let s : suc a + d ≡ suc (a + d) = omega arith in
      meet a d u p (
        injective (iterate f a u) (iterate f (a + d) u) (iterate-lt a u p) (iterate-lt (a + d) u p)
          (rw s at e))

  -- The orbit of a number below `size` comes back to it.
  returns : (u : ℕ) → u < size → (m : ℕ) × (0 < m) × (m ≤ size) × (iterate f m u ≡ u)
  returns u p =
      let c : Collision (λ k. iterate f k u) size =
        pigeonhole size (λ k. iterate f k u) (λ k h. iterate-lt k u p) in
      let d : ℕ = c.second - c.first in
      let e : c.first + d ≡ c.second = omega (arith, c.before) in
      (d, omega (arith, c.before), omega (arith, c.within), sym (meet c.first d u p (rw e c.same)))

  walk_from :
      (n left j u : ℕ)
      → iterate f (left + j) u ≡ u
      → 0 < left
      → u < n
      → (w : ℕ) × (k : ℕ) × Way f n (iterate f j u) w k × (k ≤ left) × (w < n)
  walk_from n zero j u e p h = absurd (omega arith)
  walk_from n (suc left) j u e p h =
      let s : suc left + j ≡ left + suc j = omega arith in
      let v : ℕ = iterate f j u in
      let again = walk_from n left (suc j) u (rw s at e) in
      elim (dec_lt (f v) n) [
        | yes in_range ↦ (f v, 1, Way.lands v (f v) refl in_range, omega arith, in_range)
        | no out ↦
            let more : 0 < left = left_over left out (rw s at e) h in
            let (w, k, path, short, low) = again more h in
            (w, suc k, Way.passes v w k (omega arith) path, omega arith, low)
      ]
    where
      left_over : (l : ℕ) → ¬ (f (iterate f j u) < n) → iterate f (l + suc j) u ≡ u → u < n → 0 < l
      left_over zero out back low =
          let z : zero + suc j ≡ suc j = omega arith in
          let home : f (iterate f j u) ≡ u = rw z at back in absurd (out (omega (arith, home)))
      left_over (suc l) out back low = omega arith

-- `walk` takes the way of a `Way` that its fuel is enough for.
walk-of_Way :
    (f : ℕ → ℕ) (n : ℕ) {u w k : ℕ} (fuel : ℕ)
    → Way f n u w k
    → k ≤ fuel
    → walk (λ v. some (f v)) n fuel (f u) ≡ some w
unfolding walk
walk-of_Way f n zero (Way.lands u w e p) h = absurd (omega arith)
walk-of_Way f n (suc fuel) (Way.lands u w e p) h = rw (e, lt→ltb w n p) refl
walk-of_Way f n zero (Way.passes u w m p rest) h = absurd (omega arith)
walk-of_Way f n (suc fuel) (Way.passes u w m p rest) h =
    rw (ge→ltb (f u) n p) (walk-of_Way f n fuel rest (omega arith))

walk_below : (g : ℕ → Option ℕ) (n fuel u : ℕ) → u < n → walk g n (suc fuel) u ≡ some u
unfolding walk
walk_below g n fuel u h = rw (lt→ltb u n h) refl

walk_above :
    (g : ℕ → Option ℕ) (n fuel u v : ℕ)
    → n ≤ u
    → g u ≡ some v
    → walk g n (suc fuel) u ≡ walk g n fuel v
unfolding walk
walk_above g n fuel u v h e = rw (ge→ltb u n h, e) refl

module _ (f : ℕ → ℕ) (g : ℕ → Option ℕ) (size n : ℕ) (r : IsReversible f g size) where
  -- The way back, with `e + 1` rounds of fuel to spare.
  back-of_Way :
      {u w k : ℕ} (e total : ℕ)
      → Way f n u w k
      → u < size
      → k + e ≡ total
      → (g w >>= walk g n total) ≡ walk g n (suc e) u
  back-of_Way e total (Way.lands u w q p) h t =
      let s : total ≡ suc e = omega arith in
      let o : g w ≡ some u = rw (← q) (r.undone u h) in rw (o, s) refl
  back-of_Way e total (Way.passes u w m p rest) h t =
      back-of_Way (suc e) total rest (r.stays u h) (omega arith)
      ∙ walk_above g n (suc e) (f u) u p (r.undone u h)

  -- A number below `n` is walked to a number below `n`, and walked back to itself, within `size`
  -- rounds each way.
  pub walk_there_and_back :
      (u : ℕ)
      → u < n
      → n ≤ size
      → (w : ℕ) × (walk (λ v. some (f v)) n size (f u) ≡ some w)
        × (w < n)
        × ((g w >>= walk g n size) ≡ some u)
  walk_there_and_back u h s =
      let (m, pos, short, home) = returns f g size r u (omega arith) in
      let z : m + 0 ≡ m = omega arith in
      let (w, k, path, few, low) = walk_from f g size r n m 0 u (rw z home) pos h in
      let e : ℕ = size - k in
      (
        w,
        walk-of_Way f n size path (omega arith),
        low,
        back-of_Way e size path (omega arith) (omega arith) ∙ walk_below g n e u h,
      )
