-- ===== src/Update/Divmod.antt =====
-- Quotient and remainder as the iterator of storage-proofs-update/src/challenges.rs counts them:
-- the index within a digest and the index of the digest.
use native.Mathlib.Nat.{div-add-mod, div-eq_of_lt-le}
use rust_fil_proofs.Base.{ℕ, ◌+◌, ◌*◌, ◌/◌, ◌%◌, ◌<◌, ◌≡◌, arith}

pub div_mod_unique : (n c q r : ℕ) → n ≡ c * q + r → r < c → (n / c ≡ q) × (n % c ≡ r)
div_mod_unique n c q r e h =
    let qc : n / c ≡ q = div-eq_of_lt-le c (omega arith) (omega arith) in
    (qc, omega (arith, div-add-mod n c, ap_mul c (n / c) q qc))
  where
    ap_mul : (c a b : ℕ) → a ≡ b → c * a ≡ c * b
    ap_mul c a b e = rw e (omega arith)

pub next_in_digest : (n c : ℕ) → n % c + 1 < c → ((n + 1) / c ≡ n / c) × ((n + 1) % c ≡ n % c + 1)
next_in_digest n c h =
    div_mod_unique (n + 1) c (n / c) (n % c + 1) (omega (arith, div-add-mod n c)) h

pub next_digest : (n c : ℕ) → n % c + 1 ≡ c → ((n + 1) / c ≡ n / c + 1) × ((n + 1) % c ≡ 0)
next_digest n c h =
    div_mod_unique (n + 1) c (n / c + 1) 0 (omega (arith, div-add-mod n c)) (omega arith)
