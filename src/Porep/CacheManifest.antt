-- ===== src/Porep/CacheManifest.antt =====
-- The comparison of a generated cache with the manifest of production caches
-- (storage-proofs-porep/src/stacked/vanilla/cache.rs).
use mathlib.Core.Bool.{true≢false}
use rust_fil_proofs.Base.{
  ℕ, ◌≡◌, ◌≢◌, ◌∙◌, ◌⊎◌, inl, inr, refl, sym, ap, List, Option, none, some, ok, err, Bool-cases,
  bytes_eq, bytes_eq_refl, eq_of_bytes_eq,
}
use rust_fil_proofs.Porep.Cache.{
  ParentCacheData, invalid_generated, get_parent_cache_data, digest_hex, check_generated,
}

module _ (sha256 : List ℕ → List ℕ) where
  -- What the manifest says of rows.
  abbrev pub Accepts : List (List ℕ × ParentCacheData) → List ℕ → List (List ℕ) → Type 0
  Accepts manifest id rows =
      (get_parent_cache_data manifest id ≡ none)
      ⊎ ((pcd : ParentCacheData) × (get_parent_cache_data manifest id ≡ some pcd)
          × (digest_hex sha256 rows ≡ pcd.digest))

  abbrev pub Rejects : List (List ℕ × ParentCacheData) → List ℕ → List (List ℕ) → Type 0
  Rejects manifest id rows =
      (pcd : ParentCacheData) × (get_parent_cache_data manifest id ≡ some pcd)
      × (digest_hex sha256 rows ≢ pcd.digest)

  pub check_generated-cases :
      (manifest : List (List ℕ × ParentCacheData)) (id : List ℕ) (rows : List (List ℕ))
      → (Accepts manifest id rows
          × (check_generated sha256 (get_parent_cache_data manifest id) rows ≡ ok tt))
        ⊎ (Rejects manifest id rows
            × (check_generated sha256 (get_parent_cache_data manifest id) rows
                ≡ err invalid_generated))
  unfolding check_generated
  check_generated-cases manifest id rows = cases (get_parent_cache_data manifest id) refl
    where
      cases :
          (found : Option ParentCacheData)
          → get_parent_cache_data manifest id ≡ found
          → (Accepts manifest id rows
              × (check_generated sha256 (get_parent_cache_data manifest id) rows ≡ ok tt))
            ⊎ (Rejects manifest id rows
                × (check_generated sha256 (get_parent_cache_data manifest id) rows
                    ≡ err invalid_generated))
      cases none e = inl (inl e, rw e refl)
      cases (some pcd) e = elim (Bool-cases (bytes_eq (digest_hex sha256 rows) pcd.digest)) [
        | inl same ↦ inl (inr (pcd, e, eq_of_bytes_eq _ _ same), rw (e, same) refl)
        | inr other ↦ inr (
          (
            pcd,
            e,
            λ d.
                true≢false
                  (sym (ap (λ x. bytes_eq x pcd.digest) d ∙ bytes_eq_refl pcd.digest) ∙ other),
          ),
          rw (e, other) refl,
        )
      ]
