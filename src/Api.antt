-- ===== src/Api.antt =====
-- storage-proofs-core/src/api_version.rs: versions and features of the network's interface, their
-- order, and which version supports which feature.
mod Tests
use rust_fil_proofs.Base.{
  ℕ, ◌≡◌, refl, arith, Bool, true, false, ◌&&◌, not, List, [], ◌∷◌, ◌++◌, Option, none, some, all,
  ltb, leb, ◌==◌, if◌then◌else◌, Result, ok, err,
}

pub data ApiVersion : Type 0 where
  v1_0_0 v1_1_0 v1_2_0 : ApiVersion

pub data ApiFeature : Type 0 where
  synthetic_porep non_interactive_porep : ApiFeature

pub data ParseError : Type 0 where
  patch minor major : ParseError

-- Major, minor and patch of a `semver::Version`.
unfoldable pub as_semver : ApiVersion → ℕ × ℕ × ℕ
as_semver v1_0_0 = (1, 0, 0)
as_semver v1_1_0 = (1, 1, 0)
as_semver v1_2_0 = (1, 2, 0)

-- `<=` of versions without pre-release and build parts: by major, then minor, then patch.
unfoldable pub semver_le : ℕ × ℕ × ℕ → ℕ × ℕ × ℕ → Bool
semver_le (a, b, c) (d, e, f) = if a == d then (if b == e then leb c f else ltb b e) else ltb a d

unfoldable pub version_le : ApiVersion → ApiVersion → Bool
unfolding semver_le as_semver
version_le v w = semver_le (as_semver v) (as_semver w)

unfoldable pub first_supported_version : ApiFeature → ApiVersion
first_supported_version synthetic_porep = v1_2_0
first_supported_version non_interactive_porep = v1_2_0

unfoldable pub last_supported_version : ApiFeature → Option ApiVersion
last_supported_version synthetic_porep = none
last_supported_version non_interactive_porep = none

abbrev pub not_after : ApiVersion → Option ApiVersion → Bool
not_after v none = true
not_after v (some v_last) = version_le v v_last

unfoldable pub supports_feature : ApiVersion → ApiFeature → Bool
unfolding first_supported_version last_supported_version version_le
supports_feature v feat =
    version_le (first_supported_version feat) v && not_after v (last_supported_version feat)

unfoldable pub supports_features : ApiVersion → List ApiFeature → Bool
unfolding supports_feature
supports_features v feats = all (supports_feature v) feats

unfoldable pub conflicting_features : ApiFeature → List ApiFeature
conflicting_features synthetic_porep = non_interactive_porep ∷ []
conflicting_features non_interactive_porep = synthetic_porep ∷ []

-- The `match` of `FromStr` on a parsed version.
unfoldable pub version_from_semver : ℕ × ℕ × ℕ → Result ParseError ApiVersion
version_from_semver (a, b, c) =
    if a == 1
    then (if b == 0
        then (if c == 0 then ok v1_0_0 else err patch)
        else if b == 1
        then (if c == 0 then ok v1_1_0 else err patch)
        else if b == 2
        then (if c == 0 then ok v1_2_0 else err patch)
        else err minor)
    else err major

-- A version is read back from its number.
version_from_semver-as_semver : (v : ApiVersion) → version_from_semver (as_semver v) ≡ ok v
unfolding version_from_semver as_semver
version_from_semver-as_semver v1_0_0 = refl
version_from_semver-as_semver v1_1_0 = refl
version_from_semver-as_semver v1_2_0 = refl
