-- ===== src/Api/Tests.antt =====
-- Versions and features of storage-proofs-core/src/api_version.rs at concrete values.
use rust_fil_proofs.Base.{◌≡◌, refl, false}
use rust_fil_proofs.Api

no_features_yet : Api.supports_feature Api.v1_1_0 Api.synthetic_porep ≡ false
unfolding Api.version_le Api.semver_le Api.as_semver Api.supports_feature
    Api.first_supported_version Api.last_supported_version
no_features_yet = refl
