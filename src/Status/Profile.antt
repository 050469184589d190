-- ===== src/Status/Profile.antt =====
-- internal/status/rotation.go and bootstrap.go: which Transit metadata the rotation accepts.
use openbao_kubernetes_kms.Base.{
  Bool, true, false, not, List, [], ◌∷◌, Option, none, some, if◌then◌else◌, length, ◌==◌, ℤ, pos,
  lt_int, le_int, eq_int, Result, ok, err, Error, fail_if, ◌>>=◌, ◌>>◌, wrap_error,
  err_transit_metadata_invalid, err_transit_key_unusable,
}
use openbao_kubernetes_kms.Clock.{Time}
use openbao_kubernetes_kms.KeyRegistry.Snapshot.{normalize_created_at}
use openbao_kubernetes_kms.OpenBao.Profile.{
  KeyVersion, KeyProfile, assess_key_profile, blocking_findings,
}

abbrev pub metadata_invalid : Error
metadata_invalid = err_transit_metadata_invalid ∷ []

abbrev pub key_unusable : Error
key_unusable = err_transit_key_unusable ∷ []

-- versions[v]
unfoldable pub get_version : ℤ → List (ℤ × Time) → Option Time
get_version v [] = none
get_version v ((w, t) ∷ m) = if eq_int w v then some t else get_version v m

abbrev pub is_some {ℓ} : {A : Type ℓ} → Option A → Bool
is_some none = false
is_some (some _) = true

-- The loop of validatedVersionCreationTimes, with the versions gathered so far.
unfoldable pub gather_versions : ℤ → List (ℤ × Time) → List KeyVersion → Result (List (ℤ × Time))
gather_versions latest m [] = ok m
gather_versions latest m (v ∷ vs) =
    fail_if (le_int v.version (pos 0)) metadata_invalid
    >> fail_if (lt_int latest v.version) metadata_invalid
    >> (wrap_error err_transit_metadata_invalid (normalize_created_at v.created_at) >>= λ t.
        fail_if (is_some (get_version v.version m)) metadata_invalid
        >> gather_versions latest ((v.version, t) ∷ m) vs)

-- validatedVersionCreationTimes
unfoldable pub validated_versions : KeyProfile → Result (List (ℤ × Time))
unfolding gather_versions
validated_versions p = gather_versions p.latest_version [] p.version_creation_times

-- versionCreatedAt
unfoldable pub version_created_at : KeyProfile → ℤ → Result Time
version_created_at p v = do
  versions ← validated_versions p
  elim (get_version v versions) [ none ↦ err metadata_invalid | some t ↦ ok t ]

-- validateProfile
unfoldable pub validate_profile : KeyProfile → Result (Unit {0})
validate_profile p = do
  fail_if (le_int p.latest_version (pos 0)) metadata_invalid
  fail_if (lt_int p.min_available_version (pos 0)) metadata_invalid
  fail_if p.soft_deleted key_unusable
  fail_if (lt_int p.latest_version p.min_available_version) key_unusable
  fail_if (not (length (blocking_findings (assess_key_profile p)) == 0)) key_unusable
  versions ← validated_versions p
  fail_if (not (is_some (get_version p.latest_version versions))) metadata_invalid

-- AssessAutoBootstrapState, which CanAutoBootstrapState returns: absent local state may be made from
-- the metadata of a key that was never rotated and whose first version is still usable.
unfoldable pub can_auto_bootstrap : KeyProfile → Bool
can_auto_bootstrap p =
    if not (eq_int p.latest_version (pos 1))
    then false
    else if lt_int (pos 1) p.min_available_version
    then false
    else if lt_int (pos 1) p.min_decryption_version
    then false
    else true
