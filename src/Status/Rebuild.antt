-- ===== src/Status/Rebuild.antt =====
-- internal/status/rotation.go: the state made from metadata alone, and the checks of a state against
-- a profile that take no step.
use openbao_kubernetes_kms.Base.{
  ℕ, zero, suc, List, [], ◌∷◌, none, some, if◌then◌else◌, Text, ℤ, pos, eq_int, succ_int, distance,
  Result, ok, err, ◌>>=◌, ◌>>◌,
}
use openbao_kubernetes_kms.Crypto.{Crypto}
use openbao_kubernetes_kms.Clock.{Time, no_time}
use openbao_kubernetes_kms.KeyRegistry.Snapshot.{active, retired}
use openbao_kubernetes_kms.KeyRegistry.Records.{StateRecord, is_zero_int}
use openbao_kubernetes_kms.KeyRegistry.State.{
  StateFile, HashBody, validate_state, new_state_file_from_records,
}
use openbao_kubernetes_kms.OpenBao.Profile.{KeyProfile}
use openbao_kubernetes_kms.Status.Profile.{
  metadata_invalid, get_version, validated_versions, validate_profile,
}
use openbao_kubernetes_kms.Status.Records.{record_from_snapshot, ordered_records}
use openbao_kubernetes_kms.Status.Rotation.{
  SnapshotScope, Observer, scope_snapshot, validate_state_scope, validate_decryptable_records,
}
use openbao_kubernetes_kms.Status.Promotion.{validate_profile_for_state}

-- The first version that RebuildState records.
abbrev pub first_version : KeyProfile → ℤ
first_version p = if is_zero_int p.min_available_version then pos 1 else p.min_available_version

module _ (c : Crypto) where
  -- The loop of RebuildState, with `rounds` versions left and the active key_id so far.
  unfoldable pub rebuild_records :
      SnapshotScope → List (ℤ × Time) → Time → ℤ → ℕ → ℤ → Text → Result (List StateRecord × Text)
  rebuild_records s versions now latest zero version active_key_id = ok ([], active_key_id)
  rebuild_records s versions now latest (suc rounds) version active_key_id =
      elim (get_version version versions) [
        | none ↦ err metadata_invalid
        | some created_at ↦
            let newest = eq_int version latest in
            scope_snapshot c s version created_at (if newest then active else retired) >>= λ k.
            rebuild_records s versions now latest rounds (succ_int version)
              (if newest then k.kubernetes_key_id else active_key_id)
            >>= λ rest. ok (
              record_from_snapshot k now no_time (pos 0) (if newest then now else no_time) ∷ rest.0,
              rest.1,
            )
      ]

  module _ (marshal : HashBody → Result Text) where
    -- RebuildState
    unfoldable pub rebuild_state : Observer → KeyProfile → Time → Result StateFile
    unfolding rebuild_records
    rebuild_state o p now = do
      validate_profile p
      versions ← validated_versions p
      (records, active_key_id) ←
          rebuild_records o.scope versions now p.latest_version
            (distance (first_version p) (succ_int p.latest_version)) (first_version p) []
      state ←
          new_state_file_from_records c marshal active_key_id
            (ordered_records active_key_id records) 1 [] o.scope.identity_fingerprint
      validate_profile_for_state c marshal p state
      ok state

    -- ValidateRecoveryProfile
    unfoldable pub validate_recovery_profile : Observer → StateFile → KeyProfile → Result (Unit {0})
    validate_recovery_profile o s p = do
      validate_state c marshal s
      validate_profile p
      validate_state_scope c o s
      validate_decryptable_records c p s.snapshots

    -- ValidateStateProfile
    unfoldable pub validate_state_profile : Observer → StateFile → KeyProfile → Result (Unit {0})
    unfolding validate_recovery_profile
    validate_state_profile o s p = do
      validate_recovery_profile o s p
      validate_profile_for_state c marshal p s
