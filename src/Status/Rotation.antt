-- ===== src/Status/Rotation.antt =====
-- internal/status/rotation.go: the observer that turns Transit metadata into rotation steps.
use openbao_kubernetes_kms.Base.{
  ℕ, zero, suc, Bool, true, false, not, ◌&&◌, ◌||◌, List, [], ◌∷◌, ◌++◌, none, some, any,
  if◌then◌else◌, Text, text_eq, ℤ, pos, lt_int, le_int, eq_int, max_int, succ_int, distance, Result,
  ok, err, Error, fail_if, ◌>>=◌, ◌>>◌, err_config_invalid, err_transit_metadata_invalid,
  wrap_error, ◌==◌,
}
use openbao_kubernetes_kms.Crypto.{Crypto}
use openbao_kubernetes_kms.Clock.{Time, no_time, to_unix}
use openbao_kubernetes_kms.KeyRegistry.Snapshot.{
  KeySnapshot, SnapshotState, AadMode, active, pending, retired, rejected, removed, state_eq,
  mode_eq, normalize_created_at, normalize,
}
use openbao_kubernetes_kms.KeyRegistry.Records.{
  StateRecord, record_eq, is_zero_int, snapshot_of_record,
}
use openbao_kubernetes_kms.KeyRegistry.State.{StateFile}
use openbao_kubernetes_kms.OpenBao.Profile.{KeyProfile}
use openbao_kubernetes_kms.Status.Profile.{
  metadata_invalid, key_unusable, get_version, validated_versions, version_created_at,
}
use openbao_kubernetes_kms.Status.Records.{record_from_snapshot, ordered_records}

pub record SnapshotScope : Type 0 where
  pub identity_fingerprint : Text
  pub provider_name : Text
  pub cluster_id : Text
  pub instance_id : Text
  pub namespace : Text
  pub mount_id : Text
  pub lineage_id : Text
  pub aad_mode : AadMode

pub record RotationPolicy : Type 0 where
  pub activation_delay : ℤ
  pub require_stable_observation_count : ℤ
  pub reject_version_rollback : Bool

pub record Observer : Type 0 where
  pub scope : SnapshotScope
  pub policy : RotationPolicy

pub record ObservationResult : Type 0 where
  pub state : StateFile
  pub changed : Bool
  pub promoted : Bool
  pub pending_seen : Bool
  pub encryption_blocked : Bool
  pub clock_regressed : Bool

abbrev config_invalid : Error
config_invalid = err_config_invalid ∷ []

-- The three states in which a snapshot must stay decryptable.
abbrev pub is_kept : SnapshotState → Bool
is_kept active = true
is_kept retired = true
is_kept pending = true
is_kept _ = false

abbrev pub is_dropped : SnapshotState → Bool
is_dropped rejected = true
is_dropped removed = true
is_dropped _ = false

-- promotionAllowed
unfoldable pub promotion_allowed : Observer → StateRecord → Bool → Bool
promotion_allowed o r ready =
    not (is_zero_int r.stable_at_unix)
    && (le_int o.policy.require_stable_observation_count r.stable_observation_count
        && (is_zero_int o.policy.activation_delay || ready))

-- slices.Equal
unfoldable pub records_eq : List StateRecord → List StateRecord → Bool
records_eq [] [] = true
records_eq [] (_ ∷ _) = false
records_eq (_ ∷ _) [] = false
records_eq (r ∷ rs) (s ∷ ss) = record_eq r s && records_eq rs ss

-- The records, the key_ids seen and the pending record, as upsertPendingRecord's loops carry them.
pub record Upsert : Type 0 where
  pub records : List StateRecord
  pub seen : List Text
  pub pending_record : StateRecord

-- The three updates of the pending record after upsertPendingRecord's loops.
unfoldable pub count_observation : ℤ → ℤ → Bool → StateRecord → StateRecord
count_observation threshold now advance p =
    let counted = record p {
      stable_observation_count =
          if advance && lt_int p.stable_observation_count threshold
          then succ_int p.stable_observation_count
          else p.stable_observation_count;
    } in
    let observed = record counted {
      observed_at_unix =
          if is_zero_int counted.observed_at_unix then now else counted.observed_at_unix;
    } in
    record observed {
      stable_at_unix =
          if advance
            && (le_int threshold observed.stable_observation_count
                && is_zero_int observed.stable_at_unix)
          then max_int now observed.observed_at_unix
          else observed.stable_at_unix;
    }

module _ (c : Crypto) where
  -- SnapshotScope.snapshot
  unfoldable pub scope_snapshot : SnapshotScope → ℤ → Time → SnapshotState → Result KeySnapshot
  scope_snapshot s version created_at state = normalize c (record {
    provider_name = s.provider_name;
    cluster_id = s.cluster_id;
    instance_id = s.instance_id;
    namespace = s.namespace;
    mount_id = s.mount_id;
    lineage_id = s.lineage_id;
    transit_version = version;
    created_at = created_at;
    kubernetes_key_id = [];
    state = state;
    aad_mode = s.aad_mode;
  })

  -- snapshotForProfile
  unfoldable pub snapshot_for_profile :
      Observer → KeyProfile → ℤ → SnapshotState → Result KeySnapshot
  snapshot_for_profile o p version state = do
    created_at ← version_created_at p version
    scope_snapshot o.scope version created_at state

  -- The switch of validateStateScope over one snapshot.
  unfoldable pub in_scope : SnapshotScope → KeySnapshot → Bool
  in_scope s k =
      text_eq k.provider_name s.provider_name
      && (text_eq k.cluster_id s.cluster_id
          && (text_eq k.instance_id s.instance_id
              && (text_eq k.namespace s.namespace
                  && (text_eq k.mount_id s.mount_id
                      && (text_eq k.lineage_id s.lineage_id && mode_eq k.aad_mode s.aad_mode)))))

  unfoldable pub validate_scope_of : SnapshotScope → List StateRecord → Result (Unit {0})
  validate_scope_of s [] = ok tt
  validate_scope_of s (r ∷ rs) = snapshot_of_record c r >>= λ k.
      fail_if (not (in_scope s k)) config_invalid >> validate_scope_of s rs

  -- validateStateScope
  unfoldable pub validate_state_scope : Observer → StateFile → Result (Unit {0})
  validate_state_scope o s = do
    fail_if (not (text_eq s.identity_fingerprint o.scope.identity_fingerprint)) config_invalid
    validate_scope_of o.scope s.snapshots

  -- validateDecryptableSnapshot
  unfoldable pub validate_decryptable_snapshot : KeyProfile → KeySnapshot → Result (Unit {0})
  validate_decryptable_snapshot p k = do
    fail_if (lt_int k.transit_version p.min_available_version) key_unusable
    fail_if (lt_int k.transit_version p.min_decryption_version) key_unusable
    created_at ← version_created_at p k.transit_version
    persisted ← wrap_error err_transit_metadata_invalid (normalize_created_at k.created_at)
    fail_if (not (created_at == persisted)) metadata_invalid

  -- The loop of validateDecryptableState.
  unfoldable pub validate_decryptable_records : KeyProfile → List StateRecord → Result (Unit {0})
  validate_decryptable_records p [] = ok tt
  validate_decryptable_records p (r ∷ rs) = snapshot_of_record c r >>= λ k.
      (if is_kept k.state
        then validate_decryptable_snapshot p k
        else fail_if (not (is_dropped k.state)) metadata_invalid)
      >> validate_decryptable_records p rs

  -- The versions of the records that are kept, for intermediateHistoricalRecords.
  unfoldable pub retained_versions : List StateRecord → Result (List ℤ)
  retained_versions [] = ok []
  retained_versions (r ∷ rs) = do
    k ← snapshot_of_record c r
    fail_if (not (is_kept k.state || is_dropped k.state)) metadata_invalid
    rest ← retained_versions rs
    ok (if is_kept k.state then k.transit_version ∷ rest else rest)

  -- The loop over the versions between the active and the latest; `rounds` of them are left.
  unfoldable pub intermediate_records :
      SnapshotScope → List (ℤ × Time) → List ℤ → Time → ℕ → ℤ → Result (List StateRecord)
  intermediate_records s versions retained now zero version = ok []
  intermediate_records s versions retained now (suc rounds) version =
      elim (get_version version versions) [
        | none ↦ err metadata_invalid
        | some created_at ↦ elim (any (eq_int version) retained) [
          | true ↦ intermediate_records s versions retained now rounds (succ_int version)
          | false ↦ scope_snapshot s version created_at retired >>= λ k.
              intermediate_records s versions retained now rounds (succ_int version) >>= λ rest.
              ok (record_from_snapshot k now no_time (pos 0) no_time ∷ rest)
        ]
      ]

  -- intermediateHistoricalRecords
  unfoldable pub intermediate_historical_records :
      Observer → StateFile → KeyProfile → ℤ → Time → Result (List StateRecord)
  unfolding intermediate_records
  intermediate_historical_records o s p active_version now =
      if le_int p.latest_version (succ_int active_version) then ok [] else (do
        versions ← validated_versions p
        retained ← retained_versions s.snapshots
        intermediate_records o.scope versions retained now
            (distance (succ_int active_version) p.latest_version) (succ_int active_version))

  -- The first loop of upsertPendingRecord; a superseded pending record becomes a retired one.
  unfoldable pub carry_over : Text → Upsert → List StateRecord → Result Upsert
  carry_over candidate_id u [] = ok u
  carry_over candidate_id u (r ∷ rs) = snapshot_of_record c r >>= λ k.
      elim (state_eq k.state pending && text_eq k.kubernetes_key_id candidate_id) [
        | true ↦ carry_over candidate_id (record u { pending_record = r }) rs
        | false ↦
            let kept = record r { state = if state_eq k.state pending then retired else r.state } in
            carry_over candidate_id
              (record u { records = u.records ++ kept ∷ []; seen = k.kubernetes_key_id ∷ u.seen })
              rs
      ]

  -- The second loop: the retired records of skipped versions that are new.
  unfoldable pub add_retired : Upsert → List StateRecord → Result Upsert
  add_retired u [] = ok u
  add_retired u (r ∷ rs) = snapshot_of_record c r >>= λ k.
      add_retired
        (if any (text_eq k.kubernetes_key_id) u.seen
          then u
          else record u { records = u.records ++ r ∷ []; seen = k.kubernetes_key_id ∷ u.seen })
        rs

  -- upsertPendingRecord
  unfoldable pub upsert_pending_record :
      StateFile
      → StateRecord
      → ℤ
      → Time
      → List StateRecord
      → Bool
      → Result (List StateRecord × StateRecord)
  unfolding count_observation
  upsert_pending_record s candidate threshold now additional advance = do
    u ←
        carry_over candidate.kubernetes_key_id
          (record { records = []; seen = []; pending_record = candidate }) s.snapshots
    v ← add_retired u additional
    let p = count_observation threshold (to_unix now) advance v.pending_record
    ok (ordered_records s.active_key_id (v.records ++ p ∷ []), p)
