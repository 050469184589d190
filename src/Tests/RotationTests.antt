-- ===== src/Tests/RotationTests.antt =====
-- The rotation observer on the sample state, with a key whose fourth version has just appeared.
use openbao_kubernetes_kms.Base.{
  ◌+◌, ◌*◌, ◌≡◌, refl, inl, Bool, true, false, [], ◌∷◌, codes, pos, Result, ok, err, max_int,
  succ_int, distance,
}
use openbao_kubernetes_kms.Clock.{Time}
use openbao_kubernetes_kms.KeyRegistry.Snapshot.{required}
use openbao_kubernetes_kms.OpenBao.Profile.{
  KeyProfile, aes256_gcm96, assess_key_profile, blocking_findings, blocking_finding,
}
use openbao_kubernetes_kms.Status.Profile.{
  get_version, validated_versions, version_created_at, validate_profile,
}
use openbao_kubernetes_kms.Status.Records.{
  record_from_snapshot, record_time, record_lt, insert_record, ordered_records,
  next_state_from_records,
}
use openbao_kubernetes_kms.Status.Rotation.{
  SnapshotScope, Observer, ObservationResult, promotion_allowed, records_eq, count_observation,
  scope_snapshot, snapshot_for_profile, in_scope, validate_scope_of, validate_state_scope,
  validate_decryptable_snapshot, validate_decryptable_records, retained_versions,
  intermediate_records, intermediate_historical_records, carry_over, add_retired,
  upsert_pending_record,
}
use openbao_kubernetes_kms.Status.Promotion.{
  retire_active, promote_pending_record, validate_profile_for_state, pending_observation,
  promote_or_wait, observe_candidate, observe_newer_version, observe_validated, observe_step,
  observe, discover,
}
use openbao_kubernetes_kms.Status.Promotion.Steps.{
  Outcome, observe_step-Outcome, discover-keeps_active,
}
use openbao_kubernetes_kms.Status.Promotion.Retention.{observe_step-keeps_live}
use openbao_kubernetes_kms.KeyRegistry.State.{validate_state_progress}
use openbao_kubernetes_kms.KeyRegistry.State.Progress.{Found, progress-keeps_live}
use openbao_kubernetes_kms.Tests.Samples.{
  toy, toy_laws, toy_marshal, sample_fingerprint, sample_key_id, sample_record, sample_state,
  computing,
}

-- What a run of the observer computes through.
unfoldable pub observing : Bool
unfolding computing assess_key_profile blocking_findings blocking_finding get_version
    validated_versions version_created_at validate_profile record_from_snapshot record_time
    record_lt insert_record ordered_records next_state_from_records promotion_allowed records_eq
    count_observation scope_snapshot snapshot_for_profile in_scope validate_scope_of
    validate_state_scope validate_decryptable_snapshot validate_decryptable_records
    retained_versions intermediate_records intermediate_historical_records carry_over add_retired
    upsert_pending_record retire_active promote_pending_record validate_profile_for_state
    pending_observation promote_or_wait observe_candidate observe_newer_version observe_validated
    observe_step observe discover max_int succ_int distance
observing = true

abbrev scope : SnapshotScope
scope = record {
  identity_fingerprint = sample_fingerprint;
  provider_name = codes "p";
  cluster_id = codes "c";
  instance_id = codes "i";
  namespace = codes "ns";
  mount_id = codes "m";
  lineage_id = codes "l";
  aad_mode = required;
}

-- One stable observation is enough, and there is no activation delay.
abbrev pub observer : Observer
observer = record {
  scope = scope;
  policy = record {
    activation_delay = pos 0;
    require_stable_observation_count = pos 1;
    reject_version_rollback = true;
  };
}

abbrev pub profile : KeyProfile
profile = record {
  name = codes "k";
  key_type = aes256_gcm96;
  latest_version = pos 4;
  min_available_version = pos 0;
  min_encryption_version = pos 0;
  min_decryption_version = pos 1;
  version_creation_times =
      record { version = pos 3; created_at = (62135596800 + 1700000000) * 1000000000 }
      ∷ record { version = pos 4; created_at = (62135596800 + 1700000200) * 1000000000 }
      ∷ [];
  derived = false;
  convergent_encryption = false;
  exportable = false;
  allow_plaintext_backup = false;
  deletion_allowed = false;
  imported_key = false;
  soft_deleted = false;
  supports_encryption = true;
  supports_decryption = true;
  supports_derivation = true;
  supports_signing = false;
}

abbrev pub now : Time
now = (62135596800 + 1700000300) * 1000000000

abbrev pub nothing_done : ObservationResult
nothing_done = record {
  state = sample_state;
  changed = false;
  promoted = false;
  pending_seen = false;
  encryption_blocked = false;
  clock_regressed = false;
}

-- The value of a run that succeeds.
abbrev pub value_of : Result ObservationResult → ObservationResult
value_of (ok r) = r
value_of (err _) = nothing_done

unfoldable pub observed : ObservationResult
unfolding observing
observed = value_of (observe toy toy_marshal observer sample_state profile now true)

observed_ok : observe_step toy toy_marshal observer sample_state profile now true true ≡ ok observed
unfolding observing observed
observed_ok = refl

pub observed_promotes : (observed.promoted ≡ true) × (observed.state.generation ≡ 2)
unfolding observing observed
observed_promotes = (refl, refl)

observe_step-Outcome_example :
    Outcome toy toy_marshal sample_state observer profile now true true observed
observe_step-Outcome_example =
    observe_step-Outcome toy toy_marshal observer sample_state profile now true true observed
      observed_ok

discovered : ObservationResult
unfolding observing
discovered = value_of (discover toy toy_marshal observer sample_state profile now)

discovered_ok : discover toy toy_marshal observer sample_state profile now ≡ ok discovered
unfolding observing discovered
discovered_ok = refl

discovered_pending : discovered.pending_seen ≡ true
unfolding observing discovered
discovered_pending = refl

discover-keeps_active_example :
    (discovered.promoted ≡ false) × (discovered.state.active_key_id ≡ sample_state.active_key_id)
discover-keeps_active_example =
    discover-keeps_active toy toy_marshal observer sample_state profile now discovered discovered_ok

-- The key that was active before the promotion is still found after it.
observe_step-keeps_live_example : Found toy sample_key_id observed.state
observe_step-keeps_live_example =
    observe_step-keeps_live toy toy_marshal toy_laws observer sample_state profile now true true
      observed sample_record observed_ok (inl refl) refl refl

pub observed_progress : validate_state_progress toy toy_marshal sample_state observed.state ≡ ok tt
unfolding observing observed
observed_progress = refl

progress-keeps_live_example : Found toy sample_key_id observed.state
progress-keeps_live_example =
    progress-keeps_live toy toy_marshal toy_laws sample_state observed.state sample_record
      observed_progress (inl refl) refl refl
