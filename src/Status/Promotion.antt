-- ===== src/Status/Promotion.antt =====
-- internal/status/rotation.go: promotion of the pending record, the observation step and its two
-- public forms, Observe and Discover.
pub mod Steps
pub mod Retention
use openbao_kubernetes_kms.Base.{
  Bool, true, false, not, ◌&&◌, ◌||◌, List, [], ◌∷◌, ◌++◌, if◌then◌else◌, Text, text_eq, ℤ, pos,
  lt_int, le_int, max_int, Result, ok, err, Error, fail_if, ◌>>=◌, ◌>>◌, err_version_rollback,
  err_state_unavailable, err_config_invalid, wrap_error,
}
use openbao_kubernetes_kms.Crypto.{Crypto}
use openbao_kubernetes_kms.Clock.{Time, no_time, to_unix, of_unix}
use openbao_kubernetes_kms.KeyRegistry.Snapshot.{
  KeySnapshot, AadMode, required, other_mode, active, pending, retired, state_eq, normalize,
}
use openbao_kubernetes_kms.KeyRegistry.Records.{StateRecord, is_zero_int, snapshot_of_record}
use openbao_kubernetes_kms.KeyRegistry.State.{
  StateFile, HashBody, validate_state, state_active, validate_identity_fingerprint,
}
use openbao_kubernetes_kms.OpenBao.Profile.{KeyProfile}
use openbao_kubernetes_kms.Status.Profile.{key_unusable, validate_profile}
use openbao_kubernetes_kms.Status.Records.{
  record_from_snapshot, record_time, ordered_records, next_state_from_records,
}
use openbao_kubernetes_kms.Status.Rotation.{
  SnapshotScope, RotationPolicy, Observer, ObservationResult, promotion_allowed, records_eq,
  scope_snapshot, snapshot_for_profile, validate_state_scope, validate_decryptable_records,
  intermediate_historical_records, upsert_pending_record,
}

-- The records that promotePendingRecord's loop gathers, and whether it met the active one.
pub record Promoting : Type 0 where
  pub records : List StateRecord
  pub active_retired : Bool

abbrev mode_or_default : AadMode → AadMode
mode_or_default (other_mode []) = required
mode_or_default m = m

-- Whether a record is the pending one of the candidate, for the early return of Discover.
abbrev pub is_pending_candidate : Text → StateRecord → Bool
is_pending_candidate candidate_id r =
    text_eq r.kubernetes_key_id candidate_id && state_eq r.state pending

abbrev pub some_pending : Text → List StateRecord → Bool
some_pending candidate_id [] = false
some_pending candidate_id (r ∷ rs) =
    is_pending_candidate candidate_id r || some_pending candidate_id rs

module _ (c : Crypto) where
  -- The loop of promotePendingRecord.
  unfoldable pub retire_active : Text → Text → Promoting → List StateRecord → Result Promoting
  retire_active pending_id active_id p [] = ok p
  retire_active pending_id active_id p (r ∷ rs) = snapshot_of_record c r >>= λ k.
      elim (text_eq k.kubernetes_key_id pending_id) [
        | true ↦ retire_active pending_id active_id p rs
        | false ↦ elim (text_eq k.kubernetes_key_id active_id) [
          | true ↦ normalize c (record k { state = retired }) >>= λ n.
              let kept =
                record_from_snapshot n (record_time r.observed_at_unix) no_time (pos 0)
                  (record_time r.promoted_at_unix) in
              retire_active pending_id active_id
                (record { records = p.records ++ kept ∷ []; active_retired = true }) rs
          | false ↦
              retire_active pending_id active_id (record p { records = p.records ++ r ∷ [] }) rs
        ]
      ]

  module _ (marshal : HashBody → Result Text) where
    -- NewObserver; the probe snapshot has version 1 and second 1.
    unfoldable pub new_observer : SnapshotScope → RotationPolicy → Result Observer
    new_observer scope policy = do
      wrap_error err_config_invalid (validate_identity_fingerprint c scope.identity_fingerprint)
      fail_if (lt_int policy.activation_delay (pos 0)) (err_config_invalid ∷ [])
      fail_if (le_int policy.require_stable_observation_count (pos 0)) (err_config_invalid ∷ [])
      let s = record scope { aad_mode = mode_or_default scope.aad_mode }
      _ ← scope_snapshot c s (pos 1) (of_unix (pos 1)) active
      ok (record { scope = s; policy = policy })

    -- promotePendingRecord
    unfoldable pub promote_pending_record :
        StateFile → List StateRecord → StateRecord → Time → Result StateFile
    promote_pending_record s records p now = do
      k ← snapshot_of_record c p
      promoted ← normalize c (record k { state = active })
      g ←
          retire_active p.kubernetes_key_id s.active_key_id
            (record { records = []; active_retired = false }) records
      fail_if (not g.active_retired) (err_state_unavailable ∷ [])
      let active_record =
          record_from_snapshot promoted (record_time p.observed_at_unix)
            (record_time p.stable_at_unix) p.stable_observation_count
            (of_unix (max_int (max_int (to_unix now) p.observed_at_unix) p.stable_at_unix))
      next_state_from_records c marshal s promoted.kubernetes_key_id
          (ordered_records promoted.kubernetes_key_id (g.records ++ active_record ∷ []))

    -- validateProfileForState
    unfoldable pub validate_profile_for_state : KeyProfile → StateFile → Result (Unit {0})
    validate_profile_for_state p s = do
      a ← state_active c s
      fail_if (lt_int a.transit_version p.min_encryption_version) key_unusable
      validate_decryptable_records c p s.snapshots

    -- pendingObservation
    unfoldable pub pending_observation :
        StateFile → List StateRecord → KeyProfile → Bool → Result ObservationResult
    pending_observation s records p blocked = elim (records_eq s.snapshots records) [
      | true ↦ ok (record {
        state = s;
        changed = false;
        promoted = false;
        pending_seen = true;
        encryption_blocked = blocked;
        clock_regressed = false;
      })
      | false ↦ do
        next ← next_state_from_records c marshal s s.active_key_id records
        validate_decryptable_records c p next.snapshots
        ok (record {
          state = next;
          changed = true;
          promoted = false;
          pending_seen = true;
          encryption_blocked = blocked;
          clock_regressed = false;
        })
    ]

    -- The end of observeNewerVersion: the promotion, or the pending observation.
    unfoldable pub promote_or_wait :
        Observer
        → StateFile
        → KeyProfile
        → Time
        → Bool
        → Bool
        → Bool
        → List StateRecord
        → StateRecord
        → Result ObservationResult
    promote_or_wait o s p now advance ready blocked records r =
        elim (advance && promotion_allowed o r ready) [
          | true ↦ do
            next ← promote_pending_record s records r now
            validate_profile_for_state p next
            ok (record {
              state = next;
              changed = true;
              promoted = true;
              pending_seen = false;
              encryption_blocked = false;
              clock_regressed = lt_int (to_unix now) (max_int r.observed_at_unix r.stable_at_unix);
            })
          | false ↦ do
            result ← pending_observation s records p blocked
            ok (record result {
              clock_regressed = result.changed && lt_int (to_unix now) r.stable_at_unix;
            })
        ]

    -- observeNewerVersion from the candidate on: Discover returns early if it is pending already.
    unfoldable pub observe_candidate :
        Observer
        → StateFile
        → KeyProfile
        → Time
        → Bool
        → Bool
        → Bool
        → List StateRecord
        → KeySnapshot
        → Result ObservationResult
    observe_candidate o s p now advance ready blocked intermediate candidate =
        elim (not advance && some_pending candidate.kubernetes_key_id s.snapshots) [
          | true ↦ ok (record {
            state = s;
            changed = false;
            promoted = false;
            pending_seen = true;
            encryption_blocked = blocked;
            clock_regressed = false;
          })
          | false ↦ do
            (records, r) ←
                upsert_pending_record c s
                  (record_from_snapshot candidate now no_time (pos 0) no_time)
                  o.policy.require_stable_observation_count now intermediate advance
            promote_or_wait o s p now advance ready blocked records r
        ]

    -- observeNewerVersion
    unfoldable pub observe_newer_version :
        Observer → StateFile → KeyProfile → Time → Bool → Bool → Result ObservationResult
    unfolding observe_candidate
    observe_newer_version o s p now advance ready = do
      a ← state_active c s
      intermediate ← intermediate_historical_records c o s p a.transit_version now
      candidate ← snapshot_for_profile c o p p.latest_version pending
      let blocked = lt_int a.transit_version p.min_encryption_version
      observe_candidate o s p now advance ready blocked intermediate candidate

    -- observe after its checks: no newer version, or a newer one.
    unfoldable pub observe_validated :
        Observer
        → StateFile
        → KeyProfile
        → Time
        → Bool
        → Bool
        → KeySnapshot
        → Result ObservationResult
    observe_validated o s p now advance ready a = elim (le_int p.latest_version a.transit_version) [
      | true ↦ ok (record {
        state = s;
        changed = false;
        promoted = false;
        pending_seen = false;
        encryption_blocked = lt_int a.transit_version p.min_encryption_version;
        clock_regressed = false;
      })
      | false ↦ observe_newer_version o s p now advance ready
    ]

    -- observe
    unfoldable pub observe_step :
        Observer → StateFile → KeyProfile → Time → Bool → Bool → Result ObservationResult
    unfolding observe_validated
    observe_step o s p now advance ready = do
      validate_state c marshal s
      validate_profile p
      validate_state_scope c o s
      a ← state_active c s
      fail_if (lt_int p.latest_version a.transit_version && o.policy.reject_version_rollback)
          (err_version_rollback ∷ [])
      validate_decryptable_records c p s.snapshots
      observe_validated o s p now advance ready a

    -- Observe
    unfoldable pub observe :
        Observer → StateFile → KeyProfile → Time → Bool → Result ObservationResult
    unfolding observe_step
    observe o s p now ready = observe_step o s p now true ready

    -- Discover
    unfoldable pub discover : Observer → StateFile → KeyProfile → Time → Result ObservationResult
    unfolding observe_step
    discover o s p now = observe_step o s p now false false
