-- ===== src/Status/Controller/Persistence.antt =====
-- internal/status/persistence.go: a save that failed is kept and completed by the next probe, and a
-- state that only counted observations does not stop the published one from being served.
use openbao_kubernetes_kms.Base.{
  ◌==◌, Bool, true, false, not, ◌&&◌, ◌||◌, Option, none, some, List, [], ◌∷◌, length,
  if◌then◌else◌, Text, text_eq, le_int, eq_int, Result, ok, err, Error, err_probe_failed,
}
use openbao_kubernetes_kms.Crypto.{Crypto}
use openbao_kubernetes_kms.Clock.{Reading}
use openbao_kubernetes_kms.KeyRegistry.Snapshot.{SnapshotState, state_eq}
use openbao_kubernetes_kms.KeyRegistry.Records.{StateRecord, record_eq, is_zero_int}
use openbao_kubernetes_kms.KeyRegistry.State.{StateFile, HashBody, validate_state_progress}
use openbao_kubernetes_kms.KeyRegistry.Files.{WriteOutcome}
use openbao_kubernetes_kms.OpenBao.Errors.{caused_by}
use openbao_kubernetes_kms.OpenBao.Profile.{KeyProfile}
use openbao_kubernetes_kms.Status.Rotation.{ObservationResult}
use openbao_kubernetes_kms.Status.Promotion.{discover}
use openbao_kubernetes_kms.Status.StateStore.{Disk, save, recover, confirm}
use openbao_kubernetes_kms.Status.Store.{HealthReason, Loaded, publish_deferred}
use openbao_kubernetes_kms.Status.Controller.{
  metadata_probe, StateCommit, ProbeError, Settings, Controller, record_probe_success,
}
use openbao_kubernetes_kms.Status.Controller.Failures.{metadata_failed}

-- How the two writes of a save end.
pub record Writes : Type 0 where
  pub to_state : WriteOutcome
  pub to_checkpoint : WriteOutcome

-- Whether a changed record only counts observations.
abbrev only_counts : StateRecord → StateRecord → Bool
only_counts before after =
    state_eq before.state SnapshotState.pending
    && (state_eq after.state before.state
        && (le_int before.stable_observation_count after.stable_observation_count
            && ((is_zero_int before.stable_at_unix
                  || eq_int after.stable_at_unix before.stable_at_unix)
                && record_eq
                    (record after {
                      stable_observation_count = before.stable_observation_count;
                      stable_at_unix = before.stable_at_unix;
                    })
                    before)))

-- The loop of observationOnly over lists of the same length.
unfoldable pub records_observed : List StateRecord → List StateRecord → Bool → Bool
records_observed [] next changed = changed
records_observed (_ ∷ _) [] changed = false
records_observed (before ∷ previous) (after ∷ next) changed = elim (record_eq before after) [
  | true ↦ records_observed previous next changed
  | false ↦ elim (only_counts before after) [
    | true ↦ records_observed previous next true
    | false ↦ false
  ]
]

abbrev pub is_ok {ℓ} : {A : Type ℓ} → Result A → Bool
is_ok (ok _) = true
is_ok (err _) = false

-- What Discover must answer for an observation to be deferred.
abbrev is_quiet : Result ObservationResult → Bool
is_quiet (err _) = false
is_quiet (ok r) = not r.changed && not r.encryption_blocked

abbrev pub published_state : Option Loaded → Option StateFile
published_state none = none
published_state (some l) = some l.state

-- What Recover or the published state gives: the state to observe.
abbrev pub next_if_ok : StateFile → Result StateFile → Result (Option StateFile)
next_if_ok n (ok _) = ok (some n)
next_if_ok n (err e) = err e

module _ (c : Crypto) (marshal : HashBody → Result Text) where
  -- observationOnly
  unfoldable pub observation_only : StateFile → StateFile → Bool
  unfolding records_observed
  observation_only p n =
      is_ok (validate_state_progress c marshal p n)
      && (text_eq p.active_key_id n.active_key_id
          && ((length p.snapshots == length n.snapshots)
              && records_observed p.snapshots n.snapshots false))

  -- stateForObservation, for the commit that is pending.
  unfoldable pub state_for :
      Settings → Option StateCommit → Controller → Writes → Controller × Result (Option StateFile)
  state_for t none m w = (m, ok (published_state m.store.loaded))
  state_for t (some commit) m w =
      let recovered =
        recover c marshal t.path m.disk commit.previous commit.next w.to_state w.to_checkpoint in
      (record m { disk = recovered.0 }, next_if_ok commit.next recovered.1)

  -- stateForObservation
  unfoldable pub state_for_observation :
      Settings → Controller → Writes → Controller × Result (Option StateFile)
  unfolding state_for
  state_for_observation t m w = state_for t m.pending_commit m w

  -- saveState
  unfoldable pub save_state :
      Settings → Controller → Option StateFile → StateFile → Writes → Controller × Result StateFile
  save_state t m previous next w =
      let saved = save c marshal t.path m.disk next w.to_state w.to_checkpoint in
      (
        record m {
          disk = saved.0;
          pending_commit = some (record { previous = previous; next = next });
        },
        saved.1,
      )

  -- What allows deferObservation to defer the commit from `p` to `n`.
  unfoldable pub may_defer : Settings → Disk → StateFile → StateFile → KeyProfile → Reading → Bool
  unfolding observation_only
  may_defer t d p n profile now =
      observation_only p n
      && (is_quiet (discover c marshal t.observer p profile now.wall)
          && is_ok (confirm c marshal d p))

  -- deferObservation for a commit over the states before it and after it.
  unfoldable pub defer_over :
      Settings
      → Controller
      → Option StateFile
      → StateFile
      → KeyProfile
      → Reading
      → Controller × Bool
  unfolding may_defer
  defer_over t m none next profile now = (m, false)
  defer_over t m (some p) next profile now =
      if may_defer t m.disk p next profile now
      then (
        record m { store = (publish_deferred m.store p.current_hash now).0 },
        (publish_deferred m.store p.current_hash now).1,
      )
      else (m, false)

  unfoldable pub defer_commit :
      Settings → Controller → Option StateCommit → KeyProfile → Reading → Controller × Bool
  unfolding defer_over
  defer_commit t m none profile now = (m, false)
  defer_commit t m (some commit) profile now =
      defer_over t m commit.previous commit.next profile now

  -- deferObservation
  unfoldable pub defer_observation :
      Settings → Controller → KeyProfile → Reading → Controller × Bool
  unfolding defer_commit
  defer_observation t m profile now = defer_commit t m m.pending_commit profile now

  -- stateSaveFailed; the two readings are of the store and of the breaker.
  unfoldable pub state_save_failed :
      Settings
      → Controller
      → KeyProfile
      → Reading
      → Reading
      → Reading
      → Error
      → Controller × Option ProbeError
  unfolding defer_observation
  state_save_failed t m profile now clock reading cause =
      let deferred = defer_observation t m profile now in
      let failed = caused_by (err_probe_failed ∷ cause) in
      if deferred.1
      then (
        record_probe_success metadata_probe deferred.0 reading,
        some (record { reason = some HealthReason.state_save_failed; cause = failed }),
      )
      else metadata_failed deferred.0 now clock HealthReason.state_save_failed failed
