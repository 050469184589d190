-- ===== src/Status/Controller/Probes.antt =====
-- internal/status/controller.go: the metadata probe of Transit. What OpenBao
-- replies, what the clock shows and how writes end are arguments.
use openbao_kubernetes_kms.Base.{
  Bool, true, false, Option, none, some, [], ◌∷◌, if◌then◌else◌, Text, Result, ok, err, Error,
  if_err, ◌>>=◌, err_probe_failed, err_circuit_breaker_open, err_state_unavailable,
  err_transit_key_unusable,
}
use openbao_kubernetes_kms.Crypto.{Crypto}
use openbao_kubernetes_kms.Clock.{Reading}
use openbao_kubernetes_kms.KeyRegistry.State.{StateFile, HashBody}
use openbao_kubernetes_kms.OpenBao.Errors.{Cause, caused_by}
use openbao_kubernetes_kms.OpenBao.Profile.{KeyProfile}
use openbao_kubernetes_kms.Status.Profile.{can_auto_bootstrap}
use openbao_kubernetes_kms.Status.Rotation.{ObservationResult}
use openbao_kubernetes_kms.Status.Promotion.{observe, discover}
use openbao_kubernetes_kms.Status.Rebuild.{rebuild_state}
use openbao_kubernetes_kms.Status.Store.{HealthReason, Store, publish_metadata}
use openbao_kubernetes_kms.Status.Controller.{
  metadata_probe, ProbeError, Settings, Controller, allow_probe, record_probe_failure,
  record_probe_success, promotion_ready, confirm_activation,
}
use openbao_kubernetes_kms.Status.Controller.Failures.{metadata_failed, profile_failure_reason}
use openbao_kubernetes_kms.Status.Controller.Persistence.{
  Writes, state_for_observation, save_state, state_save_failed,
}

-- A reply of OpenBao, or the error in its place.
pub data Reply (A : Type 0) : Type 0 where
  failed : Cause → Reply A
  replied : A → Reply A

-- What a metadata probe meets outside: the context at its start, the readings of the clock in the
-- order they are made, the replies, and how the writes of a recovery and of a save end.
pub record ProbeWorld : Type 0 where
  pub context : Result (Unit {0})
  pub now : Reading
  pub at_allow : Reading
  pub at_publish : Reading
  pub at_confirm : Reading
  pub at_record : Reading
  pub disable_upsert : Reply Bool
  pub profile : Reply KeyProfile
  pub recovering : Writes
  pub saving : Writes

-- What publishObservation makes of the profile.
pub data Observed : Type 0 where
  refused : HealthReason → Error → Observed
  observed : ObservationResult → Observed

abbrev pub observed_or : Result ObservationResult → Observed
observed_or (ok r) = observed r
observed_or (err e) = refused (profile_failure_reason e) e

abbrev rebuilt_or : Result StateFile → Observed
rebuilt_or (err e) = refused (profile_failure_reason e) e
rebuilt_or (ok s) = observed (record {
  state = s;
  changed = true;
  promoted = false;
  pending_seen = false;
  encryption_blocked = false;
  clock_regressed = false;
})

abbrev pub wrapped : Cause → Cause
wrapped e = record e { sentinels = err_probe_failed ∷ e.sentinels }

module _ (c : Crypto) (marshal : HashBody → Result Text) (t : Settings) where
  -- The observation of publishObservation: of a state, or of no state.
  unfoldable pub observe_profile :
      Controller → Option StateFile → KeyProfile → Reading → Bool → Observed
  observe_profile m none p now is_discovery =
      if can_auto_bootstrap p
      then rebuilt_or (rebuild_state c marshal t.observer p now.wall)
      else refused HealthReason.state_unavailable (err_state_unavailable ∷ [])
  observe_profile m (some s) p now is_discovery = observed_or (
      if is_discovery
      then discover c marshal t.observer s p now.wall
      else observe c marshal t.observer s p now.wall (promotion_ready t m s p now))

  -- The end of publishObservation, once the metadata is published in the store.
  unfoldable pub published :
      Controller
      → Store
      → KeyProfile
      → ProbeWorld
      → Bool
      → ObservationResult
      → Controller × Option ProbeError
  published m store p w is_discovery r =
      let stored = record m { store = store; pending_commit = none } in
      let waited =
        if is_discovery then stored else confirm_activation t stored r.state p w.at_confirm in
      (
        record_probe_success metadata_probe waited w.at_record,
        if r.encryption_blocked
            then some (record { reason = none; cause = caused_by (err_transit_key_unusable ∷ []) })
            else none,
      )

  -- The save of publishObservation, when there is something to save.
  unfoldable pub save_if_changed :
      Controller → Option StateFile → ObservationResult → Writes → Controller × Result (Unit {0})
  save_if_changed m previous r w =
      if r.changed
      then (
        (save_state c marshal t m previous r.state w).0,
        ((save_state c marshal t m previous r.state w).1 >>= λ _. ok tt),
      )
      else (m, ok tt)

  -- publishObservation from the publication in the store on.
  unfoldable pub publish_result :
      Controller
      → KeyProfile
      → ProbeWorld
      → Bool
      → ObservationResult
      → Controller × Option ProbeError
  unfolding published
  publish_result m p w is_discovery r =
      if_err (publish_metadata c marshal m.store r.state w.now r.encryption_blocked w.at_publish)
        (λ e. metadata_failed m w.now w.at_publish HealthReason.state_publish_failed (caused_by e))
        (λ store. published m store p w is_discovery r)

  -- publishObservation from the observation on.
  unfoldable pub save_and_publish :
      Controller
      → Option StateFile
      → KeyProfile
      → ProbeWorld
      → Bool
      → Observed
      → Controller × Option ProbeError
  unfolding publish_result save_if_changed
  save_and_publish m previous p w is_discovery (refused reason e) =
      metadata_failed m w.now w.at_publish reason (caused_by e)
  save_and_publish m previous p w is_discovery (observed r) =
      let saved = save_if_changed m previous r w.saving in
      if_err saved.1 (λ e. state_save_failed c marshal t saved.0 p w.now w.at_publish w.at_record e)
        (λ _. publish_result saved.0 p w is_discovery r)

  -- publishObservation
  unfoldable pub publish_observation :
      Controller → KeyProfile → ProbeWorld → Bool → Controller × Option ProbeError
  unfolding save_and_publish observe_profile
  publish_observation m p w is_discovery =
      let start = state_for_observation c marshal t m w.recovering in
      if_err start.1 (λ e. state_save_failed c marshal t start.0 p w.now w.at_publish w.at_record e)
        (λ previous.
          save_and_publish start.0 previous p w is_discovery
            (observe_profile start.0 previous p w.now is_discovery))

  -- probeOnce after the check of disable_upsert.
  unfoldable pub probe_profile :
      Controller → ProbeWorld → Bool → Reply KeyProfile → Controller × Option ProbeError
  unfolding publish_observation
  probe_profile m w is_discovery (failed e) =
      metadata_failed (record_probe_failure metadata_probe m w.now w.at_record) w.now w.at_publish
        HealthReason.metadata_read_failed (wrapped e)
  probe_profile m w is_discovery (replied p) = publish_observation m p w is_discovery

  -- probeOnce once the breaker let it through.
  unfoldable pub probe_upsert :
      Controller → ProbeWorld → Bool → Reply Bool → Controller × Option ProbeError
  unfolding probe_profile
  probe_upsert m w is_discovery (failed e) =
      metadata_failed (record_probe_failure metadata_probe m w.now w.at_record) w.now w.at_publish
        HealthReason.upsert_check_failed (wrapped e)
  probe_upsert m w is_discovery (replied false) =
      metadata_failed m w.now w.at_publish HealthReason.upsert_allowed
        (caused_by (err_probe_failed ∷ []))
  probe_upsert m w is_discovery (replied true) = probe_profile m w is_discovery w.profile

  -- probeOnce
  unfoldable pub probe_once : Controller → ProbeWorld → Bool → Controller × Option ProbeError
  unfolding probe_upsert
  probe_once m w is_discovery =
      if_err w.context (λ e. (m, some (record { reason = none; cause = caused_by e })))
        (λ _.
          let allowed = allow_probe metadata_probe m w.now w.at_allow in
          if allowed.1
          then probe_upsert allowed.0 w is_discovery w.disable_upsert
          else metadata_failed allowed.0 w.now w.at_publish HealthReason.circuit_breaker_open
              (caused_by (err_circuit_breaker_open ∷ [])))
