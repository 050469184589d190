-- ===== src/Status/Controller/Probed.antt =====
-- What a metadata probe of internal/status/controller.go keeps of the files on disk.
use openbao_kubernetes_kms.Base.{
  ◌≡◌, refl, sym, ap, ◌∙◌, subst, inl, inr, Bool, true, false, some, Text, Result, ok, Result-cases,
  Bool-cases,
}
use openbao_kubernetes_kms.Crypto.{Crypto}
use openbao_kubernetes_kms.Clock.{Reading}
use openbao_kubernetes_kms.KeyRegistry.Snapshot.{is_empty}
use openbao_kubernetes_kms.KeyRegistry.State.{StateFile, HashBody, validate_state}
use openbao_kubernetes_kms.KeyRegistry.State.Next.{Follows}
use openbao_kubernetes_kms.OpenBao.Errors.{Cause}
use openbao_kubernetes_kms.OpenBao.Profile.{KeyProfile}
use openbao_kubernetes_kms.Status.Rotation.{ObservationResult}
use openbao_kubernetes_kms.Status.StateStore.Crash.{disk_of, progress_valid, save-ok}
use openbao_kubernetes_kms.Status.Store.{
  HealthReason, update_health, publish_deep_unhealthy, update_circuit_breaker,
}
use openbao_kubernetes_kms.Status.Controller.{
  ProbeKind, metadata_probe, deep_probe, Settings, Controller, publish_breakers,
  record_probe_failure, allow_probe,
}
use openbao_kubernetes_kms.Status.Controller.Failures.{deep_failed}
use openbao_kubernetes_kms.Status.Controller.Persistence.{Writes, state_for_observation, save_state}
use openbao_kubernetes_kms.Status.Controller.Probes.{
  Reply, failed, replied, ProbeWorld, Observed, refused, observed, observe_profile, save_if_changed,
  save_and_publish, publish_observation, probe_profile, probe_upsert, probe_once,
}
use openbao_kubernetes_kms.Status.Controller.Durable.{
  before, in_flight, IsDurable, Ready, state_for-Durable, state_for-Ready, save-InFlight,
}
use openbao_kubernetes_kms.Status.Controller.Published.{
  Moves, metadata_failed-Durable, state_save_failed-Durable, observe_profile-Moves,
  publish_result-Durable,
}

module _ (c : Crypto) (marshal : HashBody → Result Text) (t : Settings)
    (e : is_empty t.path ≡ false) where
  -- A save of the next state over a ready one, however its writes end.
  save_state-Durable :
      (m : Controller) (q n : StateFile) (w : Writes)
      → Ready c marshal m q
      → Follows c marshal q n
      → IsDurable c marshal (save_state c marshal t m (some q) n w).0
  unfolding save_state
  save_state-Durable m q n w r h =
      in_flight r.published q n refl r.is_published r.descends h (
        save-InFlight c marshal t.path q n m.disk w.to_state w.to_checkpoint e h (before r.on_disk))

  save_state-on_disk :
      (m : Controller) (q n s : StateFile) (w : Writes)
      → Follows c marshal q n
      → (save_state c marshal t m (some q) n w).1 ≡ ok s
      → (save_state c marshal t m (some q) n w).0.disk ≡ disk_of n
  unfolding save_state
  save_state-on_disk m q n s w h k =
      save-ok c marshal t.path m.disk n s w.to_state w.to_checkpoint e
        (progress_valid c marshal q n h.0).1 k

  save_and_publish-Durable :
      (m : Controller) (q : StateFile) (p : KeyProfile) (w : ProbeWorld) (is_discovery : Bool)
      (o : Observed)
      → IsDurable c marshal m
      → Ready c marshal m q
      → ((r : ObservationResult) → o ≡ observed r → Moves c marshal q r)
      → IsDurable c marshal (save_and_publish c marshal t m (some q) p w is_discovery o).0
  unfolding save_and_publish save_if_changed
  save_and_publish-Durable m q p w is_discovery (refused reason why) d r moves =
      metadata_failed-Durable c marshal m w.now w.at_publish reason _ d
  save_and_publish-Durable m q p w is_discovery (observed r) d ready moves = elim (moves r refl) [
    | inl (unchanged, same_state) ↦ rw unchanged (
        publish_result-Durable c marshal t m p w is_discovery r d
          (subst (λ x. validate_state c marshal x ≡ ok tt) (sym same_state) ready.valid)
          (ready.on_disk ∙ ap disk_of (sym same_state)))
    | inr (changed, h) ↦
        let d' = save_state-Durable m q r.state w.saving ready h in
        elim (Result-cases (save_state c marshal t m (some q) r.state w.saving).1) [
          | inr (u, k) ↦
              rw (changed, k)
                (state_save_failed-Durable c marshal t _ p w.now w.at_publish w.at_record u d')
          | inl (s, k) ↦
              rw (changed, k)
                (publish_result-Durable c marshal t _ p w is_discovery r d'
                  (progress_valid c marshal q r.state h.0).1
                  (save_state-on_disk m q r.state s w.saving h k))
        ]
  ]

  publish_observation-Durable :
      (m : Controller) (p : KeyProfile) (w : ProbeWorld) (is_discovery : Bool)
      → IsDurable c marshal m
      → IsDurable c marshal (publish_observation c marshal t m p w is_discovery).0
  unfolding publish_observation
  publish_observation-Durable m p w is_discovery d =
      let d' = state_for-Durable c marshal t m w.recovering e d in
      elim (Result-cases (state_for_observation c marshal t m w.recovering).1) [
        | inr (u, k) ↦
            rw k (state_save_failed-Durable c marshal t _ p w.now w.at_publish w.at_record u d')
        | inl (o, k) ↦
            let (q, is_q, ready) = state_for-Ready c marshal t m w.recovering o e d k in
            let start = (state_for_observation c marshal t m w.recovering).0 in
            rw (k, is_q)
              (save_and_publish-Durable start q p w is_discovery
                (observe_profile c marshal t start (some q) p w.now is_discovery) d' ready
                (observe_profile-Moves c marshal t start q p w.now is_discovery))
      ]

  pub record_probe_failure-Durable :
      (kind : ProbeKind) (m : Controller) (now reading : Reading)
      → IsDurable c marshal m
      → IsDurable c marshal (record_probe_failure kind m now reading)
  unfolding record_probe_failure publish_breakers update_circuit_breaker
  record_probe_failure-Durable metadata_probe m now reading d = d
  record_probe_failure-Durable deep_probe m now reading d = d

  pub allow_probe-Durable :
      (kind : ProbeKind) (m : Controller) (now reading : Reading)
      → IsDurable c marshal m
      → IsDurable c marshal (allow_probe kind m now reading).0
  unfolding allow_probe publish_breakers update_circuit_breaker
  allow_probe-Durable metadata_probe m now reading d = d
  allow_probe-Durable deep_probe m now reading d = d

  probe_upsert-Durable :
      (m : Controller) (w : ProbeWorld) (is_discovery : Bool) (u : Reply Bool)
      (p : Reply KeyProfile)
      → p ≡ w.profile
      → IsDurable c marshal m
      → IsDurable c marshal (probe_upsert c marshal t m w is_discovery u).0
  unfolding probe_upsert probe_profile
  probe_upsert-Durable m w is_discovery (failed u) p is_reply d =
      metadata_failed-Durable c marshal _ w.now w.at_publish _ _
        (record_probe_failure-Durable metadata_probe m w.now w.at_record d)
  probe_upsert-Durable m w is_discovery (replied false) p is_reply d =
      metadata_failed-Durable c marshal m w.now w.at_publish _ _ d
  probe_upsert-Durable m w is_discovery (replied true) (failed u) is_reply d = rw (sym is_reply) (
      metadata_failed-Durable c marshal _ w.now w.at_publish _ _
        (record_probe_failure-Durable metadata_probe m w.now w.at_record d))
  probe_upsert-Durable m w is_discovery (replied true) (replied p) is_reply d =
      rw (sym is_reply) (publish_observation-Durable m p w is_discovery d)

  pub probe_once-Durable :
      (m : Controller) (w : ProbeWorld) (is_discovery : Bool)
      → IsDurable c marshal m
      → IsDurable c marshal (probe_once c marshal t m w is_discovery).0
  unfolding probe_once
  probe_once-Durable m w is_discovery d =
      let d' = allow_probe-Durable metadata_probe m w.now w.at_allow d in
      elim (Result-cases w.context) [
        | inr (u, k) ↦ rw k d
        | inl (u, k) ↦ elim (Bool-cases (allow_probe metadata_probe m w.now w.at_allow).1) [
          | inl q ↦
              rw (k, q) (probe_upsert-Durable _ w is_discovery w.disable_upsert w.profile refl d')
          | inr q ↦ rw (k, q) (metadata_failed-Durable c marshal _ w.now w.at_publish _ _ d')
        ]
      ]

  pub deep_failed-Durable :
      (m : Controller) (reason : HealthReason) (cause : Cause)
      → IsDurable c marshal m
      → IsDurable c marshal (deep_failed m reason cause).0
  unfolding deep_failed publish_deep_unhealthy update_health
  deep_failed-Durable m reason cause d = d
