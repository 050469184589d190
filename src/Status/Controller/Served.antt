-- ===== src/Status/Controller/Served.antt =====
-- What the KMS handlers are served after any probes of internal/status/controller.go: the controller
-- keeps the invariant of the store that it publishes to.
use openbao_kubernetes_kms.Base.{
  inl, inr, Bool, true, false, Option, none, some, Text, Result, Error, Result-cases, Bool-cases,
}
use openbao_kubernetes_kms.Crypto.{Crypto}
use openbao_kubernetes_kms.Clock.{Reading}
use openbao_kubernetes_kms.KeyRegistry.State.{StateFile, HashBody}
use openbao_kubernetes_kms.OpenBao.Errors.{Cause}
use openbao_kubernetes_kms.OpenBao.Profile.{KeyProfile}
use openbao_kubernetes_kms.Status.Rotation.{ObservationResult}
use openbao_kubernetes_kms.Status.Store.{HealthReason, Store, publish_metadata}
use openbao_kubernetes_kms.Status.Store.Health.{
  metadata_fails, defers, deep_fails, updates_breaker, store_step, StoreInv, step-StoreInv,
  publish_metadata-StoreInv,
}
use openbao_kubernetes_kms.Status.Controller.{
  ProbeKind, metadata_probe, deep_probe, StateCommit, Settings, Controller, publish_breakers,
  allow_probe, record_probe_failure, record_probe_success, confirm_activation,
}
use openbao_kubernetes_kms.Status.Controller.Failures.{metadata_failed, deep_failed}
use openbao_kubernetes_kms.Status.Controller.Persistence.{
  Writes, state_for, state_for_observation, save_state, may_defer, defer_over, defer_commit,
  defer_observation, state_save_failed,
}
use openbao_kubernetes_kms.Status.Controller.Probes.{
  ProbeWorld, Observed, refused, observed, published, save_if_changed, publish_result,
  save_and_publish, publish_observation,
}

module _ (c : Crypto) (marshal : HashBody → Result Text) where
  -- The store of a controller keeps its invariant.
  abbrev pub IsServing : Controller → Type 0
  IsServing m = StoreInv c marshal m.store

  pub record_probe_failure-IsServing :
      (kind : ProbeKind) (m : Controller) (now reading : Reading)
      → IsServing m
      → IsServing (record_probe_failure kind m now reading)
  unfolding record_probe_failure publish_breakers store_step
  record_probe_failure-IsServing metadata_probe m now reading v =
      step-StoreInv c marshal m.store (updates_breaker _) v
  record_probe_failure-IsServing deep_probe m now reading v =
      step-StoreInv c marshal m.store (updates_breaker _) v

  pub record_probe_success-IsServing :
      (kind : ProbeKind) (m : Controller) (reading : Reading)
      → IsServing m
      → IsServing (record_probe_success kind m reading)
  unfolding record_probe_success publish_breakers store_step
  record_probe_success-IsServing metadata_probe m reading v =
      step-StoreInv c marshal m.store (updates_breaker _) v
  record_probe_success-IsServing deep_probe m reading v =
      step-StoreInv c marshal m.store (updates_breaker _) v

  pub allow_probe-IsServing :
      (kind : ProbeKind) (m : Controller) (now reading : Reading)
      → IsServing m
      → IsServing (allow_probe kind m now reading).0
  unfolding allow_probe publish_breakers store_step
  allow_probe-IsServing metadata_probe m now reading v =
      step-StoreInv c marshal m.store (updates_breaker _) v
  allow_probe-IsServing deep_probe m now reading v =
      step-StoreInv c marshal m.store (updates_breaker _) v

  pub metadata_failed-IsServing :
      (m : Controller) (now clock : Reading) (reason : HealthReason) (cause : Cause)
      → IsServing m
      → IsServing (metadata_failed m now clock reason cause).0
  unfolding metadata_failed store_step
  metadata_failed-IsServing m now clock reason cause v =
      step-StoreInv c marshal m.store (metadata_fails now _ clock) v

  pub deep_failed-IsServing :
      (m : Controller) (reason : HealthReason) (cause : Cause)
      → IsServing m
      → IsServing (deep_failed m reason cause).0
  unfolding deep_failed store_step
  deep_failed-IsServing m reason cause v = step-StoreInv c marshal m.store (deep_fails _) v

  defer_over-IsServing :
      (t : Settings) (m : Controller) (previous : Option StateFile) (n : StateFile) (p : KeyProfile)
      (now : Reading)
      → IsServing m
      → IsServing (defer_over c marshal t m previous n p now).0
  unfolding defer_over store_step
  defer_over-IsServing t m none n p now v = v
  defer_over-IsServing t m (some s) n p now v =
      elim (Bool-cases (may_defer c marshal t m.disk s n p now)) [
        | inr e ↦ rw e v
        | inl e ↦ rw e (step-StoreInv c marshal m.store (defers s.current_hash now) v)
      ]

  defer_commit-IsServing :
      (t : Settings) (m : Controller) (o : Option StateCommit) (p : KeyProfile) (now : Reading)
      → IsServing m
      → IsServing (defer_commit c marshal t m o p now).0
  unfolding defer_commit
  defer_commit-IsServing t m none p now v = v
  defer_commit-IsServing t m (some k) p now v = defer_over-IsServing t m k.previous k.next p now v

  state_save_failed-IsServing :
      (t : Settings) (m : Controller) (p : KeyProfile) (now clock reading : Reading) (cause : Error)
      → IsServing m
      → IsServing (state_save_failed c marshal t m p now clock reading cause).0
  unfolding state_save_failed defer_observation
  state_save_failed-IsServing t m p now clock reading cause v =
      let v' = defer_commit-IsServing t m m.pending_commit p now v in
      elim (Bool-cases (defer_commit c marshal t m m.pending_commit p now).1) [
        | inl e ↦ rw e (record_probe_success-IsServing metadata_probe _ reading v')
        | inr e ↦ rw e (metadata_failed-IsServing _ now clock HealthReason.state_save_failed _ v')
      ]

  state_for-IsServing :
      (t : Settings) (o : Option StateCommit) (m : Controller) (w : Writes)
      → IsServing m
      → IsServing (state_for c marshal t o m w).0
  unfolding state_for
  state_for-IsServing t none m w v = v
  state_for-IsServing t (some k) m w v = v

  published-IsServing :
      (t : Settings) (m : Controller) (st : Store) (p : KeyProfile) (w : ProbeWorld)
      (is_discovery : Bool) (r : ObservationResult)
      → StoreInv c marshal st
      → IsServing (published c marshal t m st p w is_discovery r).0
  unfolding published confirm_activation
  published-IsServing t m st p w true r v =
      record_probe_success-IsServing metadata_probe _ w.at_record v
  published-IsServing t m st p w false r v =
      record_probe_success-IsServing metadata_probe _ w.at_record v

  publish_result-IsServing :
      (t : Settings) (m : Controller) (p : KeyProfile) (w : ProbeWorld) (is_discovery : Bool)
      (r : ObservationResult)
      → IsServing m
      → IsServing (publish_result c marshal t m p w is_discovery r).0
  unfolding publish_result
  publish_result-IsServing t m p w is_discovery r v =
      elim (Result-cases
        (publish_metadata c marshal m.store r.state w.now r.encryption_blocked w.at_publish)) [
          | inr (u, q) ↦ rw q (metadata_failed-IsServing m w.now w.at_publish _ _ v)
          | inl (st, q) ↦ rw q (
              published-IsServing t m st p w is_discovery r (
                publish_metadata-StoreInv c marshal m.store st r.state w.now r.encryption_blocked
                  w.at_publish v q))
        ]

  save_and_publish-IsServing :
      (t : Settings) (m : Controller) (previous : Option StateFile) (p : KeyProfile)
      (w : ProbeWorld) (is_discovery : Bool) (o : Observed)
      → IsServing m
      → IsServing (save_and_publish c marshal t m previous p w is_discovery o).0
  unfolding save_and_publish save_if_changed save_state
  save_and_publish-IsServing t m previous p w is_discovery (refused reason why) v =
      metadata_failed-IsServing m w.now w.at_publish reason _ v
  save_and_publish-IsServing t m previous p w is_discovery (observed r) v =
      elim (Bool-cases r.changed) [
        | inr q ↦ rw q (publish_result-IsServing t m p w is_discovery r v)
        | inl q ↦ elim (Result-cases (save_state c marshal t m previous r.state w.saving).1) [
          | inr (u, k) ↦
              rw (q, k) (state_save_failed-IsServing t _ p w.now w.at_publish w.at_record u v)
          | inl (s, k) ↦ rw (q, k) (publish_result-IsServing t _ p w is_discovery r v)
        ]
      ]

  pub publish_observation-IsServing :
      (t : Settings) (m : Controller) (p : KeyProfile) (w : ProbeWorld) (is_discovery : Bool)
      → IsServing m
      → IsServing (publish_observation c marshal t m p w is_discovery).0
  unfolding publish_observation state_for_observation
  publish_observation-IsServing t m p w is_discovery v =
      let v' = state_for-IsServing t m.pending_commit m w.recovering v in
      elim (Result-cases (state_for c marshal t m.pending_commit m w.recovering).1) [
        | inr (u, k) ↦ rw k (state_save_failed-IsServing t _ p w.now w.at_publish w.at_record u v')
        | inl (o, k) ↦ rw k (save_and_publish-IsServing t _ o p w is_discovery _ v')
      ]
