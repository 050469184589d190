-- ===== src/Status/Controller/Answers.antt =====
-- What the KMS handlers are answered after any probes of internal/status/controller.go.
use openbao_kubernetes_kms.Base.{
  ℕ, ◌≡◌, subst, arith, inl, inr, Bool, true, false, leb, not, ◌&&◌, Option, none, some, List, [],
  ◌∷◌, Text, eq_int, Result, ok, err, Result-cases, Bool-cases, >>=-eq-ok, error_is,
  err_state_not_found,
}
use openbao_kubernetes_kms.Crypto.{Crypto, CryptoLaws}
use openbao_kubernetes_kms.Clock.{Reading, pending}
use openbao_kubernetes_kms.KeyRegistry.Snapshot.{KeySnapshot, parse_key_id}
use openbao_kubernetes_kms.KeyRegistry.Records.{is_zero_int}
use openbao_kubernetes_kms.KeyRegistry.State.{StateFile, HashBody}
use openbao_kubernetes_kms.KeyRegistry.Files.{WriteOutcome}
use openbao_kubernetes_kms.Kms.Limits.{max_ciphertext_bytes}
use openbao_kubernetes_kms.Kms.Server.{CachedStatus, health_ok}
use openbao_kubernetes_kms.OpenBao.Profile.{KeyProfile}
use openbao_kubernetes_kms.Status.Breaker.{BreakerOptions}
use openbao_kubernetes_kms.Status.Rotation.{validate_state_scope}
use openbao_kubernetes_kms.Status.StateStore.{Disk, load}
use openbao_kubernetes_kms.Status.Store.{
  HealthReason, Loaded, Store, empty_store, active_for_deep_probe, store_lookup, current,
}
use openbao_kubernetes_kms.Status.Store.Health.{
  deep_succeeds, updates_breaker, store_step, StoreInv, step-StoreInv, load-StoreInv,
  empty-StoreInv,
}
use openbao_kubernetes_kms.Status.Store.Serving.{Serves, current-Serves}
use openbao_kubernetes_kms.Status.Controller.{
  metadata_probe, deep_probe, Settings, Controller, publish_breakers, allow_probe,
}
use openbao_kubernetes_kms.Status.Controller.Persistence.{is_ok}
use openbao_kubernetes_kms.Status.Controller.Probes.{
  Reply, failed, replied, ProbeWorld, probe_profile, probe_upsert, probe_once,
}
use openbao_kubernetes_kms.Status.Controller.Refresh.{
  ProbeResult, DeepWorld, Prepared, starts, answers, has_record, deep_probe_reply, deep_probe_once,
  prepare_unknown, prepare_decrypt_refresh, refresh_attempt, refresh_prepared, refresh_for_decrypt,
  controller_over, load_store, start_controller, new_controller,
}
use openbao_kubernetes_kms.Status.Controller.Restart.{
  ControllerEvent, probes, probes_deep, refreshes, controller_step, controller_run,
}
use openbao_kubernetes_kms.Status.Controller.Served.{
  IsServing, record_probe_failure-IsServing, record_probe_success-IsServing, allow_probe-IsServing,
  metadata_failed-IsServing, deep_failed-IsServing, publish_observation-IsServing,
}

module _ (c : Crypto) (marshal : HashBody → Result Text) (t : Settings) where
  probe_profile-IsServing :
      (m : Controller) (w : ProbeWorld) (is_discovery : Bool) (p : Reply KeyProfile)
      → IsServing c marshal m
      → IsServing c marshal (probe_profile c marshal t m w is_discovery p).0
  unfolding probe_profile
  probe_profile-IsServing m w is_discovery (failed u) v =
      metadata_failed-IsServing c marshal _ w.now w.at_publish _ _
        (record_probe_failure-IsServing c marshal metadata_probe m w.now w.at_record v)
  probe_profile-IsServing m w is_discovery (replied p) v =
      publish_observation-IsServing c marshal t m p w is_discovery v

  probe_upsert-IsServing :
      (m : Controller) (w : ProbeWorld) (is_discovery : Bool) (u : Reply Bool)
      → IsServing c marshal m
      → IsServing c marshal (probe_upsert c marshal t m w is_discovery u).0
  unfolding probe_upsert
  probe_upsert-IsServing m w is_discovery (failed u) v =
      metadata_failed-IsServing c marshal _ w.now w.at_publish _ _
        (record_probe_failure-IsServing c marshal metadata_probe m w.now w.at_record v)
  probe_upsert-IsServing m w is_discovery (replied false) v =
      metadata_failed-IsServing c marshal m w.now w.at_publish _ _ v
  probe_upsert-IsServing m w is_discovery (replied true) v =
      probe_profile-IsServing m w is_discovery w.profile v

  probe_once-IsServing :
      (m : Controller) (w : ProbeWorld) (is_discovery : Bool)
      → IsServing c marshal m
      → IsServing c marshal (probe_once c marshal t m w is_discovery).0
  unfolding probe_once
  probe_once-IsServing m w is_discovery v =
      let v' = allow_probe-IsServing c marshal metadata_probe m w.now w.at_allow v in
      elim (Result-cases w.context) [
        | inr (u, k) ↦ rw k v
        | inl (u, k) ↦ elim (Bool-cases (allow_probe metadata_probe m w.now w.at_allow).1) [
          | inl q ↦ rw (k, q) (probe_upsert-IsServing _ w is_discovery w.disable_upsert v')
          | inr q ↦ rw (k, q) (metadata_failed-IsServing c marshal _ w.now w.at_publish _ _ v')
        ]
      ]

  deep_probe_reply-IsServing :
      (m : Controller) (w : DeepWorld) (a : KeySnapshot) (r : Reply ProbeResult)
      → IsServing c marshal m
      → IsServing c marshal (deep_probe_reply m w a r).0
  unfolding deep_probe_reply store_step
  deep_probe_reply-IsServing m w a (failed u) v =
      deep_failed-IsServing c marshal _ _ _
        (record_probe_failure-IsServing c marshal deep_probe m w.now w.at_record v)
  deep_probe_reply-IsServing m w a (replied r) v =
      let invalid =
        deep_failed-IsServing c marshal _ HealthReason.deep_probe_invalid _
          (record_probe_failure-IsServing c marshal deep_probe m w.now w.at_record v) in
      elim (Bool-cases (leb max_ciphertext_bytes r.ciphertext_length)) [
        | inl q ↦ rw q invalid
        | inr q ↦
            elim (Bool-cases
              (not (is_zero_int r.key_version) && not (eq_int r.key_version a.transit_version))) [
                | inl k ↦ rw (q, k) invalid
                | inr k ↦
                    rw (q, k)
                      (record_probe_success-IsServing c marshal deep_probe _ w.at_record
                        (step-StoreInv c marshal m.store deep_succeeds v))
              ]
      ]

  deep_probe_once-IsServing :
      (m : Controller) (w : DeepWorld)
      → IsServing c marshal m
      → IsServing c marshal (deep_probe_once m w).0
  unfolding deep_probe_once
  deep_probe_once-IsServing m w v =
      let v' = allow_probe-IsServing c marshal deep_probe m w.now w.at_allow v in
      let allowed = allow_probe deep_probe m w.now w.at_allow in
      elim (Result-cases w.context) [
        | inr (u, k) ↦ rw k v
        | inl (u, k) ↦ elim (Bool-cases allowed.1) [
          | inr q ↦ rw (k, q) (deep_failed-IsServing c marshal _ _ _ v')
          | inl q ↦ elim (Result-cases (active_for_deep_probe allowed.0.store)) [
            | inr (x, p) ↦ rw (k, q, p) v'
            | inl (a, p) ↦
                rw (k, q, p)
                  (deep_probe_reply-IsServing allowed.0 w a (w.round_trip a.transit_version) v')
          ]
        ]
      ]

  prepare_unknown-IsServing :
      (m : Controller) (key_id : Text) (now : Reading) (o : Option Loaded)
      → IsServing c marshal m
      → IsServing c marshal (prepare_unknown t m key_id now o).0
  unfolding prepare_unknown
  prepare_unknown-IsServing m key_id now none v = v
  prepare_unknown-IsServing m key_id now (some l) v = elim (Bool-cases (has_record key_id l)) [
    | inl q ↦ rw q v
    | inr q ↦ elim (Bool-cases (pending m.next_refresh now)) [
      | inl k ↦ rw (q, k) v
      | inr k ↦ rw (q, k) v
    ]
  ]

  refresh_prepared-IsServing :
      (key_id : Text) (w : ProbeWorld) (m : Controller) (p : Prepared)
      → IsServing c marshal m
      → IsServing c marshal (refresh_prepared c marshal t key_id w (m, p)).0
  unfolding refresh_prepared refresh_attempt
  refresh_prepared-IsServing key_id w m starts v = probe_once-IsServing m w true v
  refresh_prepared-IsServing key_id w m (answers u) v = v

  refresh_for_decrypt-IsServing :
      (m : Controller) (key_id : Text) (now : Reading) (w : ProbeWorld)
      → IsServing c marshal m
      → IsServing c marshal (refresh_for_decrypt c marshal t m key_id now w).0
  unfolding refresh_for_decrypt prepare_decrypt_refresh
  refresh_for_decrypt-IsServing m key_id now w v = elim (Result-cases (parse_key_id c key_id)) [
    | inr (u, k) ↦ rw k v
    | inl (u, k) ↦ elim (Bool-cases (is_ok (store_lookup c m.store key_id))) [
      | inl q ↦ rw (k, q) (refresh_prepared-IsServing key_id w m (answers none) v)
      | inr q ↦
          rw (k, q)
            (refresh_prepared-IsServing key_id w (prepare_unknown t m key_id now m.store.loaded).0
              (prepare_unknown t m key_id now m.store.loaded).1
              (prepare_unknown-IsServing m key_id now m.store.loaded v))
    ]
  ]

  controller_run-IsServing :
      (m : Controller) (xs : List ControllerEvent)
      → IsServing c marshal m
      → IsServing c marshal (controller_run c marshal t m xs)
  unfolding controller_run controller_step
  controller_run-IsServing m [] v = v
  controller_run-IsServing m (probes w ∷ xs) v =
      controller_run-IsServing (probe_once c marshal t m w false).0 xs
        (probe_once-IsServing m w false v)
  controller_run-IsServing m (probes_deep w ∷ xs) v =
      controller_run-IsServing (deep_probe_once m w).0 xs (deep_probe_once-IsServing m w v)
  controller_run-IsServing m (refreshes key_id now w ∷ xs) v =
      controller_run-IsServing (refresh_for_decrypt c marshal t m key_id now w).0 xs
        (refresh_for_decrypt-IsServing m key_id now w v)

  load_store-StoreInv :
      (s st : Store) (r : Result StateFile)
      → StoreInv c marshal s
      → load_store c marshal t s r ≡ ok st
      → StoreInv c marshal st
  unfolding load_store
  load_store-StoreInv s st (err e) v h = elim (Bool-cases (error_is e err_state_not_found)) [
    | inl q ↦ subst (StoreInv c marshal) (ground (arith, rw (q, load_store) at h)) v
    | inr q ↦ absurd (ground (arith, rw (q, load_store) at h))
  ]
  load_store-StoreInv s st (ok state) v h =
      let (_, _, h1) = >>=-eq-ok (validate_state_scope c t.observer state) _ h in
      load-StoreInv c marshal s st state v h1

  start_controller-IsServing :
      (s : Store) (b : BreakerOptions) (r : Reading) (d : Disk) (l : Result StateFile)
      (m : Controller)
      → StoreInv c marshal s
      → start_controller c marshal t s b r (d, l) ≡ ok m
      → IsServing c marshal m
  unfolding start_controller publish_breakers store_step
  start_controller-IsServing s b r d l m v h =
      let v' = step-StoreInv c marshal s (updates_breaker _) v in
      let (st, p, h1) =
        >>=-eq-ok (load_store c marshal t (publish_breakers (controller_over s d b) r).store l) _
          h in
      subst (StoreInv c marshal) (ground (arith, h1)) (load_store-StoreInv _ st l v' p)

  -- A controller starts with an empty store, on any files. However it is asked then, its store
  -- answers "ok" only as a store under its invariant does.
  pub controller_run-Serves :
      CryptoLaws c
      → (max_staleness : ℕ) (d : Disk) (b : BreakerOptions) (r : Reading) (o : WriteOutcome)
        (m : Controller) (xs : List ControllerEvent) (now : Reading) (status : CachedStatus)
      → new_controller c marshal t (empty_store max_staleness) d b r o ≡ ok m
      → (current (controller_run c marshal t m xs).store now).1 ≡ some status
      → status.healthz ≡ health_ok
      → Serves c marshal (controller_run c marshal t m xs).store now status
  unfolding new_controller
  controller_run-Serves laws max_staleness d b r o m xs now status h k healthy =
      let started =
        start_controller-IsServing (empty_store max_staleness) b r (load c marshal t.path d o).0
          (load c marshal t.path d o).1 m (empty-StoreInv c marshal max_staleness) h in
      current-Serves c marshal laws (controller_run c marshal t m xs).store now status
        (controller_run-IsServing m xs started) k healthy
