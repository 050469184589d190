-- ===== src/Status/Controller/Restart.antt =====
-- A restart of the provider after any probes of internal/status/controller.go.
use openbao_kubernetes_kms.Base.{
  ◌≡◌, sym, ap, ◌∙◌, subst, inl, inr, true, false, leb, not, ◌&&◌, Option, none, some, List, [],
  ◌∷◌, arith, Text, eq_int, Result, ok, Result-cases, Bool-cases, >>=-eq-ok,
}
use openbao_kubernetes_kms.Crypto.{Crypto}
use openbao_kubernetes_kms.Clock.{Reading, pending}
use openbao_kubernetes_kms.KeyRegistry.Snapshot.{KeySnapshot, is_empty, parse_key_id}
use openbao_kubernetes_kms.KeyRegistry.Records.{is_zero_int}
use openbao_kubernetes_kms.KeyRegistry.State.{
  StateFile, HashBody, validate_state, state_active, state_registry,
}
use openbao_kubernetes_kms.KeyRegistry.State.Next.{Descends, same, next}
use openbao_kubernetes_kms.KeyRegistry.Files.{WriteOutcome, completes}
use openbao_kubernetes_kms.Kms.Limits.{max_ciphertext_bytes}
use openbao_kubernetes_kms.Status.Breaker.{BreakerOptions}
use openbao_kubernetes_kms.Status.StateStore.{load}
use openbao_kubernetes_kms.Status.StateStore.Crash.{
  disk_of, progress_valid, load-disk_of, load-between,
}
use openbao_kubernetes_kms.Status.Store.{
  HealthReason, Loaded, Store, update_health, publish_deep_healthy, active_for_deep_probe,
  update_circuit_breaker,
}
use openbao_kubernetes_kms.Status.Controller.{
  deep_probe, Settings, Controller, publish_breakers, record_probe_success, allow_probe,
}
use openbao_kubernetes_kms.Status.Controller.Probes.{Reply, failed, replied, ProbeWorld, probe_once}
use openbao_kubernetes_kms.Status.Controller.Refresh.{
  ProbeResult, DeepWorld, Prepared, starts, answers, has_record, deep_probe_reply, deep_probe_once,
  prepare_unknown, prepare_decrypt_refresh, refresh_attempt, refresh_prepared, refresh_for_decrypt,
  controller_over, load_store, start_controller, new_controller,
}
use openbao_kubernetes_kms.Status.Controller.Persistence.{is_ok}
use openbao_kubernetes_kms.Status.Store.{store_lookup, load_state, runtime_registry}
use openbao_kubernetes_kms.Status.Rotation.{validate_state_scope}
use openbao_kubernetes_kms.Status.Controller.Durable.{
  before, amid, done, settled, in_flight, IsDurable,
}
use openbao_kubernetes_kms.Status.Controller.Probed.{
  probe_once-Durable, deep_failed-Durable, record_probe_failure-Durable, allow_probe-Durable,
}

-- What the scheduler and the KMS handlers ask of the controller, one at a time.
pub data ControllerEvent : Type 0 where
  probes : ProbeWorld → ControllerEvent
  probes_deep : DeepWorld → ControllerEvent
  refreshes : Text → Reading → ProbeWorld → ControllerEvent

module _ (c : Crypto) (marshal : HashBody → Result Text) (t : Settings) where
  unfoldable pub controller_step : Controller → ControllerEvent → Controller
  controller_step m (probes w) = (probe_once c marshal t m w false).0
  controller_step m (probes_deep w) = (deep_probe_once m w).0
  controller_step m (refreshes key_id now w) = (refresh_for_decrypt c marshal t m key_id now w).0

  unfoldable pub controller_run : Controller → List ControllerEvent → Controller
  unfolding controller_step
  controller_run m [] = m
  controller_run m (x ∷ xs) = controller_run (controller_step m x) xs

  -- What a load finds after a restart: a state that descends from the published one, and both of
  -- its files.
  pub data Restarts (m : Controller) : Type 0 where
    restarts :
        (l : Loaded) (s : StateFile)
        → m.store.loaded ≡ some l
        → Descends c marshal l.state s
        → load c marshal t.path m.disk completes ≡ (disk_of s, ok s)
        → Restarts m

  module _ (e : is_empty t.path ≡ false) where
    deep_probe_reply-Durable :
        (m : Controller) (w : DeepWorld) (a : KeySnapshot) (r : Reply ProbeResult)
        → IsDurable c marshal m
        → IsDurable c marshal (deep_probe_reply m w a r).0
    unfolding deep_probe_reply record_probe_success publish_breakers update_circuit_breaker
        publish_deep_healthy update_health
    deep_probe_reply-Durable m w a (failed u) d =
        deep_failed-Durable c marshal t e _ _ _
          (record_probe_failure-Durable c marshal t e deep_probe m w.now w.at_record d)
    deep_probe_reply-Durable m w a (replied r) d =
        let invalid =
          deep_failed-Durable c marshal t e _ HealthReason.deep_probe_invalid _
            (record_probe_failure-Durable c marshal t e deep_probe m w.now w.at_record d) in
        elim (Bool-cases (leb max_ciphertext_bytes r.ciphertext_length)) [
          | inl q ↦ rw q invalid
          | inr q ↦
              elim (Bool-cases
                (not (is_zero_int r.key_version) && not (eq_int r.key_version a.transit_version))) [
                  | inl k ↦ rw (q, k) invalid
                  | inr k ↦ rw (q, k) d
                ]
        ]

    deep_probe_once-Durable :
        (m : Controller) (w : DeepWorld)
        → IsDurable c marshal m
        → IsDurable c marshal (deep_probe_once m w).0
    unfolding deep_probe_once
    deep_probe_once-Durable m w d =
        let d' = allow_probe-Durable c marshal t e deep_probe m w.now w.at_allow d in
        let allowed = allow_probe deep_probe m w.now w.at_allow in
        elim (Result-cases w.context) [
          | inr (u, k) ↦ rw k d
          | inl (u, k) ↦ elim (Bool-cases allowed.1) [
            | inr q ↦ rw (k, q) (deep_failed-Durable c marshal t e _ _ _ d')
            | inl q ↦ elim (Result-cases (active_for_deep_probe allowed.0.store)) [
              | inr (v, p) ↦ rw (k, q, p) d'
              | inl (a, p) ↦
                  rw (k, q, p)
                    (deep_probe_reply-Durable allowed.0 w a (w.round_trip a.transit_version) d')
            ]
          ]
        ]

    prepare_unknown-Durable :
        (m : Controller) (key_id : Text) (now : Reading) (o : Option Loaded)
        → IsDurable c marshal m
        → IsDurable c marshal (prepare_unknown t m key_id now o).0
    unfolding prepare_unknown
    prepare_unknown-Durable m key_id now none d = d
    prepare_unknown-Durable m key_id now (some l) d = elim (Bool-cases (has_record key_id l)) [
      | inl q ↦ rw q d
      | inr q ↦ elim (Bool-cases (pending m.next_refresh now)) [
        | inl k ↦ rw (q, k) d
        | inr k ↦ rw (q, k) d
      ]
    ]

    refresh_prepared-Durable :
        (key_id : Text) (w : ProbeWorld) (m : Controller) (p : Prepared)
        → IsDurable c marshal m
        → IsDurable c marshal (refresh_prepared c marshal t key_id w (m, p)).0
    unfolding refresh_prepared refresh_attempt
    refresh_prepared-Durable key_id w m starts d = probe_once-Durable c marshal t e m w true d
    refresh_prepared-Durable key_id w m (answers u) d = d

    refresh_for_decrypt-Durable :
        (m : Controller) (key_id : Text) (now : Reading) (w : ProbeWorld)
        → IsDurable c marshal m
        → IsDurable c marshal (refresh_for_decrypt c marshal t m key_id now w).0
    unfolding refresh_for_decrypt prepare_decrypt_refresh
    refresh_for_decrypt-Durable m key_id now w d = elim (Result-cases (parse_key_id c key_id)) [
      | inr (u, k) ↦ rw k d
      | inl (u, k) ↦ elim (Bool-cases (is_ok (store_lookup c m.store key_id))) [
        | inl q ↦ rw (k, q) (refresh_prepared-Durable key_id w m (answers none) d)
        | inr q ↦
            rw (k, q)
              (refresh_prepared-Durable key_id w (prepare_unknown t m key_id now m.store.loaded).0
                (prepare_unknown t m key_id now m.store.loaded).1
                (prepare_unknown-Durable m key_id now m.store.loaded d))
      ]
    ]

    -- Whatever the controller is asked, and however its writes end, its files stay durable.
    pub controller_run-Durable :
        (m : Controller) (xs : List ControllerEvent)
        → IsDurable c marshal m
        → IsDurable c marshal (controller_run m xs)
    unfolding controller_run controller_step
    controller_run-Durable m [] d = d
    controller_run-Durable m (probes w ∷ xs) d =
        controller_run-Durable (probe_once c marshal t m w false).0 xs
          (probe_once-Durable c marshal t e m w false d)
    controller_run-Durable m (probes_deep w ∷ xs) d =
        controller_run-Durable (deep_probe_once m w).0 xs (deep_probe_once-Durable m w d)
    controller_run-Durable m (refreshes key_id now w ∷ xs) d =
        controller_run-Durable (refresh_for_decrypt c marshal t m key_id now w).0 xs
          (refresh_for_decrypt-Durable m key_id now w d)

    Durable-Restarts : (m : Controller) → IsDurable c marshal m → Restarts m
    Durable-Restarts m (settled l _ q v d) =
        restarts l l.state q (same l.state)
          (rw d (load-disk_of c marshal t.path l.state completes e v))
    Durable-Restarts m (in_flight l p n _ q ds h f) =
        let (v, w) = progress_valid c marshal p n h.0 in
        elim f [
          | before d ↦ restarts l p q ds (rw d (load-disk_of c marshal t.path p completes e v))
          | amid d ↦
              restarts l n q (next l.state p n ds h)
                (rw d (load-between c marshal t.path p n e h.0 h.1))
          | done d ↦
              restarts l n q (next l.state p n ds h)
                (rw d (load-disk_of c marshal t.path n completes e w))
        ]

    load_state-loaded :
        (st st' : Store) (state : StateFile)
        → load_state c marshal st state ≡ ok st'
        → (l : Loaded) × (st'.loaded ≡ some l) × (l.state ≡ state)
    unfolding load_state runtime_registry
    load_state-loaded st st' state h =
        let (l, p, h1) = >>=-eq-ok (runtime_registry c marshal state) _ h in
        let (_, _, p1) = >>=-eq-ok (validate_state c marshal state) _ p in
        let (_, _, p2) = >>=-eq-ok (state_active c state) _ p1 in
        let (_, _, p3) = >>=-eq-ok (state_registry c state) _ p2 in
        (l, ground (arith, h1), ground (arith, p3))

    start_controller-Durable :
        (st : Store) (s : StateFile) (b : BreakerOptions) (r : Reading) (m : Controller)
        → validate_state c marshal s ≡ ok tt
        → start_controller c marshal t st b r (disk_of s, ok s) ≡ ok m
        → IsDurable c marshal m
    unfolding start_controller load_store publish_breakers
    start_controller-Durable st s b r m v h =
        let (st', p, h1) =
          >>=-eq-ok
            (load_store c marshal t (publish_breakers (controller_over st (disk_of s) b) r).store
              (ok s))
            _ h in
        let (_, _, p1) = >>=-eq-ok (validate_state_scope c t.observer s) _ p in
        let (l, is_loaded, is_state) = load_state-loaded _ st' s p1 in
        let same_disk : disk_of s ≡ m.disk = ground (arith, h1) in
        let same_store : st' ≡ m.store = ground (arith, h1) in
        settled l (ground (arith, h1)) (ap (λ x. x.loaded) (sym same_store) ∙ is_loaded)
          (subst (λ x. validate_state c marshal x ≡ ok tt) (sym is_state) v)
          (sym same_disk ∙ ap disk_of (sym is_state))

    -- A controller that starts on both files of a valid state has its files durable.
    pub new_controller-Durable :
        (st : Store) (s : StateFile) (b : BreakerOptions) (r : Reading) (o : WriteOutcome)
        (m : Controller)
        → validate_state c marshal s ≡ ok tt
        → new_controller c marshal t st (disk_of s) b r o ≡ ok m
        → IsDurable c marshal m
    unfolding new_controller
    new_controller-Durable st s b r o m v h = start_controller-Durable st s b r m v (
        subst (λ x. start_controller c marshal t st b r x ≡ ok m)
          (load-disk_of c marshal t.path s o e v) h)

    -- A controller starts on both files of a valid state. However it is asked then and its writes
    -- end, a restart loads, when the write of the load completes, a state that descends from the
    -- published one by steps of valid progress, and leaves both files of that state.
    pub controller_run-Restarts :
        (st : Store) (s : StateFile) (b : BreakerOptions) (r : Reading) (o : WriteOutcome)
        (m : Controller) (xs : List ControllerEvent)
        → validate_state c marshal s ≡ ok tt
        → new_controller c marshal t st (disk_of s) b r o ≡ ok m
        → Restarts (controller_run m xs)
    controller_run-Restarts st s b r o m xs v h =
        Durable-Restarts (controller_run m xs)
          (controller_run-Durable m xs (new_controller-Durable st s b r o m v h))
