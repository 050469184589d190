-- ===== src/Status/Controller/Backed.antt =====
-- The checks of internal/status/controller.go that its store relies on, against the history of a run.
use openbao_kubernetes_kms.Base.{
  ℕ, ◌≡◌, ◌⊎◌, refl, ap, sym, subst, ◌∙◌, inl, inr, Bool, true, false, leb, not, ◌&&◌, Option, none,
  some, List, [], ◌∷◌, arith, Text, eq_int, pos_part, Result, ok, err, Error, Result-cases,
  Bool-cases, if_err, >>=-eq-ok, error_is, err_state_not_found,
}
use openbao_kubernetes_kms.Crypto.{Crypto}
use openbao_kubernetes_kms.Clock.{Reading, after, pending}
use openbao_kubernetes_kms.KeyRegistry.Snapshot.{KeySnapshot, parse_key_id}
use openbao_kubernetes_kms.KeyRegistry.Records.{StateRecord, is_zero_int}
use openbao_kubernetes_kms.KeyRegistry.State.{StateFile, HashBody}
use openbao_kubernetes_kms.KeyRegistry.Files.{WriteOutcome}
use openbao_kubernetes_kms.Kms.Limits.{max_ciphertext_bytes}
use openbao_kubernetes_kms.OpenBao.Errors.{Cause}
use openbao_kubernetes_kms.OpenBao.Profile.{KeyProfile}
use openbao_kubernetes_kms.Status.Breaker.{BreakerOptions}
use openbao_kubernetes_kms.Status.StateStore.{Disk, load}
use openbao_kubernetes_kms.Status.Store.{
  HealthReason, Loaded, Store, empty_store, active_of, active_for_deep_probe, store_lookup,
  load_state, runtime_registry, active_changed, publish_deep_healthy, publish_deep_unhealthy,
  update_health, update_circuit_breaker,
}
use openbao_kubernetes_kms.Status.Controller.{
  ActivationWait, no_wait, stable_candidate, deep_probe, ProbeError, Settings, Controller,
  publish_breakers, allow_probe, record_probe_failure, record_probe_success,
}
use openbao_kubernetes_kms.Status.Controller.Failures.{deep_failed}
use openbao_kubernetes_kms.Status.Controller.Persistence.{is_ok}
use openbao_kubernetes_kms.Status.Rotation.{validate_state_scope}
use openbao_kubernetes_kms.Status.Controller.Probes.{Reply, failed, replied, ProbeWorld, probe_once}
use openbao_kubernetes_kms.Status.Controller.Refresh.{
  ProbeResult, DeepWorld, Prepared, starts, answers, has_record, local_failure, deep_probe_reply,
  deep_probe_once, prepare_unknown, prepare_decrypt_refresh, refresh_attempt, refresh_prepared,
  refresh_for_decrypt, load_store, start_controller, new_controller, controller_over,
}
use openbao_kubernetes_kms.Status.Controller.Restart.{
  ControllerEvent, probes, probes_deep, refreshes, controller_step, controller_run,
}
use openbao_kubernetes_kms.Status.Controller.Evidence.{
  NextWait, kept, cleared, began, if_err-by_cases, IsChecked, DeepOf, DeepOk, probe_once-Shows,
}

-- What a controller did: a metadata probe, with what its store served after it, a deep probe with its result, or no probe.
pub data Logged : Type 0 where
  checks : ProbeWorld → Option Loaded → Logged
  probed : DeepWorld → Option ProbeError → Logged
  idle : Logged

-- The last metadata probe whose context lived passed, at the reading `r` of it.
abbrev pub MetadataPassed : List Logged → Reading → Type 0
MetadataPassed [] r = ⊥
MetadataPassed (checks w o ∷ h) r =
    ((e : Error) × (w.context ≡ err e) × MetadataPassed h r) ⊎ IsChecked w r
MetadataPassed (probed w e ∷ h) r = MetadataPassed h r
MetadataPassed (idle ∷ h) r = MetadataPassed h r

-- A round trip of a deep probe, under the version of a snapshot with the key_id, that gave a
-- ciphertext within the bounds, under that version if it tells one.
abbrev pub RoundTrip : DeepWorld → Text → Type 0
RoundTrip w key_id =
    (a : KeySnapshot) × (r : ProbeResult) × (a.kubernetes_key_id ≡ key_id)
    × (w.round_trip a.transit_version ≡ replied r)
    × (leb max_ciphertext_bytes r.ciphertext_length ≡ false)
    × ((is_zero_int r.key_version ≡ true) ⊎ (eq_int r.key_version a.transit_version ≡ true))

-- The last deep probe that came to a verdict passed, for the key_id; one that ends with a local
-- failure comes to none.
abbrev pub DeepPassed : List Logged → Text → Type 0
DeepPassed [] k = ⊥
DeepPassed (checks w o ∷ h) k = DeepPassed h k
DeepPassed (probed w e ∷ h) k =
    ((x : Error) × (e ≡ local_failure x) × DeepPassed h k) ⊎ RoundTrip w k
DeepPassed (idle ∷ h) k = DeepPassed h k

-- A metadata probe that began the wait: it published a state whose stable candidate is waited for.
abbrev pub Begins : Settings → ProbeWorld → Option Loaded → ActivationWait → Type 0
Begins t w o a =
    (p : KeyProfile) × (l : Loaded) × (k : StateRecord) × (w.profile ≡ replied p)
    × (o ≡ some l)
    × (stable_candidate t.observer l.state p ≡ some k)
    × (a ≡ record {
      key_id = k.kubernetes_key_id;
      deadline = after w.at_confirm (pos_part t.observer.policy.activation_delay);
    })

abbrev pub Began : Settings → List Logged → ActivationWait → Type 0
Began t [] a = ⊥
Began t (checks w o ∷ h) a = Began t h a ⊎ Begins t w o a
Began t (probed w e ∷ h) a = Began t h a
Began t (idle ∷ h) a = Began t h a

-- No wait, or one that a metadata probe of the history began.
abbrev pub IsBegun : Settings → List Logged → ActivationWait → Type 0
IsBegun t h a = (a ≡ no_wait) ⊎ Began t h a

-- What the store of a controller shows of the history of its probes.
pub record Backed (t : Settings) (h : List Logged) (m : Controller) : Type 0 where
  pub metadata : m.store.metadata_ok ≡ true → MetadataPassed h m.store.updated_at
  pub deep : DeepOk (DeepPassed h) m.store
  pub wait : IsBegun t h m.activation

module _ (t : Settings) where
  idle-Backed : (h : List Logged) (m : Controller) → Backed t h m → Backed t (idle ∷ h) m
  idle-Backed h m v = record {
    metadata = v.metadata;
    deep = deep_still m.store.loaded v.deep;
    wait = v.wait;
  }
    where
      deep_still :
          (o : Option Loaded)
          → (m.store.deep_probe_ok ≡ true → DeepOf (DeepPassed h) o)
          → m.store.deep_probe_ok ≡ true
          → DeepOf (DeepPassed (idle ∷ h)) o
      deep_still none d = d
      deep_still (some l) d = d

  active_for_deep_probe-loaded :
      (s : Store) (a : KeySnapshot)
      → active_for_deep_probe s ≡ ok a
      → (l : Loaded) × (s.loaded ≡ some l) × (l.active ≡ a)
  unfolding active_for_deep_probe
  active_for_deep_probe-loaded s a h = active_of_parts s.loaded s.encryption_is_blocked refl h
    where
      active_of_parts :
          (o : Option Loaded) (b : Bool)
          → s.loaded ≡ o
          → active_of o b ≡ ok a
          → (l : Loaded) × (s.loaded ≡ some l) × (l.active ≡ a)
      active_of_parts none b i h = absurd (cc)
      active_of_parts (some l) true i h = absurd (cc)
      active_of_parts (some l) false i h = (l, i, cc)

  deep_failed-Backed :
      (h : List Logged) (m n : Controller) (w : DeepWorld) (e : Option ProbeError)
      (reason : HealthReason) (cause : Cause)
      → m.store.metadata_ok ≡ n.store.metadata_ok
      → m.store.updated_at ≡ n.store.updated_at
      → m.activation ≡ n.activation
      → Backed t h m
      → Backed t (probed w e ∷ h) (deep_failed n reason cause).0
  unfolding deep_failed publish_deep_unhealthy update_health
  deep_failed-Backed h m n w e reason cause i k x v = record {
    metadata = λ q. subst (MetadataPassed h) k (v.metadata (i ∙ q));
    deep = λ q. absurd (cc);
    wait = subst (IsBegun t (probed w e ∷ h)) x v.wait;
  }

  still-Backed :
      (h : List Logged) (m : Controller) (w : DeepWorld) (x : Error)
      → Backed t h m
      → Backed t (probed w (local_failure x) ∷ h) m
  still-Backed h m w x v = record {
    metadata = v.metadata;
    deep = deep_still m.store.loaded v.deep;
    wait = v.wait;
  }
    where
      deep_still :
          (o : Option Loaded)
          → (m.store.deep_probe_ok ≡ true → DeepOf (DeepPassed h) o)
          → m.store.deep_probe_ok ≡ true
          → DeepOf (DeepPassed (probed w (local_failure x) ∷ h)) o
      deep_still none d = d
      deep_still (some l) d = λ q. inl (x, refl, d q)

  allow_probe-Backed :
      (h : List Logged) (m : Controller) (now r : Reading)
      → Backed t h m
      → Backed t h (allow_probe deep_probe m now r).0
  unfolding allow_probe publish_breakers update_circuit_breaker
  allow_probe-Backed h m now r v = record { metadata = v.metadata; deep = v.deep; wait = v.wait }

  version_told :
      (r : ProbeResult) (a : KeySnapshot)
      → (not (is_zero_int r.key_version) && not (eq_int r.key_version a.transit_version)) ≡ false
      → (is_zero_int r.key_version ≡ true) ⊎ (eq_int r.key_version a.transit_version ≡ true)
  version_told r a h = elim (Bool-cases (is_zero_int r.key_version)) [
    | inl q ↦ inl q
    | inr q ↦ inr (ground (arith, rw q at h))
  ]

  deep_succeeded-Backed :
      (h : List Logged) (m : Controller) (w : DeepWorld) (a : KeySnapshot) (r : ProbeResult)
      (e : Option ProbeError)
      → active_for_deep_probe m.store ≡ ok a
      → w.round_trip a.transit_version ≡ replied r
      → leb max_ciphertext_bytes r.ciphertext_length ≡ false
      → (not (is_zero_int r.key_version) && not (eq_int r.key_version a.transit_version)) ≡ false
      → Backed t h m
      → Backed t (probed w e ∷ h) (
          record_probe_success deep_probe
            (record m { store = publish_deep_healthy m.store })
            w.at_record)
  unfolding record_probe_success publish_breakers update_circuit_breaker publish_deep_healthy
      update_health
  deep_succeeded-Backed h m w a r e i q j k v =
      let (l, is_loaded, is_active) = active_for_deep_probe-loaded m.store a i in
      record {
        metadata = v.metadata;
        deep = λ _.
            subst (DeepOf (DeepPassed (probed w e ∷ h))) (sym is_loaded)
              (inr (a, r, ap (λ x. x.kubernetes_key_id) (sym is_active), q, j, version_told r a k));
        wait = v.wait;
      }

  deep_probe_reply-Backed :
      (h : List Logged) (m : Controller) (w : DeepWorld) (a : KeySnapshot) (r : Reply ProbeResult)
      → active_for_deep_probe m.store ≡ ok a
      → w.round_trip a.transit_version ≡ r
      → Backed t h m
      → Backed t (probed w (deep_probe_reply m w a r).1 ∷ h) (deep_probe_reply m w a r).0
  unfolding deep_probe_reply record_probe_failure publish_breakers update_circuit_breaker
  deep_probe_reply-Backed h m w a (failed u) i q v =
      deep_failed-Backed h m _ w _ _ _ refl refl refl v
  deep_probe_reply-Backed h m w a (replied r) i q v =
      elim (Bool-cases (leb max_ciphertext_bytes r.ciphertext_length)) [
        | inl j ↦ rw j (deep_failed-Backed h m _ w _ _ _ refl refl refl v)
        | inr j ↦
            elim (Bool-cases
              (not (is_zero_int r.key_version) && not (eq_int r.key_version a.transit_version))) [
                | inl k ↦ rw (j, k) (deep_failed-Backed h m _ w _ _ _ refl refl refl v)
                | inr k ↦ rw (j, k) (deep_succeeded-Backed h m w a r none i q j k v)
              ]
      ]

  deep_probe_once-Backed :
      (h : List Logged) (m : Controller) (w : DeepWorld)
      → Backed t h m
      → Backed t (probed w (deep_probe_once m w).1 ∷ h) (deep_probe_once m w).0
  unfolding deep_probe_once
  deep_probe_once-Backed h m w v =
      let v' = allow_probe-Backed h m w.now w.at_allow v in
      let allowed = allow_probe deep_probe m w.now w.at_allow in
      if_err-by_cases (λ (x : Controller × Option ProbeError). Backed t (probed w x.1 ∷ h) x.0)
        w.context _ _ (λ e _. still-Backed h m w e v)
        (λ _ _. elim (Bool-cases allowed.1) [
          | inr q ↦ rw q (deep_failed-Backed h allowed.0 allowed.0 w _ _ _ refl refl refl v')
          | inl q ↦ rw q (
              if_err-by_cases
                (λ (x : Controller × Option ProbeError). Backed t (probed w x.1 ∷ h) x.0)
                (active_for_deep_probe allowed.0.store) _ _ (λ e _. still-Backed h allowed.0 w e v')
                (λ a i.
                  deep_probe_reply-Backed h allowed.0 w a (w.round_trip a.transit_version) i refl
                    v'))
        ])

module _ (c : Crypto) (marshal : HashBody → Result Text) (t : Settings) where
  checks-DeepOk :
      (h : List Logged) (w : ProbeWorld) (o : Option Loaded) (m : Controller)
      → DeepOk (DeepPassed h) m.store
      → DeepOk (DeepPassed (checks w o ∷ h)) m.store
  checks-DeepOk h w o m d = still m.store.loaded d
    where
      still :
          (p : Option Loaded)
          → (m.store.deep_probe_ok ≡ true → DeepOf (DeepPassed h) p)
          → m.store.deep_probe_ok ≡ true
          → DeepOf (DeepPassed (checks w o ∷ h)) p
      still none d = d
      still (some l) d = d

  checks-IsBegun :
      (h : List Logged) (w : ProbeWorld) (o : Option Loaded) (a : ActivationWait)
      → IsBegun t h a
      → IsBegun t (checks w o ∷ h) a
  checks-IsBegun h w o a (inl e) = inl e
  checks-IsBegun h w o a (inr b) = inr (inl b)

  NextWait-IsBegun :
      (h : List Logged) (w : ProbeWorld) (a b : ActivationWait) (o : Option Loaded)
      → IsBegun t h a
      → NextWait t w a b o
      → IsBegun t (checks w o ∷ h) b
  NextWait-IsBegun h w a b o v (kept e) =
      subst (IsBegun t (checks w o ∷ h)) (sym e) (checks-IsBegun h w o a v)
  NextWait-IsBegun h w a b o v (cleared e) = inl e
  NextWait-IsBegun h w a b o v (began p l k i q u e) = inr (inr (p, l, k, i, q, u, e))

  probe_once_ended :
      (m : Controller) (w : ProbeWorld) (is_discovery : Bool) (e : Error)
      → w.context ≡ err e
      → (probe_once c marshal t m w is_discovery).0 ≡ m
  unfolding probe_once
  probe_once_ended m w is_discovery e k =
      if_err-by_cases (λ (x : Controller × Option ProbeError). x.0 ≡ m) w.context _ _ (λ _ _. refl)
        (λ x q. absurd (cc))

  probe_once-Backed :
      (h : List Logged) (m : Controller) (w : ProbeWorld) (is_discovery : Bool)
      → Backed t h m
      → Backed t
          (checks w (probe_once c marshal t m w is_discovery).0.store.loaded ∷ h)
          (probe_once c marshal t m w is_discovery).0
  probe_once-Backed h m w is_discovery v = elim (Result-cases w.context) [
    | inr (e, k) ↦
        subst (λ x. Backed t (checks w x.store.loaded ∷ h) x)
          (sym (probe_once_ended m w is_discovery e k))
          (record {
            metadata = λ q. inl (e, k, v.metadata q);
            deep = checks-DeepOk h w m.store.loaded m v.deep;
            wait = checks-IsBegun h w m.store.loaded m.activation v.wait;
          })
    | inl (_, k) ↦
        let shows =
          probe_once-Shows (DeepPassed h) c marshal t w m.activation m is_discovery refl k v.deep in
        record {
          metadata = λ q. inr (shows.checked q);
          deep =
              checks-DeepOk h w (probe_once c marshal t m w is_discovery).0.store.loaded
                (probe_once c marshal t m w is_discovery).0 shows.deep;
          wait =
              NextWait-IsBegun h w m.activation
                (probe_once c marshal t m w is_discovery).0.activation
                (probe_once c marshal t m w is_discovery).0.store.loaded v.wait shows.wait;
        }
  ]

  abbrev prepared_log : ProbeWorld → Option Loaded → Prepared → Logged
  prepared_log w o starts = checks w o
  prepared_log w o (answers e) = idle

  -- What the controller does at an event.
  abbrev logged : Controller → ControllerEvent → Logged
  logged m (probes w) = checks w (probe_once c marshal t m w false).0.store.loaded
  logged m (probes_deep w) = probed w (deep_probe_once m w).1
  logged m (refreshes key_id now w) =
      if_err (parse_key_id c key_id) (λ _. idle)
        (λ _.
          let p = prepare_decrypt_refresh c t m key_id now in
          prepared_log w (refresh_prepared c marshal t key_id w p).0.store.loaded p.1)

  -- What the controller does in a run, the latest first.
  abbrev pub controller_log : Controller → List ControllerEvent → List Logged → List Logged
  controller_log m [] h = h
  controller_log m (x ∷ xs) h = controller_log (controller_step c marshal t m x) xs (logged m x ∷ h)

  refresh_prepared-Backed :
      (h : List Logged) (key_id : Text) (w : ProbeWorld) (m : Controller) (p : Prepared)
      → Backed t h m
      → Backed t
          (prepared_log w (refresh_prepared c marshal t key_id w (m, p)).0.store.loaded p ∷ h)
          (refresh_prepared c marshal t key_id w (m, p)).0
  unfolding refresh_prepared refresh_attempt
  refresh_prepared-Backed h key_id w m starts v =
      let v' = probe_once-Backed h m w true v in
      record { metadata = v'.metadata; deep = v'.deep; wait = v'.wait }
  refresh_prepared-Backed h key_id w m (answers u) v = idle-Backed t h m v

  prepare_unknown-Backed :
      (h : List Logged) (m : Controller) (key_id : Text) (now : Reading) (o : Option Loaded)
      → Backed t h m
      → Backed t h (prepare_unknown t m key_id now o).0
  unfolding prepare_unknown
  prepare_unknown-Backed h m key_id now none v = v
  prepare_unknown-Backed h m key_id now (some l) v = elim (Bool-cases (has_record key_id l)) [
    | inl q ↦ rw q v
    | inr q ↦ elim (Bool-cases (pending m.next_refresh now)) [
      | inl k ↦ rw (q, k) v
      | inr k ↦ rw (q, k) (record { metadata = v.metadata; deep = v.deep; wait = v.wait })
    ]
  ]

  prepare_decrypt_refresh-Backed :
      (h : List Logged) (m : Controller) (key_id : Text) (now : Reading)
      → Backed t h m
      → Backed t h (prepare_decrypt_refresh c t m key_id now).0
  unfolding prepare_decrypt_refresh
  prepare_decrypt_refresh-Backed h m key_id now v =
      elim (Bool-cases (is_ok (store_lookup c m.store key_id))) [
        | inl q ↦ rw q v
        | inr q ↦ rw q (prepare_unknown-Backed h m key_id now m.store.loaded v)
      ]

  step-Backed :
      (h : List Logged) (m : Controller) (x : ControllerEvent)
      → Backed t h m
      → Backed t (logged m x ∷ h) (controller_step c marshal t m x)
  unfolding controller_step refresh_for_decrypt
  step-Backed h m (probes w) v = probe_once-Backed h m w false v
  step-Backed h m (probes_deep w) v = deep_probe_once-Backed t h m w v
  step-Backed h m (refreshes key_id now w) v =
      by_refresh (parse_key_id c key_id) (prepare_decrypt_refresh c t m key_id now)
        (prepare_decrypt_refresh-Backed h m key_id now v)
    where
      by_refresh :
          (r : Result Text) (p : Controller × Prepared)
          → Backed t h p.0
          → Backed t
              (if_err r
                  (λ _. idle)
                  (λ _. prepared_log w (refresh_prepared c marshal t key_id w p).0.store.loaded p.1)
                ∷ h)
              (if_err r
                (λ e. (m, local_failure e))
                (λ _. refresh_prepared c marshal t key_id w p)).0
      by_refresh (err e) p u = idle-Backed t h m v
      by_refresh (ok x) (n, p) u = refresh_prepared-Backed h key_id w n p u

  run-Backed :
      (h : List Logged) (m : Controller) (xs : List ControllerEvent)
      → Backed t h m
      → Backed t (controller_log m xs h) (controller_run c marshal t m xs)
  unfolding controller_run
  run-Backed h m [] v = v
  run-Backed h m (x ∷ xs) v =
      run-Backed (logged m x ∷ h) (controller_step c marshal t m x) xs (step-Backed h m x v)

  load_store-unchecked :
      (s st : Store) (r : Result StateFile)
      → load_store c marshal t s r ≡ ok st
      → (st.metadata_ok ≡ s.metadata_ok) × (st.deep_probe_ok ≡ s.deep_probe_ok)
  unfolding load_store load_state update_health active_changed
  load_store-unchecked s st (err e) h = elim (Bool-cases (error_is e err_state_not_found)) [
    | inl q ↦
        let same : s ≡ st = ground (arith, rw (q, load_store) at h) in
        (ap (λ x. x.metadata_ok) (sym same), ap (λ x. x.deep_probe_ok) (sym same))
    | inr q ↦ absurd (ground (arith, rw (q, load_store) at h))
  ]
  load_store-unchecked s st (ok state) h =
      let (_, _, h1) = >>=-eq-ok (validate_state_scope c t.observer state) _ h in
      let (l, _, h2) = >>=-eq-ok (runtime_registry c marshal state) _ h1 in
      (ground (arith, h2), ground (arith, h2))

  start_controller-Backed :
      (s : Store) (b : BreakerOptions) (r : Reading) (d : Disk) (l : Result StateFile)
      (m : Controller)
      → s.metadata_ok ≡ false
      → s.deep_probe_ok ≡ false
      → start_controller c marshal t s b r (d, l) ≡ ok m
      → Backed t [] m
  unfolding start_controller publish_breakers update_circuit_breaker
  start_controller-Backed s b r d l m i k h =
      let (st, p, h1) =
        >>=-eq-ok (load_store c marshal t (publish_breakers (controller_over s d b) r).store l) _
          h in
      let (e, u) = load_store-unchecked _ st l p in
      let same : st ≡ m.store = ground (arith, h1) in
      let no_metadata : m.store.metadata_ok ≡ false = ap (λ x. x.metadata_ok) (sym same) ∙ e ∙ i in
      let no_deep : m.store.deep_probe_ok ≡ false = ap (λ x. x.deep_probe_ok) (sym same) ∙ u ∙ k in
      record {
        metadata = λ q. absurd (cc);
        deep = λ q. absurd (cc);
        wait = inl (ground (arith, h1));
      }

  pub new_controller-Backed :
      (max_staleness : ℕ) (d : Disk) (b : BreakerOptions) (r : Reading) (o : WriteOutcome)
      (m : Controller) (xs : List ControllerEvent)
      → new_controller c marshal t (empty_store max_staleness) d b r o ≡ ok m
      → Backed t (controller_log m xs []) (controller_run c marshal t m xs)
  unfolding new_controller
  new_controller-Backed max_staleness d b r o m xs h = run-Backed [] m xs (
      start_controller-Backed (empty_store max_staleness) b r (load c marshal t.path d o).0
        (load c marshal t.path d o).1 m refl refl h)
