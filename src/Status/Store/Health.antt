-- ===== src/Status/Store/Health.antt =====
-- The store of internal/status/store.go over any sequence of its methods.
use openbao_kubernetes_kms.Base.{
  ℕ, ◌≡◌, refl, ap, subst, inl, inr, Bool, true, false, not, ◌&&◌, Option, none, some, List, [],
  ◌∷◌, if◌then◌else◌, arith, Text, text_eq, Result, ok, err, >>=-eq-ok, Result-cases, Bool-cases,
}
use openbao_kubernetes_kms.Crypto.{Crypto}
use openbao_kubernetes_kms.Clock.{is_zero, Reading, age, remaining}
use openbao_kubernetes_kms.KeyRegistry.State.{
  StateFile, HashBody, validate_state, state_active, state_registry,
}
use openbao_kubernetes_kms.Status.Breaker.{BreakerSnapshot}
use openbao_kubernetes_kms.Kms.Server.{health_ok, health_unhealthy}
use openbao_kubernetes_kms.Status.Store.{
  ProbeFailure, Loaded, Store, empty_store, update_health, refresh, publish_metadata_unhealthy,
  publish_deferred, publish_deep_healthy, publish_deep_unhealthy, stale, current, current_of,
  update_circuit_breaker, runtime_registry, load_state, publish_healthy, active_changed,
  with_metadata, with_success, with_metadata_failure, publish_metadata, read_unless_set,
  normalized_health,
}

-- The calls of the store that change it.
pub data StoreEvent : Type 0 where
  loads : StateFile → StoreEvent
  publishes_healthy : StateFile → Reading → Reading → StoreEvent
  publishes_metadata : StateFile → Reading → Bool → Reading → StoreEvent
  metadata_fails : Reading → ProbeFailure → Reading → StoreEvent
  defers : Text → Reading → StoreEvent
  deep_succeeds : StoreEvent
  deep_fails : ProbeFailure → StoreEvent
  reads : Reading → StoreEvent
  updates_breaker : BreakerSnapshot → StoreEvent

-- A call that fails leaves the store as it was.
abbrev pub or_same : Store → Result Store → Store
or_same s (ok t) = t
or_same s (err _) = s

module _ (c : Crypto) (marshal : HashBody → Result Text) where
  unfoldable pub store_step : Store → StoreEvent → Store
  store_step s (loads state) = or_same s (load_state c marshal s state)
  store_step s (publishes_healthy state at now) =
      or_same s (publish_healthy c marshal s state at now)
  store_step s (publishes_metadata state at blocked now) =
      or_same s (publish_metadata c marshal s state at blocked now)
  store_step s (metadata_fails at failure now) = publish_metadata_unhealthy s at failure now
  store_step s (defers hash at) = (publish_deferred s hash at).0
  store_step s deep_succeeds = publish_deep_healthy s
  store_step s (deep_fails failure) = publish_deep_unhealthy s failure
  store_step s (reads now) = (current s now).0
  store_step s (updates_breaker b) = update_circuit_breaker s b

  unfoldable pub store_run : Store → List StoreEvent → Store
  store_run s [] = s
  store_run s (e ∷ es) = store_run (store_step s e) es

  abbrev pub LoadedValid : Option Loaded → Type 0
  LoadedValid none = Unit {0}
  LoadedValid (some l) = runtime_registry c marshal l.state ≡ ok l

  pub record StoreInv (s : Store) : Type 0 where
    -- The health is the conjunction of the two checks, and nothing else.
    pub health :
        s.healthz ≡ (if s.metadata_ok && s.deep_probe_ok then health_ok else health_unhealthy)
    -- A key that may not encrypt is not healthy.
    pub blocked : s.encryption_is_blocked ≡ true → s.metadata_ok ≡ false
    pub probed : s.deep_probe_ok ≡ true → s.deep_probed ≡ true
    -- What is served comes from a state that was validated as a whole.
    pub loaded_valid : LoadedValid s.loaded
    -- The freshness starts at the time of update that the store shows.
    pub fresh_started : is_zero s.updated_at.wall ≡ false → s.freshness.started ≡ true
    pub fresh_start : is_zero s.updated_at.wall ≡ false → s.freshness.start ≡ s.updated_at
    pub fresh_limit : is_zero s.updated_at.wall ≡ false → s.freshness.limit ≡ s.max_staleness

  runtime_registry_valid :
      (state : StateFile) (l : Loaded)
      → runtime_registry c marshal state ≡ ok l
      → runtime_registry c marshal l.state ≡ ok l
  unfolding runtime_registry
  runtime_registry_valid state l h =
      let (_, _, h1) = >>=-eq-ok (validate_state c marshal state) _ h in
      let (a, _, h2) = >>=-eq-ok (state_active c state) _ h1 in
      let (reg, _, h3) = >>=-eq-ok (state_registry c state) _ h2 in
      let same : state ≡ l.state = ground (arith, h3) in
      subst (λ y. runtime_registry c marshal y ≡ ok l) same h

  -- A publication: the health is computed and the freshness starts.
  published-StoreInv :
      (s : Store) (at : Reading)
      → (s.encryption_is_blocked ≡ true → s.metadata_ok ≡ false)
      → (s.deep_probe_ok ≡ true → s.deep_probed ≡ true)
      → LoadedValid s.loaded
      → StoreInv (refresh at (update_health s))
  unfolding refresh update_health
  published-StoreInv s at b p l = record {
    health = refl;
    blocked = b;
    probed = p;
    loaded_valid = l;
    fresh_started = λ _. refl;
    fresh_start = λ _. refl;
    fresh_limit = λ _. refl;
  }

  pub empty-StoreInv : (m : ℕ) → StoreInv (empty_store m)
  empty-StoreInv m = ground arith

  pub load-StoreInv :
      (s t : Store) (state : StateFile)
      → StoreInv s
      → load_state c marshal s state ≡ ok t
      → StoreInv t
  unfolding load_state
  load-StoreInv s t state v h =
      let (l, p, h1) = >>=-eq-ok (runtime_registry c marshal state) _ h in
      let valid = runtime_registry_valid state l p in ground (arith, h1, valid)

  publish_healthy-StoreInv :
      (s t : Store) (state : StateFile) (at now : Reading)
      → publish_healthy c marshal s state at now ≡ ok t
      → StoreInv t
  unfolding publish_healthy with_success
  publish_healthy-StoreInv s t state at now h =
      let (l, p, h1) = >>=-eq-ok (runtime_registry c marshal state) _ h in
      let valid = runtime_registry_valid state l p in
      let m = with_success s l in
      let same : refresh (read_unless_set at now) (update_health m) ≡ t = ground (arith, h1) in
      subst StoreInv same
        (published-StoreInv m (read_unless_set at now) (λ e. cc) (λ _. refl) valid)

  with_metadata_probed :
      (s : Store) (l : Loaded) (changed : Bool)
      → StoreInv s
      → (if changed then false else s.deep_probe_ok) ≡ true
      → (if changed then false else s.deep_probed) ≡ true
  with_metadata_probed s l true v h = cc
  with_metadata_probed s l false v h = v.probed h

  pub publish_metadata-StoreInv :
      (s t : Store) (state : StateFile) (at : Reading) (blocked : Bool) (now : Reading)
      → StoreInv s
      → publish_metadata c marshal s state at blocked now ≡ ok t
      → StoreInv t
  unfolding publish_metadata with_metadata
  publish_metadata-StoreInv s t state at blocked now v h =
      let (l, p, h1) = >>=-eq-ok (runtime_registry c marshal state) _ h in
      let valid = runtime_registry_valid state l p in
      let m = with_metadata s l blocked in
      let same : refresh (read_unless_set at now) (update_health m) ≡ t = ground (arith, h1) in
      subst StoreInv same (
        published-StoreInv m (read_unless_set at now) (λ e. ap not e)
          (with_metadata_probed s l (active_changed s.loaded l) v) valid)

  stale-StoreInv : (s : Store) (now : Reading) → StoreInv s → StoreInv (stale s now).0
  unfolding stale remaining age
  stale-StoreInv s now v = ground arith

  current_of-StoreInv :
      (o : Option Loaded) (s : Store) (now : Reading) → StoreInv s → StoreInv (current_of o s now).0
  unfolding current_of
  current_of-StoreInv none s now v = v
  current_of-StoreInv (some l) s now v =
      elim (Bool-cases (text_eq (normalized_health s.healthz) health_ok)) [
        | inl q ↦ rw q (stale-StoreInv s now v)
        | inr q ↦ rw q v
      ]

  pub step-StoreInv : (s : Store) (e : StoreEvent) → StoreInv s → StoreInv (store_step s e)
  unfolding store_step
  step-StoreInv s (loads state) v = elim (Result-cases (load_state c marshal s state)) [
    | inr (w, e) ↦ rw e v
    | inl (t, e) ↦ rw e (load-StoreInv s t state v e)
  ]
  step-StoreInv s (publishes_healthy state at now) v =
      elim (Result-cases (publish_healthy c marshal s state at now)) [
        | inr (w, e) ↦ rw e v
        | inl (t, e) ↦ rw e (publish_healthy-StoreInv s t state at now e)
      ]
  step-StoreInv s (publishes_metadata state at blocked now) v =
      elim (Result-cases (publish_metadata c marshal s state at blocked now)) [
        | inr (w, e) ↦ rw e v
        | inl (t, e) ↦ rw e (publish_metadata-StoreInv s t state at blocked now v e)
      ]
  step-StoreInv s (metadata_fails at failure now) v =
      unfold publish_metadata_unhealthy with_metadata_failure in
      published-StoreInv (with_metadata_failure s failure) (read_unless_set at now) (λ _. refl)
        v.probed v.loaded_valid
  step-StoreInv s (defers hash at) v = unfold publish_deferred in ground arith
  step-StoreInv s deep_succeeds v = unfold publish_deep_healthy in ground arith
  step-StoreInv s (deep_fails failure) v = unfold publish_deep_unhealthy in ground arith
  step-StoreInv s (updates_breaker b) v = unfold update_circuit_breaker in ground arith
  step-StoreInv s (reads now) v = unfold current in current_of-StoreInv s.loaded s now v

  pub run-StoreInv : (s : Store) (es : List StoreEvent) → StoreInv s → StoreInv (store_run s es)
  unfolding store_run
  run-StoreInv s [] v = v
  run-StoreInv s (e ∷ es) v = run-StoreInv (store_step s e) es (step-StoreInv s e v)

  -- Whatever calls were made, in whatever order and with whatever outcome, a store that was made
  -- empty keeps the invariant.
  pub store_run-StoreInv :
      (max_staleness : ℕ) (es : List StoreEvent)
      → StoreInv (store_run (empty_store max_staleness) es)
  store_run-StoreInv m es = run-StoreInv (empty_store m) es (empty-StoreInv m)
