-- ===== src/Status/Store/Gate.antt =====
-- A key that has just become active (internal/status/store.go) waits for its own deep probe.
use openbao_kubernetes_kms.Base.{
  ◌≡◌, refl, ◌∙◌, inl, inr, Bool, true, false, Option, none, some, List, [], ◌∷◌, All, arith, Text,
  Result, ok, >>=-eq-ok, Result-cases,
}
use openbao_kubernetes_kms.Crypto.{Crypto}
use openbao_kubernetes_kms.Clock.{Reading}
use openbao_kubernetes_kms.KeyRegistry.State.{StateFile, HashBody}
use openbao_kubernetes_kms.Kms.Server.{health_unhealthy}
use openbao_kubernetes_kms.Status.Store.{
  Loaded, Store, update_health, refresh, publish_metadata_unhealthy, publish_deferred,
  publish_deep_unhealthy, stale, current, current_of, update_circuit_breaker, runtime_registry,
  load_state, active_changed, with_metadata, publish_metadata,
}
use openbao_kubernetes_kms.Status.Store.Health.{
  StoreEvent, loads, publishes_healthy, publishes_metadata, metadata_fails, defers, deep_succeeds,
  deep_fails, reads, updates_breaker, store_step, store_run, StoreInv, run-StoreInv,
  publish_metadata-StoreInv,
}

-- The events that report a deep probe that passed.
abbrev pub passes : StoreEvent → Bool
passes deep_succeeds = true
passes (publishes_healthy _ _ _) = true
passes (loads _) = false
passes (publishes_metadata _ _ _ _) = false
passes (metadata_fails _ _ _) = false
passes (defers _ _) = false
passes (deep_fails _) = false
passes (reads _) = false
passes (updates_breaker _) = false

current_of-deep :
    (o : Option Loaded) (s : Store) (now : Reading)
    → (current_of o s now).0.deep_probe_ok ≡ s.deep_probe_ok
unfolding current_of stale
current_of-deep none s now = refl
current_of-deep (some l) s now = ground arith

module _ (c : Crypto) (marshal : HashBody → Result Text) where
  publish_metadata-deep :
      (s t : Store) (state : StateFile) (at : Reading) (blocked : Bool) (now : Reading)
      → publish_metadata c marshal s state at blocked now ≡ ok t
      → s.deep_probe_ok ≡ false
      → t.deep_probe_ok ≡ false
  unfolding publish_metadata with_metadata refresh update_health
  publish_metadata-deep s t state at blocked now h d =
      let (l, p, h1) = >>=-eq-ok (runtime_registry c marshal state) _ h in ground (arith, h1)

  load_state-deep :
      (s t : Store) (state : StateFile)
      → load_state c marshal s state ≡ ok t
      → t.deep_probe_ok ≡ s.deep_probe_ok
  unfolding load_state
  load_state-deep s t state h =
      let (l, p, h1) = >>=-eq-ok (runtime_registry c marshal state) _ h in ground (arith, h1)

  step-unprobed :
      (s : Store) (e : StoreEvent)
      → passes e ≡ false
      → s.deep_probe_ok ≡ false
      → (store_step c marshal s e).deep_probe_ok ≡ false
  unfolding store_step
  step-unprobed s (loads state) p d = elim (Result-cases (load_state c marshal s state)) [
    | inr (w, e) ↦ rw e d
    | inl (t, e) ↦ rw e (load_state-deep s t state e ∙ d)
  ]
  step-unprobed s (publishes_healthy state at now) p d = absurd (cc)
  step-unprobed s (publishes_metadata state at blocked now) p d =
      elim (Result-cases (publish_metadata c marshal s state at blocked now)) [
        | inr (w, e) ↦ rw e d
        | inl (t, e) ↦ rw e (publish_metadata-deep s t state at blocked now e d)
      ]
  step-unprobed s (metadata_fails at failure now) p d = unfold publish_metadata_unhealthy in d
  step-unprobed s (defers hash at) p d = unfold publish_deferred in ground arith
  step-unprobed s deep_succeeds p d = absurd (cc)
  step-unprobed s (deep_fails failure) p d = unfold publish_deep_unhealthy in refl
  step-unprobed s (reads now) p d = unfold current in current_of-deep s.loaded s now ∙ d
  step-unprobed s (updates_breaker b) p d = unfold update_circuit_breaker in d

  run-unprobed :
      (s : Store) (es : List StoreEvent)
      → All (λ e. passes e ≡ false) es
      → s.deep_probe_ok ≡ false
      → (store_run c marshal s es).deep_probe_ok ≡ false
  unfolding store_run
  run-unprobed s [] p d = d
  run-unprobed s (e ∷ es) (p, ps) d =
      run-unprobed (store_step c marshal s e) es ps (step-unprobed s e p d)

  -- After a publication of metadata that changes the active key, the store is unhealthy, and stays
  -- so over every sequence of calls none of which reports a deep probe that passed.
  pub publish_metadata-waits :
      (s t : Store) (state : StateFile) (at : Reading) (blocked : Bool) (now : Reading) (l : Loaded)
      (es : List StoreEvent)
      → StoreInv c marshal s
      → runtime_registry c marshal state ≡ ok l
      → active_changed s.loaded l ≡ true
      → publish_metadata c marshal s state at blocked now ≡ ok t
      → All (λ e. passes e ≡ false) es
      → (store_run c marshal t es).healthz ≡ health_unhealthy
  unfolding publish_metadata with_metadata refresh update_health
  publish_metadata-waits s t state at blocked now l es v p changed h ps =
      let unprobed : t.deep_probe_ok ≡ false = ground (arith, rw p at h) in
      let v' =
        run-StoreInv c marshal t es
          (publish_metadata-StoreInv c marshal s t state at blocked now v h) in
      let d = run-unprobed t es ps unprobed in ground (arith, v'.health)
