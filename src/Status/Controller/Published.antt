-- ===== src/Status/Controller/Published.antt =====
-- What a publication of internal/status/controller.go keeps of the files on disk.
use openbao_kubernetes_kms.Base.{
  ℕ, ◌≡◌, refl, sym, ap, ◌∙◌, subst, ◌⊎◌, inl, inr, Bool, true, false, Option, none, some, arith,
  Text, Result, ok, err, Error, >>=-eq-ok, Result-cases, Bool-cases,
}
use openbao_kubernetes_kms.Crypto.{Crypto}
use openbao_kubernetes_kms.Clock.{Reading}
use openbao_kubernetes_kms.KeyRegistry.State.{
  StateFile, HashBody, validate_state, state_active, state_registry,
}
use openbao_kubernetes_kms.KeyRegistry.State.Next.{Follows}
use openbao_kubernetes_kms.OpenBao.Errors.{Cause}
use openbao_kubernetes_kms.OpenBao.Profile.{KeyProfile}
use openbao_kubernetes_kms.Status.Rotation.{ObservationResult}
use openbao_kubernetes_kms.Status.Promotion.{observe, discover}
use openbao_kubernetes_kms.Status.Promotion.Steps.{
  Outcome, unchanged, noted, promoted_now, observe_step-Outcome,
}
use openbao_kubernetes_kms.Status.StateStore.Crash.{disk_of}
use openbao_kubernetes_kms.Status.Store.{
  HealthReason, Loaded, Store, update_health, refresh, with_metadata, with_metadata_failure,
  publish_metadata_unhealthy, publish_deferred, publish_metadata, runtime_registry,
  update_circuit_breaker,
}
use openbao_kubernetes_kms.Status.Controller.{
  StateCommit, Settings, Controller, publish_breakers, record_probe_success, confirm_activation,
  promotion_ready,
}
use openbao_kubernetes_kms.Status.Controller.Failures.{metadata_failed}
use openbao_kubernetes_kms.Status.Controller.Persistence.{
  may_defer, defer_over, defer_commit, defer_observation, state_save_failed,
}
use openbao_kubernetes_kms.Status.Controller.Probes.{
  ProbeWorld, observed, observed_or, observe_profile, published, publish_result,
}
use openbao_kubernetes_kms.Status.Controller.Durable.{Durable, settled, IsDurable}

publish_deferred-loaded :
    (s : Store) (hash : Text) (at : Reading) → (publish_deferred s hash at).0.loaded ≡ s.loaded
unfolding publish_deferred update_health refresh
publish_deferred-loaded s hash at = ground arith

module _ (c : Crypto) (marshal : HashBody → Result Text) where
  pub metadata_failed-Durable :
      (m : Controller) (now clock : Reading) (reason : HealthReason) (cause : Cause)
      → IsDurable c marshal m
      → IsDurable c marshal (metadata_failed m now clock reason cause).0
  unfolding metadata_failed publish_metadata_unhealthy update_health refresh with_metadata_failure
  metadata_failed-Durable m now clock reason cause d = d

  defer_over-Durable :
      (t : Settings) (m : Controller) (previous : Option StateFile) (n : StateFile) (p : KeyProfile)
      (now : Reading)
      → IsDurable c marshal m
      → IsDurable c marshal (defer_over c marshal t m previous n p now).0
  unfolding defer_over
  defer_over-Durable t m none n p now d = d
  defer_over-Durable t m (some s) n p now d =
      elim (Bool-cases (may_defer c marshal t m.disk s n p now)) [
        | inr e ↦ rw e d
        | inl e ↦ rw e (
            subst (Durable c marshal m.disk m.pending_commit)
              (sym (publish_deferred-loaded m.store s.current_hash now)) d)
      ]

  defer_commit-Durable :
      (t : Settings) (m : Controller) (pending : Option StateCommit) (p : KeyProfile)
      (now : Reading)
      → IsDurable c marshal m
      → IsDurable c marshal (defer_commit c marshal t m pending p now).0
  unfolding defer_commit
  defer_commit-Durable t m none p now d = d
  defer_commit-Durable t m (some k) p now d = defer_over-Durable t m k.previous k.next p now d

  pub state_save_failed-Durable :
      (t : Settings) (m : Controller) (p : KeyProfile) (now clock reading : Reading) (cause : Error)
      → IsDurable c marshal m
      → IsDurable c marshal (state_save_failed c marshal t m p now clock reading cause).0
  unfolding state_save_failed defer_observation record_probe_success publish_breakers
      update_circuit_breaker
  state_save_failed-Durable t m p now clock reading cause d =
      let d' = defer_commit-Durable t m m.pending_commit p now d in
      elim (Bool-cases (defer_commit c marshal t m m.pending_commit p now).1) [
        | inl e ↦ rw e d'
        | inr e ↦ rw e (metadata_failed-Durable _ now clock HealthReason.state_save_failed _ d')
      ]

  -- What a publication of metadata loads.
  pub publish_metadata-loaded :
      (s st : Store) (state : StateFile) (at : Reading) (blocked : Bool) (now : Reading)
      → publish_metadata c marshal s state at blocked now ≡ ok st
      → (l : Loaded) × (st.loaded ≡ some l) × (l.state ≡ state)
  unfolding publish_metadata runtime_registry update_health refresh with_metadata
  publish_metadata-loaded s st state at blocked now h =
      let (l, p, h1) = >>=-eq-ok (runtime_registry c marshal state) _ h in
      let (_, _, p1) = >>=-eq-ok (validate_state c marshal state) _ p in
      let (_, _, p2) = >>=-eq-ok (state_active c state) _ p1 in
      let (_, _, p3) = >>=-eq-ok (state_registry c state) _ p2 in
      (l, ground (arith, h1), ground (arith, p3))

  -- What an observation of `q` may be: nothing new, or the next state.
  abbrev pub Moves : StateFile → ObservationResult → Type 0
  Moves q r =
      ((r.changed ≡ false) × (r.state ≡ q)) ⊎ ((r.changed ≡ true) × Follows c marshal q r.state)

  observe_step-Moves :
      (t : Settings) (q : StateFile) (p : KeyProfile) (r : ObservationResult) (now : ℕ)
      (advance ready : Bool)
      → Outcome c marshal q t.observer p now advance ready r
      → Moves q r
  observe_step-Moves t q p r now advance ready (unchanged _ e u _) = inl (u, e)
  observe_step-Moves t q p r now advance ready (noted _ n _ u _) = inr (u, n)
  observe_step-Moves t q p r now advance ready (promoted_now _ _ _ _ _ _ _ _ _ _ n u _) = inr (u, n)

  pub observed_or-observed :
      (o : Result ObservationResult) (r : ObservationResult) → observed_or o ≡ observed r → o ≡ ok r
  observed_or-observed (ok u) r h = cc
  observed_or-observed (err e) r h = absurd (cc)

  pub observe_profile-Moves :
      (t : Settings) (m : Controller) (q : StateFile) (p : KeyProfile) (now : Reading)
      (is_discovery : Bool) (r : ObservationResult)
      → observe_profile c marshal t m (some q) p now is_discovery ≡ observed r
      → Moves q r
  unfolding observe_profile observe discover
  observe_profile-Moves t m q p now true r h = observe_step-Moves t q p r now.wall false false (
      observe_step-Outcome c marshal t.observer q p now.wall false false r
        (observed_or-observed _ r h))
  observe_profile-Moves t m q p now false r h =
      observe_step-Moves t q p r now.wall true (promotion_ready t m q p now) (
        observe_step-Outcome c marshal t.observer q p now.wall true (promotion_ready t m q p now) r
          (observed_or-observed _ r h))

  published-Durable :
      (t : Settings) (m : Controller) (st : Store) (p : KeyProfile) (w : ProbeWorld)
      (is_discovery : Bool) (r : ObservationResult) (l : Loaded)
      → st.loaded ≡ some l
      → validate_state c marshal l.state ≡ ok tt
      → m.disk ≡ disk_of l.state
      → IsDurable c marshal (published c marshal t m st p w is_discovery r).0
  unfolding published record_probe_success publish_breakers update_circuit_breaker
      confirm_activation
  published-Durable t m st p w true r l e v d = settled l refl e v d
  published-Durable t m st p w false r l e v d = settled l refl e v d

  -- Once what was observed is on disk, its publication keeps what is durable.
  pub publish_result-Durable :
      (t : Settings) (m : Controller) (p : KeyProfile) (w : ProbeWorld) (is_discovery : Bool)
      (r : ObservationResult)
      → IsDurable c marshal m
      → validate_state c marshal r.state ≡ ok tt
      → m.disk ≡ disk_of r.state
      → IsDurable c marshal (publish_result c marshal t m p w is_discovery r).0
  unfolding publish_result
  publish_result-Durable t m p w is_discovery r d v e =
      elim (Result-cases
        (publish_metadata c marshal m.store r.state w.now r.encryption_blocked w.at_publish)) [
          | inr (u, q) ↦ rw q (metadata_failed-Durable m w.now w.at_publish _ _ d)
          | inl (st, q) ↦
              let (l, is_loaded, is_state) =
                publish_metadata-loaded m.store st r.state w.now r.encryption_blocked w.at_publish
                  q in
              rw q (
                published-Durable t m st p w is_discovery r l is_loaded
                  (subst (λ x. validate_state c marshal x ≡ ok tt) (sym is_state) v)
                  (e ∙ ap disk_of (sym is_state)))
        ]
