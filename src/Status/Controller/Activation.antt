-- ===== src/Status/Controller/Activation.antt =====
-- The activation delay of internal/status/activation.go, between the controller and its observer.
use openbao_kubernetes_kms.Base.{
  ℕ, ◌+◌, ◌≤◌, ◌≡◌, ◌⊎◌, refl, inl, inr, sym, ap, subst, ◌∙◌, Bool, true, false, Option, none, some,
  List, [], ◌∷◌, arith, Text, text_eq, text_eq_iff, pos_part, Result, ok,
}
use openbao_kubernetes_kms.Crypto.{Crypto}
use openbao_kubernetes_kms.Clock.{Reading, after, pending}
use openbao_kubernetes_kms.KeyRegistry.Snapshot.{is_empty}
use openbao_kubernetes_kms.KeyRegistry.Records.{StateRecord, is_zero_int}
use openbao_kubernetes_kms.KeyRegistry.State.{StateFile, HashBody}
use openbao_kubernetes_kms.KeyRegistry.Files.{WriteOutcome}
use openbao_kubernetes_kms.OpenBao.Profile.{KeyProfile}
use openbao_kubernetes_kms.Status.Breaker.{BreakerOptions}
use openbao_kubernetes_kms.Status.Rotation.{ObservationResult, promotion_allowed}
use openbao_kubernetes_kms.Status.StateStore.{Disk}
use openbao_kubernetes_kms.Status.Store.{Loaded, empty_store}
use openbao_kubernetes_kms.Status.Promotion.{observe}
use openbao_kubernetes_kms.Status.Promotion.Steps.{
  Outcome, unchanged, noted, promoted_now, observe_step-Outcome,
}
use openbao_kubernetes_kms.Status.Controller.{
  ActivationWait, no_wait, Settings, Controller, is_waited, stable_candidate, promotion_ready,
}
use openbao_kubernetes_kms.Status.Controller.Probes.{replied, ProbeWorld, observed, observe_profile}
use openbao_kubernetes_kms.Status.Controller.Published.{observed_or-observed}
use openbao_kubernetes_kms.Status.Controller.Refresh.{new_controller}
use openbao_kubernetes_kms.Status.Controller.Restart.{ControllerEvent, controller_run}
use openbao_kubernetes_kms.Status.Controller.Backed.{
  Logged, checks, probed, idle, Began, controller_log, new_controller-Backed,
}

-- A metadata probe that published a state whose stable candidate had the key_id, the delay before `now`.
abbrev pub SawCandidate : Settings → ProbeWorld → Option Loaded → Text → Reading → Type 0
SawCandidate t w o key_id now =
    (p : KeyProfile) × (l : Loaded) × (k : StateRecord) × (w.profile ≡ replied p)
    × (o ≡ some l)
    × (stable_candidate t.observer l.state p ≡ some k)
    × (k.kubernetes_key_id ≡ key_id)
    × (w.at_confirm.elapsed + pos_part t.observer.policy.activation_delay ≤ now.elapsed)

-- Some metadata probe of the history was such a one.
abbrev pub WaitedFor : Settings → List Logged → Text → Reading → Type 0
WaitedFor t [] key_id now = ⊥
WaitedFor t (checks w o ∷ h) key_id now = WaitedFor t h key_id now ⊎ SawCandidate t w o key_id now
WaitedFor t (probed w e ∷ h) key_id now = WaitedFor t h key_id now
WaitedFor t (idle ∷ h) key_id now = WaitedFor t h key_id now

after-passed :
    (r now : Reading) (delay : ℕ)
    → pending (after r delay) now ≡ false
    → r.elapsed + delay ≤ now.elapsed
unfolding after pending
after-passed r now delay h = ground (arith, h)

Began-WaitedFor :
    (t : Settings) (h : List Logged) (a : ActivationWait) (now : Reading)
    → Began t h a
    → pending a.deadline now ≡ false
    → WaitedFor t h a.key_id now
Began-WaitedFor t [] a now b e = elim b [ ]
Began-WaitedFor t (checks w o ∷ h) a now (inl b) e = inl (Began-WaitedFor t h a now b e)
Began-WaitedFor t (checks w o ∷ h) a now (inr (p, l, k, i, q, u, x)) e = inr (
  p,
  l,
  k,
  i,
  q,
  u,
  ap (λ y. y.key_id) (sym x),
  after-passed w.at_confirm now (pos_part t.observer.policy.activation_delay)
      (ap (λ (y : ActivationWait). pending y.deadline now) (sym x) ∙ e),
)
Began-WaitedFor t (probed w r ∷ h) a now b e = Began-WaitedFor t h a now b e
Began-WaitedFor t (idle ∷ h) a now b e = Began-WaitedFor t h a now b e

-- A wait that answers for a candidate is for its key_id, and over.
is_waited-over :
    (a : ActivationWait) (now : Reading) (o : Option StateRecord)
    → is_waited a now o ≡ true
    → (k : StateRecord) × (o ≡ some k)
      × (a.key_id ≡ k.kubernetes_key_id)
      × (pending a.deadline now ≡ false)
is_waited-over a now none h = absurd (cc)
is_waited-over a now (some k) h =
    let agrees : text_eq a.key_id k.kubernetes_key_id ≡ true = ground (arith, h) in
    (k, refl, (text_eq_iff a.key_id k.kubernetes_key_id).0 agrees, ground (arith, h))

promotion_ready-is_waited :
    (t : Settings) (m : Controller) (s : StateFile) (p : KeyProfile) (now : Reading)
    → is_zero_int t.observer.policy.activation_delay ≡ false
    → promotion_ready t m s p now ≡ true
    → is_waited m.activation now (stable_candidate t.observer s p) ≡ true
unfolding promotion_ready
promotion_ready-is_waited t m s p now delayed h = rw delayed at h

promoted-ready :
    (c : Crypto) (marshal : HashBody → Result Text) (t : Settings) (s : StateFile) (p : KeyProfile)
    (now : ℕ) (ready : Bool) (r : ObservationResult)
    → is_zero_int t.observer.policy.activation_delay ≡ false
    → Outcome c marshal s t.observer p now true ready r
    → r.promoted ≡ true
    → ready ≡ true
unfolding promotion_allowed
promoted-ready c marshal t s p now ready r d (unchanged _ _ _ u) h = absurd (cc)
promoted-ready c marshal t s p now ready r d (noted _ _ _ _ u) h = absurd (cc)
promoted-ready c marshal t s p now ready r d (promoted_now _ _ _ _ q _ _ _ allowed _ _ _ _) h =
    ground (arith, allowed, d)

module _ (c : Crypto) (marshal : HashBody → Result Text) (t : Settings) where
  over-WaitedFor :
      (h : List Logged) (a : ActivationWait) (now : Reading) (k : StateRecord)
      → (a ≡ no_wait) ⊎ Began t h a
      → is_empty k.kubernetes_key_id ≡ false
      → a.key_id ≡ k.kubernetes_key_id
      → pending a.deadline now ≡ false
      → WaitedFor t h k.kubernetes_key_id now
  over-WaitedFor h a now k (inl e) named same over = absurd (cc)
  over-WaitedFor h a now k (inr b) named same over =
      subst (λ x. WaitedFor t h x now) same (Began-WaitedFor t h a now b over)

  -- With an activation delay, a controller that started with an empty store, however it was asked
  -- then for probes and refreshes, observes a state by a metadata probe. If that promotes, the state
  -- has a stable candidate, and an earlier metadata probe had published a state whose stable
  -- candidate had the same key_id, at least the delay before on the monotonic clock. A stable
  -- candidate of the state is taken to have a key_id.
  pub observe_profile-WaitedFor :
      (max_staleness : ℕ) (d : Disk) (b : BreakerOptions) (r : Reading) (o : WriteOutcome)
      (m : Controller) (xs : List ControllerEvent) (u : StateFile) (q : KeyProfile) (now : Reading)
      (result : ObservationResult)
      → is_zero_int t.observer.policy.activation_delay ≡ false
      → new_controller c marshal t (empty_store max_staleness) d b r o ≡ ok m
      → ((k : StateRecord)
          → stable_candidate t.observer u q ≡ some k
          → is_empty k.kubernetes_key_id ≡ false)
      → observe_profile c marshal t (controller_run c marshal t m xs) (some u) q now false
        ≡ observed result
      → result.promoted ≡ true
      → (k : StateRecord) × (stable_candidate t.observer u q ≡ some k)
        × WaitedFor t (controller_log c marshal t m xs []) k.kubernetes_key_id now
  unfolding observe_profile observe
  observe_profile-WaitedFor max_staleness d b r o m xs u q now result delayed h named i promoted =
      let n = controller_run c marshal t m xs in
      let v = new_controller-Backed c marshal t max_staleness d b r o m xs h in
      let ready = promotion_ready t n u q now in
      let is_ready =
        promoted-ready c marshal t u q now.wall ready result delayed
          (observe_step-Outcome c marshal t.observer u q now.wall true ready result
            (observed_or-observed c marshal _ result i))
          promoted in
      let (k, candidate, same, over) =
        is_waited-over n.activation now (stable_candidate t.observer u q)
          (promotion_ready-is_waited t n u q now delayed is_ready) in
      (
        k,
        candidate,
        over-WaitedFor (controller_log c marshal t m xs []) n.activation now k v.wait
            (named k candidate) same over,
      )
