-- ===== src/Status/Controller/Evidence.antt =====
-- What one metadata probe of internal/status/controller.go leaves to show for it.
use openbao_kubernetes_kms.Base.{
  ◌≡◌, ◌⊎◌, refl, ap, sym, subst, ◌∙◌, inl, inr, Bool, true, false, Option, none, some,
  if◌then◌else◌, arith, Text, text_eq, text_eq_iff, pos_part, Result, ok, err, Error, Result-cases,
  Bool-cases, if_err, >>=-eq-ok,
}
use openbao_kubernetes_kms.Crypto.{Crypto}
use openbao_kubernetes_kms.Clock.{Reading, is_zero, after}
use openbao_kubernetes_kms.KeyRegistry.Records.{StateRecord}
use openbao_kubernetes_kms.KeyRegistry.State.{StateFile, HashBody}
use openbao_kubernetes_kms.OpenBao.Errors.{Cause}
use openbao_kubernetes_kms.OpenBao.Profile.{KeyProfile}
use openbao_kubernetes_kms.Status.Rotation.{ObservationResult}
use openbao_kubernetes_kms.Status.Store.{
  HealthReason, Loaded, Store, update_health, refresh, read_unless_set, active_changed,
  with_metadata, with_metadata_failure, publish_metadata_unhealthy, publish_deferred,
  publish_metadata, runtime_registry, update_circuit_breaker,
}
use openbao_kubernetes_kms.Status.Controller.{
  metadata_probe, StateCommit, ActivationWait, no_wait, ProbeError, Settings, Controller,
  publish_breakers, allow_probe, record_probe_failure, record_probe_success, stable_candidate,
  next_wait, confirm_activation,
}
use openbao_kubernetes_kms.Status.Controller.Failures.{metadata_failed}
use openbao_kubernetes_kms.Status.Controller.Persistence.{
  state_for, state_for_observation, save_state, may_defer, defer_over, defer_commit,
  defer_observation, state_save_failed,
}
use openbao_kubernetes_kms.Status.Controller.Probes.{
  Reply, failed, replied, ProbeWorld, Observed, refused, observed, published, save_if_changed,
  publish_result, save_and_publish, publish_observation, probe_profile, probe_upsert, probe_once,
}
use openbao_kubernetes_kms.Status.Controller.Published.{publish_metadata-loaded}

-- What holds of both ways on holds of the branch on a result.
pub if_err-by_cases {ℓ} :
    {A B : Type 0} (P : B → Type ℓ) (r : Result A) (f : Error → B) (g : A → B)
    → ((e : Error) → r ≡ err e → P (f e))
    → ((x : A) → r ≡ ok x → P (g x))
    → P (if_err r f g)
if_err-by_cases P (err e) f g u v = u e refl
if_err-by_cases P (ok x) f g u v = v x refl

-- A metadata probe in which OpenBao answered that it refuses to create keys, and gave the profile of
-- the key, at the reading `r` of the probe.
abbrev pub IsChecked : ProbeWorld → Reading → Type 0
IsChecked w r =
    (w.disable_upsert ≡ replied true)
    × ((p : KeyProfile) × (w.profile ≡ replied p))
    × ((r ≡ w.now) ⊎ (r ≡ w.at_publish))

-- What a probe leaves of the wait for activation: the wait before it, none, or a wait that it began
-- for the stable candidate of the state that it published.
pub data NextWait (t : Settings) (w : ProbeWorld) (a b : ActivationWait) (published : Option Loaded)
    : Type 0 where
  kept : b ≡ a → NextWait t w a b published
  cleared : b ≡ no_wait → NextWait t w a b published
  began :
      (p : KeyProfile) (l : Loaded) (k : StateRecord)
      → w.profile ≡ replied p
      → published ≡ some l
      → stable_candidate t.observer l.state p ≡ some k
      → b ≡ record {
        key_id = k.kubernetes_key_id;
        deadline = after w.at_confirm (pos_part t.observer.policy.activation_delay);
      }
      → NextWait t w a b published

read_unless_set_cases :
    (at now : Reading) → (read_unless_set at now ≡ at) ⊎ (read_unless_set at now ≡ now)
read_unless_set_cases at now = elim (Bool-cases (is_zero at.wall)) [
  | inl q ↦ inr (rw q refl)
  | inr q ↦ inl (rw q refl)
]

deferred_same :
    (s : Store) (hash : Text) (at : Reading)
    → ((publish_deferred s hash at).0.loaded ≡ s.loaded)
      × ((publish_deferred s hash at).0.deep_probe_ok ≡ s.deep_probe_ok)
unfolding publish_deferred update_health refresh
deferred_same s hash at = ground arith

deferred_at :
    (s : Store) (hash : Text) (at : Reading)
    → (publish_deferred s hash at).1 ≡ true
    → (publish_deferred s hash at).0.updated_at ≡ at
unfolding publish_deferred update_health refresh
deferred_at s hash at h = ground arith

deferred_fields :
    (s : Store) (hash : Text) (at : Reading)
    → (publish_deferred s hash at).1 ≡ true
    → ((publish_deferred s hash at).0.updated_at ≡ at)
      × ((publish_deferred s hash at).0.loaded ≡ s.loaded)
      × ((publish_deferred s hash at).0.deep_probe_ok ≡ s.deep_probe_ok)
deferred_fields s hash at h =
    let (l, d) = deferred_same s hash at in (deferred_at s hash at h, l, d)

publish_metadata-fields :
    (c : Crypto) (marshal : HashBody → Result Text) (s st : Store) (state : StateFile)
    (at : Reading) (blocked : Bool) (now : Reading)
    → publish_metadata c marshal s state at blocked now ≡ ok st
    → (l : Loaded) × (st.loaded ≡ some l)
      × (st.deep_probe_ok ≡ (if active_changed s.loaded l then false else s.deep_probe_ok))
      × (st.updated_at ≡ read_unless_set at now)
unfolding publish_metadata with_metadata refresh update_health
publish_metadata-fields c marshal s st state at blocked now h =
    let (l, p, h1) = >>=-eq-ok (runtime_registry c marshal state) _ h in
    (l, ground (arith, h1), ground (arith, h1), ground (arith, h1))

next_wait-NextWait :
    (t : Settings) (w : ProbeWorld) (a : ActivationWait) (o : Option Loaded) (p : KeyProfile)
    (l : Loaded) (k : Option StateRecord)
    → w.profile ≡ replied p
    → o ≡ some l
    → stable_candidate t.observer l.state p ≡ k
    → NextWait t w a (next_wait t a w.at_confirm k) o
unfolding next_wait
next_wait-NextWait t w a o p l none e q u = cleared refl
next_wait-NextWait t w a o p l (some k) e q u =
    elim (Bool-cases (text_eq a.key_id k.kubernetes_key_id)) [
      | inl h ↦ rw h (kept refl)
      | inr h ↦ rw h (began p l k e q u refl)
    ]

module _ (Deep : Text → Type 0) where
  abbrev pub DeepOf : Option Loaded → Type 0
  DeepOf none = ⊥
  DeepOf (some l) = Deep l.active.kubernetes_key_id

  -- A store whose deep probe counts as passed has passed it for its active key.
  abbrev pub DeepOk : Store → Type 0
  DeepOk s = s.deep_probe_ok ≡ true → DeepOf s.loaded

  pub record Shows (t : Settings) (w : ProbeWorld) (a : ActivationWait) (m : Controller)
      : Type 0 where
    pub checked : m.store.metadata_ok ≡ true → IsChecked w m.store.updated_at
    pub deep : DeepOk m.store
    pub wait : NextWait t w a m.activation m.store.loaded

  metadata_failed-Shows :
      (t : Settings) (w : ProbeWorld) (a : ActivationWait) (m : Controller) (now clock : Reading)
      (reason : HealthReason) (cause : Cause)
      → m.activation ≡ a
      → DeepOk m.store
      → Shows t w a (metadata_failed m now clock reason cause).0
  unfolding metadata_failed publish_metadata_unhealthy update_health refresh with_metadata_failure
  metadata_failed-Shows t w a m now clock reason cause e d = record {
    checked = λ q. absurd (cc);
    deep = d;
    wait = kept e;
  }

  publish_deferred-Shows :
      (t : Settings) (w : ProbeWorld) (a : ActivationWait) (m : Controller) (hash : Text)
      → m.activation ≡ a
      → IsChecked w w.now
      → DeepOk m.store
      → (publish_deferred m.store hash w.now).1 ≡ true
      → Shows t w a (
          record_probe_success metadata_probe
            (record m { store = (publish_deferred m.store hash w.now).0 })
            w.at_record)
  unfolding record_probe_success publish_breakers update_circuit_breaker
  publish_deferred-Shows t w a m hash e k d h =
      let (u, l, q) = deferred_fields m.store hash w.now h in
      record {
        checked = λ _. subst (IsChecked w) (sym u) k;
        deep = λ x. subst DeepOf (sym l) (d (sym q ∙ x));
        wait = kept e;
      }

  publish_deferred-DeepOk :
      (s : Store) (hash : Text) (at : Reading) → DeepOk s → DeepOk (publish_deferred s hash at).0
  publish_deferred-DeepOk s hash at d x =
      let (l, q) = deferred_same s hash at in subst DeepOf (sym l) (d (sym q ∙ x))

  publish_metadata-DeepOk :
      (c : Crypto) (marshal : HashBody → Result Text) (s st : Store) (state : StateFile)
      (at : Reading) (blocked : Bool) (now : Reading)
      → publish_metadata c marshal s state at blocked now ≡ ok st
      → DeepOk s
      → DeepOk st
  unfolding active_changed
  publish_metadata-DeepOk c marshal s st state at blocked now h d x =
      let (l, is_loaded, is_deep, _) =
        publish_metadata-fields c marshal s st state at blocked now h in
      subst DeepOf (sym is_loaded) (still s.loaded l s.deep_probe_ok d (sym is_deep ∙ x))
    where
      still :
          (o : Option Loaded) (l : Loaded) (b : Bool)
          → (b ≡ true → DeepOf o)
          → (if active_changed o l then false else b) ≡ true
          → Deep l.active.kubernetes_key_id
      still none l b d x = absurd (cc)
      still (some old) l b d x =
          elim (Bool-cases (text_eq old.active.kubernetes_key_id l.active.kubernetes_key_id)) [
            | inl e ↦
                subst Deep
                  ((text_eq_iff old.active.kubernetes_key_id l.active.kubernetes_key_id).0 e)
                  (d (rw e at x))
            | inr e ↦ absurd (ground (arith, rw e at x))
          ]

  module _ (c : Crypto) (marshal : HashBody → Result Text) (t : Settings) (w : ProbeWorld)
      (a : ActivationWait) where
    defer_over-Shows :
        (m : Controller) (previous : Option StateFile) (n : StateFile) (p : KeyProfile)
        → m.activation ≡ a
        → IsChecked w w.now
        → DeepOk m.store
        → DeepOk (defer_over c marshal t m previous n p w.now).0.store
          × ((defer_over c marshal t m previous n p w.now).0.activation ≡ a)
          × ((defer_over c marshal t m previous n p w.now).1 ≡ true
              → Shows t w a (
                  record_probe_success metadata_probe
                    (defer_over c marshal t m previous n p w.now).0
                    w.at_record))
    unfolding defer_over
    defer_over-Shows m none n p e k d = (d, e, λ x. absurd (cc))
    defer_over-Shows m (some s) n p e k d =
        elim (Bool-cases (may_defer c marshal t m.disk s n p w.now)) [
          | inr q ↦ rw q (d, e, λ x. absurd (cc))
          | inl q ↦ rw q (
            publish_deferred-DeepOk m.store s.current_hash w.now d,
            e,
            publish_deferred-Shows t w a m s.current_hash e k d,
          )
        ]

    defer_commit-Shows :
        (m : Controller) (o : Option StateCommit) (p : KeyProfile)
        → m.activation ≡ a
        → IsChecked w w.now
        → DeepOk m.store
        → DeepOk (defer_commit c marshal t m o p w.now).0.store
          × ((defer_commit c marshal t m o p w.now).0.activation ≡ a)
          × ((defer_commit c marshal t m o p w.now).1 ≡ true
              → Shows t w a (
                  record_probe_success metadata_probe
                    (defer_commit c marshal t m o p w.now).0
                    w.at_record))
    unfolding defer_commit
    defer_commit-Shows m none p e k d = (d, e, λ x. absurd (cc))
    defer_commit-Shows m (some s) p e k d = defer_over-Shows m s.previous s.next p e k d

    state_save_failed-Shows :
        (m : Controller) (p : KeyProfile) (clock : Reading) (cause : Error)
        → m.activation ≡ a
        → IsChecked w w.now
        → DeepOk m.store
        → Shows t w a (state_save_failed c marshal t m p w.now clock w.at_record cause).0
    unfolding state_save_failed defer_observation
    state_save_failed-Shows m p clock cause e k d =
        let (d', e', shows) = defer_commit-Shows m m.pending_commit p e k d in
        elim (Bool-cases (defer_commit c marshal t m m.pending_commit p w.now).1) [
          | inl q ↦ rw q (shows q)
          | inr q ↦
              rw q
                (metadata_failed-Shows t w a _ w.now clock HealthReason.state_save_failed _ e' d')
        ]

    published-Shows :
        (m : Controller) (st : Store) (p : KeyProfile) (is_discovery : Bool) (r : ObservationResult)
        (l : Loaded)
        → m.activation ≡ a
        → w.profile ≡ replied p
        → st.loaded ≡ some l
        → l.state ≡ r.state
        → IsChecked w st.updated_at
        → DeepOk st
        → Shows t w a (published c marshal t m st p w is_discovery r).0
    unfolding published record_probe_success publish_breakers update_circuit_breaker
        confirm_activation
    published-Shows m st p true r l i e q u k d = record {
      checked = λ _. k;
      deep = d;
      wait = kept i;
    }
    published-Shows m st p false r l i e q u k d = record {
      checked = λ _. k;
      deep = d;
      wait =
          subst
            (λ x.
              NextWait t w x
                (next_wait t m.activation w.at_confirm (stable_candidate t.observer r.state p))
                st.loaded)
            i
            (next_wait-NextWait t w m.activation st.loaded p l
              (stable_candidate t.observer r.state p) e q
              (ap (λ x. stable_candidate t.observer x p) u));
    }

    publish_result-Shows :
        (m : Controller) (p : KeyProfile) (is_discovery : Bool) (r : ObservationResult)
        → m.activation ≡ a
        → w.disable_upsert ≡ replied true
        → w.profile ≡ replied p
        → DeepOk m.store
        → Shows t w a (publish_result c marshal t m p w is_discovery r).0
    unfolding publish_result
    publish_result-Shows m p is_discovery r i u e d =
        elim (Result-cases
          (publish_metadata c marshal m.store r.state w.now r.encryption_blocked w.at_publish)) [
            | inr (x, q) ↦ rw q (metadata_failed-Shows t w a m w.now w.at_publish _ _ i d)
            | inl (st, q) ↦
                let (l, is_loaded, is_state) =
                  publish_metadata-loaded c marshal m.store st r.state w.now r.encryption_blocked
                    w.at_publish q in
                let (_, _, _, at) =
                  publish_metadata-fields c marshal m.store st r.state w.now r.encryption_blocked
                    w.at_publish q in
                let k : IsChecked w st.updated_at =
                  subst (IsChecked w) (sym at)
                    (u, (p, e), read_unless_set_cases w.now w.at_publish) in
                rw q (
                  published-Shows m st p is_discovery r l i e is_loaded is_state k (
                    publish_metadata-DeepOk c marshal m.store st r.state w.now r.encryption_blocked
                      w.at_publish q d))
          ]

    save_and_publish-Shows :
        (m : Controller) (previous : Option StateFile) (p : KeyProfile) (is_discovery : Bool)
        (o : Observed)
        → m.activation ≡ a
        → w.disable_upsert ≡ replied true
        → w.profile ≡ replied p
        → DeepOk m.store
        → Shows t w a (save_and_publish c marshal t m previous p w is_discovery o).0
    unfolding save_and_publish save_if_changed save_state
    save_and_publish-Shows m previous p is_discovery (refused reason why) i u e d =
        metadata_failed-Shows t w a m w.now w.at_publish reason _ i d
    save_and_publish-Shows m previous p is_discovery (observed r) i u e d =
        elim (Bool-cases r.changed) [
          | inr q ↦ rw q (publish_result-Shows m p is_discovery r i u e d)
          | inl q ↦ elim (Result-cases (save_state c marshal t m previous r.state w.saving).1) [
            | inr (x, k) ↦
                rw (q, k) (state_save_failed-Shows _ p w.at_publish x i (u, (p, e), inl refl) d)
            | inl (x, k) ↦ rw (q, k) (publish_result-Shows _ p is_discovery r i u e d)
          ]
        ]

    state_for-kept :
        (o : Option StateCommit) (m : Controller)
        → ((state_for c marshal t o m w.recovering).0.store ≡ m.store)
          × ((state_for c marshal t o m w.recovering).0.activation ≡ m.activation)
    unfolding state_for
    state_for-kept none m = (refl, refl)
    state_for-kept (some k) m = (refl, refl)

    publish_observation-Shows :
        (m : Controller) (p : KeyProfile) (is_discovery : Bool)
        → m.activation ≡ a
        → w.disable_upsert ≡ replied true
        → w.profile ≡ replied p
        → DeepOk m.store
        → Shows t w a (publish_observation c marshal t m p w is_discovery).0
    unfolding publish_observation state_for_observation
    publish_observation-Shows m p is_discovery i u e d =
        let (same_store, same_wait) = state_for-kept m.pending_commit m in
        let d' = subst DeepOk (sym same_store) d in
        elim (Result-cases (state_for c marshal t m.pending_commit m w.recovering).1) [
          | inr (x, k) ↦
              rw k (
                state_save_failed-Shows _ p w.at_publish x (same_wait ∙ i) (u, (p, e), inl refl) d')
          | inl (o, k) ↦ rw k (save_and_publish-Shows _ o p is_discovery _ (same_wait ∙ i) u e d')
        ]

    probe_profile-Shows :
        (m : Controller) (is_discovery : Bool) (p : Reply KeyProfile)
        → m.activation ≡ a
        → w.disable_upsert ≡ replied true
        → w.profile ≡ p
        → DeepOk m.store
        → Shows t w a (probe_profile c marshal t m w is_discovery p).0
    unfolding probe_profile record_probe_failure publish_breakers update_circuit_breaker
    probe_profile-Shows m is_discovery (failed x) i u e d =
        metadata_failed-Shows t w a _ w.now w.at_publish _ _ i d
    probe_profile-Shows m is_discovery (replied p) i u e d =
        publish_observation-Shows m p is_discovery i u e d

    probe_upsert-Shows :
        (m : Controller) (is_discovery : Bool) (u : Reply Bool)
        → m.activation ≡ a
        → w.disable_upsert ≡ u
        → DeepOk m.store
        → Shows t w a (probe_upsert c marshal t m w is_discovery u).0
    unfolding probe_upsert record_probe_failure publish_breakers update_circuit_breaker
    probe_upsert-Shows m is_discovery (failed x) i u d =
        metadata_failed-Shows t w a _ w.now w.at_publish _ _ i d
    probe_upsert-Shows m is_discovery (replied false) i u d =
        metadata_failed-Shows t w a m w.now w.at_publish _ _ i d
    probe_upsert-Shows m is_discovery (replied true) i u d =
        probe_profile-Shows m is_discovery w.profile i u refl d

    -- What a metadata probe whose context lives leaves: a check that passed is one of this probe.
    pub probe_once-Shows :
        (m : Controller) (is_discovery : Bool)
        → m.activation ≡ a
        → w.context ≡ ok tt
        → DeepOk m.store
        → Shows t w a (probe_once c marshal t m w is_discovery).0
    unfolding probe_once allow_probe publish_breakers update_circuit_breaker
    probe_once-Shows m is_discovery i k d =
        if_err-by_cases (λ (x : Controller × Option ProbeError). Shows t w a x.0) w.context _ _
          (λ e q. absurd (cc))
          (λ _ _. elim (Bool-cases (allow_probe metadata_probe m w.now w.at_allow).1) [
            | inl q ↦ rw q (
                probe_upsert-Shows (allow_probe metadata_probe m w.now w.at_allow).0 is_discovery
                  w.disable_upsert i refl d)
            | inr q ↦ rw q (
                metadata_failed-Shows t w a (allow_probe metadata_probe m w.now w.at_allow).0 w.now
                  w.at_publish _ _ i d)
          ])
