-- ===== src/Status/Store/Serving.antt =====
-- What the store of internal/status/store.go promises the KMS handlers when it answers "ok".
use openbao_kubernetes_kms.Base.{
  ◌+◌, ◌≤◌, ◌≡◌, refl, sym, ap, subst, ◌∙◌, inl, inr, Bool, true, false, ◌&&◌, Option, none, some,
  arith, sub_nat, Text, text_eq, text_eq_iff, text_eq_refl, Result, ok, >>=-eq-ok, Bool-cases,
  and_split,
}
use openbao_kubernetes_kms.Crypto.{Crypto, CryptoLaws}
use openbao_kubernetes_kms.Clock.{Reading, age, remaining}
use openbao_kubernetes_kms.KeyRegistry.Snapshot.{active, state_eq, normalize}
use openbao_kubernetes_kms.KeyRegistry.State.{
  StateFile, HashBody, validate_state, state_active, state_registry,
}
use openbao_kubernetes_kms.KeyRegistry.State.Active.{state_active-parts, normal_has_key_id}
use openbao_kubernetes_kms.Kms.Server.{
  CachedStatus, health_ok, health_unhealthy, validate_cached_status,
}
use openbao_kubernetes_kms.Status.Store.{
  Loaded, Store, stale, normalized_health, cached_status, current_of, current, runtime_registry,
}
use openbao_kubernetes_kms.Status.Store.Health.{LoadedValid, StoreInv}

some_injective : {a b : CachedStatus} → some a ≡ some b → a ≡ b
some_injective e = cc

unhealthy_text : text_eq (normalized_health health_unhealthy) health_ok ≡ false
unfolding text_eq
unhealthy_text = refl

-- The answer for a loaded state names the key when it is healthy.
abbrev answer : Loaded → CachedStatus
answer l = record {
  healthz = health_ok;
  key_id = l.active.kubernetes_key_id;
  active_snapshot = l.active;
}

unhealthy-ne-ok : health_unhealthy ≡ health_ok → ⊥
unhealthy-ne-ok e = cc

cached_status_healthy :
    (l : Loaded) (healthz : Text) (is_stale : Bool)
    → (cached_status l healthz is_stale).healthz ≡ health_ok
    → (text_eq healthz health_ok ≡ true)
      × (is_stale ≡ false)
      × (cached_status l healthz is_stale ≡ answer l)
unfolding cached_status
cached_status_healthy l healthz is_stale h = elim (Bool-cases (text_eq healthz health_ok)) [
  | inr q ↦
      let e : healthz ≡ health_ok = rw (q, cached_status) at h in
      absurd (cc (q, (text_eq_iff healthz health_ok).1 e))
  | inl q ↦ elim (Bool-cases is_stale) [
    | inl old ↦
        let e : health_unhealthy ≡ health_ok = rw (q, old, cached_status) at h in
        absurd (unhealthy-ne-ok e)
    | inr young ↦ (q, young, rw (q, young))
  ]
]

module _ (c : Crypto) (marshal : HashBody → Result Text) where
  -- The reasons for a healthy answer at `now`.
  pub record Serves (s : Store) (now : Reading) (status : CachedStatus) : Type 0 where
    pub metadata_ok : s.metadata_ok ≡ true
    pub deep_probe_ok : s.deep_probe_ok ≡ true
    pub unblocked : s.encryption_is_blocked ≡ false
    pub served : Loaded
    pub is_loaded : s.loaded ≡ some served
    pub validated : runtime_registry c marshal served.state ≡ ok served
    pub usable : validate_cached_status c status ≡ ok served.active
    pub fresh_elapsed : now.elapsed ≤ s.updated_at.elapsed + s.max_staleness
    pub fresh_wall : now.wall ≤ s.updated_at.wall + s.max_staleness

  -- The active snapshot of a validated state is what Encrypt accepts.
  loaded-validate_cached_status :
      CryptoLaws c
      → (state : StateFile) (l : Loaded) → runtime_registry c marshal state ≡ ok l
      → validate_cached_status c (record {
        healthz = health_ok;
        key_id = l.active.kubernetes_key_id;
        active_snapshot = l.active;
      })
        ≡ ok l.active
  unfolding runtime_registry validate_cached_status
  loaded-validate_cached_status laws state l h =
      let (_, _, h1) = >>=-eq-ok (validate_state c marshal state) _ h in
      let (a, p, h2) = >>=-eq-ok (state_active c state) _ h1 in
      let (reg, _, h3) = >>=-eq-ok (state_registry c state) _ h2 in
      let same : a ≡ l.active = ground (arith, h3) in
      let (normal, is_active) =
        subst (λ y. (normalize c y ≡ ok y) × (state_eq y.state active ≡ true)) same
          (state_active-parts c laws state a p) in
      let has_key_id = normal_has_key_id c laws l.active normal in
      rw (
        text_eq_refl health_ok,
        normal,
        is_active,
        has_key_id,
        text_eq_refl l.active.kubernetes_key_id,
      )

  not_stale :
      (s : Store) (now : Reading)
      → StoreInv c marshal s
      → (stale s now).1 ≡ false
      → (now.elapsed ≤ s.updated_at.elapsed + s.max_staleness)
        × (now.wall ≤ s.updated_at.wall + s.max_staleness)
  unfolding stale remaining age sub_nat
  not_stale s now v h = ground arith

  healthy_parts :
      (s : Store)
      → StoreInv c marshal s
      → text_eq (normalized_health s.healthz) health_ok ≡ true
      → (s.metadata_ok ≡ true) × (s.deep_probe_ok ≡ true) × (s.encryption_is_blocked ≡ false)
  healthy_parts s v h = elim (Bool-cases (s.metadata_ok && s.deep_probe_ok)) [
    | inl e ↦
        let (m, d) = and_split s.metadata_ok s.deep_probe_ok e in
        (
          m,
          d,
          elim (Bool-cases s.encryption_is_blocked) [
            | inr b ↦ b
            | inl b ↦ absurd (ground (arith, v.blocked b))
          ],
        )
    | inr e ↦
        let unhealthy : s.healthz ≡ health_unhealthy = v.health ∙ rw e in
        absurd (
          cc (
            unhealthy_text,
            subst (λ y. text_eq (normalized_health y) health_ok ≡ true) unhealthy h,
          ))
  ]

  current_of-Serves :
      CryptoLaws c
      → (o : Option Loaded) (s : Store) (now : Reading) (status : CachedStatus) → s.loaded ≡ o
      → StoreInv c marshal s
      → (current_of o s now).1 ≡ some status
      → status.healthz ≡ health_ok
      → Serves s now status
  unfolding current_of
  current_of-Serves laws none s now status e v h k = absurd (cc)
  current_of-Serves laws (some l) s now status e v h k =
      elim (Bool-cases (text_eq (normalized_health s.healthz) health_ok)) [
        | inr q ↦
            let same : cached_status l (normalized_health s.healthz) false ≡ status =
              some_injective (rw (q, current_of) at h) in
            let (q', _, _) =
              cached_status_healthy l (normalized_health s.healthz) false
                (ap (λ y. y.healthz) same ∙ k) in
            absurd (cc (q, q'))
        | inl q ↦
            let same : cached_status l (normalized_health s.healthz) (stale s now).1 ≡ status =
              some_injective (rw (q, current_of) at h) in
            let (_, young, is_answer) =
              cached_status_healthy l (normalized_health s.healthz) (stale s now).1
                (ap (λ y. y.healthz) same ∙ k) in
            let (m, d, u) = healthy_parts s v q in
            let (e1, e2) = not_stale s now v young in
            let valid : runtime_registry c marshal l.state ≡ ok l =
              subst (LoadedValid c marshal) e v.loaded_valid in
            record {
              metadata_ok = m;
              deep_probe_ok = d;
              unblocked = u;
              served = l;
              is_loaded = e;
              validated = valid;
              usable =
                  subst (λ y. validate_cached_status c y ≡ ok l.active) (sym is_answer ∙ same)
                    (loaded-validate_cached_status laws l.state l valid);
              fresh_elapsed = e1;
              fresh_wall = e2;
            }
      ]

  -- When the store answers "ok", the metadata check and the deep probe passed, the active key may
  -- encrypt, the evidence is on both clocks no older than the staleness limit, and the answer names
  -- the active key of a state that was validated as a whole, in a form that Encrypt accepts.
  pub current-Serves :
      CryptoLaws c
      → (s : Store) (now : Reading) (status : CachedStatus) → StoreInv c marshal s
      → (current s now).1 ≡ some status
      → status.healthz ≡ health_ok
      → Serves s now status
  unfolding current
  current-Serves laws s now status v h k = current_of-Serves laws s.loaded s now status refl v h k
