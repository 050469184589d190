-- ===== src/Kms/Health.antt =====
-- internal/kmsv2: what Status promises Encrypt, and what the limiters bound.
use openbao_kubernetes_kms.Base.{
  ◌≡◌, ap, sym, subst, ◌∙◌, ◌↔◌, inl, inr, true, not, ◌||◌, arith, Error, Text, text_eq,
  text_eq_iff, codes, ok, err, Result-cases, Bool-cases, fail_if-eq-ok, >>=-eq-ok,
}
use openbao_kubernetes_kms.Crypto.{Crypto}
use openbao_kubernetes_kms.KeyRegistry.Snapshot.{KeySnapshot, active, state_eq, is_empty, normalize}
use openbao_kubernetes_kms.Kms.Server.{
  CachedStatus, Server, health_ok, active_or, validate_cached_status, status_response,
  active_status,
}

module _ (c : Crypto) where
  pub validated_key_id :
      (s : CachedStatus) (a : KeySnapshot)
      → validate_cached_status c s ≡ ok a
      → (s.key_id ≡ a.kubernetes_key_id)
        × (text_eq s.healthz health_ok ≡ true)
        × (state_eq a.state active ≡ true)
  unfolding validate_cached_status
  validated_key_id s a h =
      let (p, h1) = fail_if-eq-ok (not (text_eq s.healthz health_ok)) _ _ h in
      let (b, _, h2) = >>=-eq-ok (active_or (normalize c s.active_snapshot)) _ h1 in
      let (q, h3) = fail_if-eq-ok (not (state_eq b.state active) || is_empty s.key_id) _ _ h2 in
      let (r, h4) = fail_if-eq-ok (not (text_eq s.key_id b.kubernetes_key_id)) _ _ h3 in
      let same : b ≡ a = ground (arith, h4) in
      (
        ground
            (arith, text_eq_iff s.key_id b.kubernetes_key_id, ap (λ x. x.kubernetes_key_id) same),
        ground (arith, p),
        ground (arith, q, ap (λ x. x.state) same),
      )

  response_valid :
      (s : CachedStatus) (a : KeySnapshot)
      → validate_cached_status c s ≡ ok a
      → ((status_response c s).healthz ≡ health_ok) × ((status_response c s).key_id ≡ s.key_id)
  unfolding status_response
  response_valid s a h =
      let (_, hz, _) = validated_key_id s a h in
      let shown : status_response c s
          ≡ record { version = codes "v2"; healthz = s.healthz; key_id = s.key_id } =
        rw (hz, h, status_response) in
      (ap (λ x. x.healthz) shown ∙ (text_eq_iff s.healthz health_ok).0 hz, ap (λ x. x.key_id) shown)

  response_invalid :
      (s : CachedStatus) (e : Error)
      → validate_cached_status c s ≡ err e
      → (status_response c s).healthz ≡ health_ok
      → ⊥
  unfolding status_response
  response_invalid s e h p = elim (Bool-cases (text_eq s.healthz health_ok)) [
    | inl q ↦ ground (arith, rw (q, h, status_response) at p)
    | inr q ↦ ground (arith, rw (q, status_response) at p, text_eq_iff s.healthz health_ok)
  ]

  active_status_valid :
      (s : Server) (cached : CachedStatus) (a : KeySnapshot)
      → s.current ≡ ok cached
      → validate_cached_status c cached ≡ ok a
      → active_status c s ≡ ok (a, cached.key_id)
  unfolding active_status
  active_status_valid s cached a e h = rw (e, h)

  active_status_invalid :
      (s : Server) (cached : CachedStatus) (w : Error) (v : KeySnapshot × Text)
      → s.current ≡ ok cached
      → validate_cached_status c cached ≡ err w
      → active_status c s ≡ ok v
      → ⊥
  unfolding active_status
  active_status_invalid s cached w v e h p = ground (arith, rw (e, h, active_status) at p)

  -- When the cached status can be read, Status answers "ok" exactly when Encrypt would find an
  -- active key, and then both name the same key_id, which is that of the active snapshot.
  pub status_response-active_status :
      (s : Server) (cached : CachedStatus)
      → s.current ≡ ok cached
      → ((status_response c cached).healthz ≡ health_ok) ↔ (
          (a : KeySnapshot) × (active_status c s ≡ ok (a, (status_response c cached).key_id))
          × ((status_response c cached).key_id ≡ a.kubernetes_key_id)
          × (state_eq a.state active ≡ true))
  status_response-active_status s cached e = elim (Result-cases (validate_cached_status c cached)) [
    | inr (w, h) ↦ (
      λ p. absurd (response_invalid cached w h p),
      λ (a, p, _, _). absurd (active_status_invalid s cached w _ e h p),
    )
    | inl (a, h) ↦
        let (k, _, act) = validated_key_id cached a h in
        let (hz, key) = response_valid cached a h in
        (
          λ _. (
            a,
            subst (λ x. active_status c s ≡ ok (a, x)) (sym key)
                (active_status_valid s cached a e h),
            key ∙ k,
            act,
          ),
          λ _. hz,
        )
  ]
