-- ===== src/Kms/EndToEnd.antt =====
-- internal/kmsv2/server.go from Encrypt to Decrypt: what is encrypted is read back, and Transit is
-- asked to decrypt only what was checked.
use openbao_kubernetes_kms.Base.{
  ◌<◌, ◌≤◌, ◌≡◌, refl, ◌∙◌, subst, inl, inr, Bool, true, false, not, ◌&&◌, some, arith, Text,
  Option, none, error_is, err, err_unknown_key_id, ℤ, pos, pos_part, neg_part, eq_int, int_limit,
  Result, ok, fail_if-eq-ok, >>=-eq-ok, Result-cases, Bool-cases, wrap_error,
  err_key_metadata_refresh, Sentinel, Error,
}
use openbao_kubernetes_kms.Crypto.{Crypto, CryptoLaws}
use openbao_kubernetes_kms.KeyRegistry.Snapshot.{KeySnapshot, SnapshotState, is_empty, normalize}
use openbao_kubernetes_kms.KeyRegistry.Normal.{normalize_idem}
use openbao_kubernetes_kms.Aad.Annotations.{AnnotationMap, build_annotations}
use openbao_kubernetes_kms.Aad.Canonical.{AadEnvelope, DecryptAad, build_canonical, prepare_decrypt}
use openbao_kubernetes_kms.Aad.Binding.{IsBound, snapshot_envelope, prepare_decrypt-IsBound}
use openbao_kubernetes_kms.Aad.RoundTrip.{prepare_decrypt-build_annotations}
use openbao_kubernetes_kms.Kms.Limits.{
  DecryptRequest, EncryptResponse, Limiter, try_acquire, validate_decrypt_request_limits,
  validate_encrypt_response_limits, response_limits-request_limits,
}
use openbao_kubernetes_kms.Kms.Server.{
  TransitEncryptRequest, TransitEncryptResponse, TransitDecryptRequest, Server, Lookup, cached_or,
  prepare_again, validate_cached_status, active_status, encrypt, prepare_refreshed, decrypt_request,
  decrypt,
}

-- The request that brings an Encrypt response back.
abbrev pub request_of : EncryptResponse → DecryptRequest
request_of r = record { ciphertext = r.ciphertext; key_id = r.key_id; annotations = r.annotations }

module _ (c : Crypto) (marshal : AadEnvelope → Result Text) (valid : Text → Bool) where
  -- The parts of an Encrypt that succeeded, for the active snapshot `a`.
  pub record Encrypted (s : Server) (plaintext : Text) (a : KeySnapshot) (r : EncryptResponse)
      : Type 0 where
    pub canonical : Text
    pub key_version : ℤ
    pub annotated : build_annotations c a s.plugin_version ≡ ok r.annotations
    pub bound : build_canonical c marshal a r.annotations ≡ ok canonical
    pub sent :
        s.transit_encrypt (record {
          plaintext = plaintext;
          associated_data = canonical;
          key_version = a.transit_version;
        })
        ≡ ok (record { ciphertext = r.ciphertext; key_version = key_version })
    pub not_empty : is_empty r.ciphertext ≡ false
    pub limits : validate_encrypt_response_limits valid r ≡ ok tt

  encrypt-Encrypted :
      (s : Server) (l : Limiter) (plaintext k : Text) (a : KeySnapshot) (r : EncryptResponse)
      → active_status c s ≡ ok (a, k)
      → encrypt c marshal valid s l plaintext ≡ ok r
      → Encrypted s plaintext a r × (r.key_id ≡ k)
  unfolding encrypt
  encrypt-Encrypted s l plaintext k a r e h =
      let (_, h1) = fail_if-eq-ok (not (try_acquire l).1) _ _ h in
      let (_, h2) = fail_if-eq-ok (is_empty plaintext) _ _ h1 in
      let h3 = rw e at h2 in
      let (m, p, h4) = >>=-eq-ok (build_annotations c a s.plugin_version) _ h3 in
      let (x, q, h5) = >>=-eq-ok (build_canonical c marshal a m) _ h4 in
      let (t, u, h6) = >>=-eq-ok (s.transit_encrypt _) _ h5 in
      let (v, h7) = fail_if-eq-ok (is_empty t.ciphertext) _ _ h6 in
      let (_, h8) =
        fail_if-eq-ok
          (not (eq_int t.key_version (pos 0)) && not (eq_int t.key_version a.transit_version)) _ _
          h7 in
      let (_, w, h9) = >>=-eq-ok (validate_encrypt_response_limits valid _) _ h8 in
      let same : record { ciphertext = t.ciphertext; key_id = k; annotations = m } ≡ r =
        ground (arith, h9) in
      subst (λ y. Encrypted s plaintext a y × (y.key_id ≡ k)) same
        (
          record {
            canonical = x;
            key_version = t.key_version;
            annotated = p;
            bound = q;
            sent = u;
            not_empty = v;
            limits = w;
          },
          refl,
        )

  -- The active snapshot of a healthy status is normal.
  active_status_normal :
      CryptoLaws c
      → (s : Server) (a : KeySnapshot) (k : Text) → active_status c s ≡ ok (a, k)
      → normalize c a ≡ ok a
  unfolding active_status validate_cached_status
  active_status_normal laws s a k h =
      let (cached, _, h1) = >>=-eq-ok (cached_or s.current) _ h in
      let (b, p, h2) = >>=-eq-ok (validate_cached_status c cached) _ h1 in
      let same : b ≡ a = ground (arith, h2) in
      subst (λ y. normalize c y ≡ ok y) same
        (elim (Result-cases (normalize c cached.active_snapshot)) [
          | inr (e, q) ↦ absurd (ground arith)
          | inl (n, q) ↦
              let n_same : n ≡ b = ground arith in
              subst (λ y. normalize c y ≡ ok y) n_same
                (normalize_idem c laws cached.active_snapshot n q)
        ])

  prepare_again_ok :
      (o : Option (Text → Result Lookup)) (k : Text) (m : AnnotationMap) (p : DecryptAad)
      → prepare_again c marshal valid o k m (ok p) ≡ ok p
  unfolding prepare_again
  prepare_again_ok none k m p = refl
  prepare_again_ok (some refresh) k m p = refl

  -- What Encrypt returned is decrypted to the same plaintext, by any server whose registry still
  -- finds the key_id, whatever state the rotation has left that key in, so long as its Transit
  -- undoes the encryption under the same associated data and a slot is free.
  pub decrypt-encrypt :
      CryptoLaws c
      → (s d : Server) (l l' : Limiter) (plaintext text k : Text) (a t : KeySnapshot)
        (x : SnapshotState) (r : EncryptResponse)
      → encrypt c marshal valid s l plaintext ≡ ok r
      → active_status c s ≡ ok (a, k)
      → pos_part a.transit_version < int_limit
      → neg_part a.transit_version ≤ int_limit
      → marshal (snapshot_envelope c a) ≡ ok text
      → d.registry r.key_id ≡ ok t
      → normalize c t ≡ ok (record a { state = x })
      → ((q : TransitEncryptRequest) (y : TransitEncryptResponse)
          → s.transit_encrypt q ≡ ok y
          → d.transit_decrypt
              (record { ciphertext = y.ciphertext; associated_data = q.associated_data })
            ≡ ok q.plaintext)
      → (try_acquire l').1 ≡ true
      → decrypt c marshal valid d l' (request_of r) ≡ ok plaintext
  unfolding decrypt decrypt_request prepare_refreshed
  decrypt-encrypt laws s d l l' plaintext text k a t x r h e b b' hx found ht undoes free =
      let (w, _) = encrypt-Encrypted s l plaintext k a r e h in
      let (bound, prepared) =
        prepare_decrypt-build_annotations c laws marshal a t a x s.plugin_version r.key_id text
          r.annotations d.registry (active_status_normal laws s a k e) b b' w.annotated found ht
          hx in
      let same : w.canonical ≡ text = ground (arith, w.bound, bound) in
      let back =
        subst
          (λ y.
            d.transit_decrypt (record { ciphertext = r.ciphertext; associated_data = y })
            ≡ ok plaintext)
          same (undoes _ _ w.sent) in
      rw
        (
          free,
          w.not_empty,
          response_limits-request_limits valid r w.limits,
          prepared,
          prepare_again_ok d.key_refresher r.key_id r.annotations _,
        )
        back

  wrap_error-ok :
      (w : Sentinel) (r : Result Lookup) (found : Lookup) → wrap_error w r ≡ ok found → r ≡ ok found
  wrap_error-ok w (ok a) found h = h
  wrap_error-ok w (err e) found h = absurd (cc)

  -- The registries that a server may look a key_id up in: its own, or, when its own does not know
  -- the key_id, the one that its refresher left.
  pub data Consulted (s : Server) (key_id : Text) (m : AnnotationMap) (registry : Lookup)
      : Type 0 where
    own : registry ≡ s.registry → Consulted s key_id m registry
    refreshed :
        (refresh : Text → Result Lookup) (e : Error)
        → s.key_refresher ≡ some refresh
        → prepare_decrypt c marshal s.registry key_id m ≡ err e
        → error_is e err_unknown_key_id ≡ true
        → refresh key_id ≡ ok registry
        → Consulted s key_id m registry

  prepare_again-prepare_decrypt :
      (s : Server) (o : Option (Text → Result Lookup)) (k : Text) (m : AnnotationMap)
      (first : Result DecryptAad) (p : DecryptAad)
      → s.key_refresher ≡ o
      → prepare_decrypt c marshal s.registry k m ≡ first
      → prepare_again c marshal valid o k m first ≡ ok p
      → (found : Lookup) × Consulted s k m found × (prepare_decrypt c marshal found k m ≡ ok p)
  unfolding prepare_again
  prepare_again-prepare_decrypt s none k m first p same e h = (s.registry, own refl, e ∙ h)
  prepare_again-prepare_decrypt s (some refresh) k m (ok q) p same e h =
      (s.registry, own refl, e ∙ h)
  prepare_again-prepare_decrypt s (some refresh) k m (err w) p same e h =
      elim (Bool-cases (error_is w err_unknown_key_id)) [
        | inr u ↦ absurd (ground arith)
        | inl u ↦
            let (found, q, h1) =
              >>=-eq-ok (wrap_error err_key_metadata_refresh (refresh k)) _
                (rw (u, prepare_again) at h) in
            (
              found,
              refreshed refresh w same e u
                  (wrap_error-ok err_key_metadata_refresh (refresh k) found q),
              h1,
            )
      ]

  -- A request reaches Transit's decryption only when a slot was free, its fields were within the
  -- protocol's bounds, and its annotations were bound to the snapshot that a registry found under
  -- its key_id: the server's own, or, when that one did not know the key_id, the one that the
  -- server's refresher left for it; the associated data sent is made of that snapshot alone.
  pub decrypt_request-IsBound :
      (s : Server) (l : Limiter) (r : DecryptRequest) (q : TransitDecryptRequest)
      → decrypt_request c marshal valid s l r ≡ ok q
      → ((try_acquire l).1 ≡ true)
        × (validate_decrypt_request_limits valid r ≡ ok tt)
        × (q.ciphertext ≡ r.ciphertext)
        × ((registry : Lookup) × (p : DecryptAad) × (n : KeySnapshot) × Consulted s r.key_id
              r.annotations registry
            × IsBound c marshal registry r.key_id r.annotations p n
            × (q.associated_data ≡ p.canonical))
  unfolding decrypt_request prepare_refreshed
  decrypt_request-IsBound s l r q h =
      let (free, h1) = fail_if-eq-ok (not (try_acquire l).1) _ _ h in
      let (_, h2) = fail_if-eq-ok (is_empty r.ciphertext) _ _ h1 in
      let (_, limits, h3) = >>=-eq-ok (validate_decrypt_request_limits valid r) _ h2 in
      let (p, prepared, h4) =
        >>=-eq-ok (prepare_refreshed c marshal valid s r.key_id r.annotations) _ h3 in
      let (registry, consulted, at) =
        prepare_again-prepare_decrypt s s.key_refresher r.key_id r.annotations _ p refl refl
          prepared in
      let (n, bound) = prepare_decrypt-IsBound c marshal registry r.key_id r.annotations p at in
      (
        ground arith,
        limits,
        ground (arith, h4),
        (registry, p, n, consulted, bound, ground (arith, h4)),
      )
