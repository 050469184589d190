-- ===== src/Aad/Binding.antt =====
-- What a decrypt request that internal/aad/aad.go lets through is bound to.
use openbao_kubernetes_kms.Base.{
  ◌≡◌, refl, subst, true, not, arith, Text, text_eq, text_eq_iff, eq_int, eq_int_iff, itoa, Result,
  ok, fail_if-eq-ok, >>=-eq-ok,
}
use openbao_kubernetes_kms.Crypto.{Crypto}
use openbao_kubernetes_kms.KeyRegistry.Snapshot.{KeySnapshot, required, mode_eq, normalize}
use openbao_kubernetes_kms.KeyRegistry.Registry.Lookup.{mode_eq_iff}
use openbao_kubernetes_kms.Aad.Annotations.{
  provider_value, aad_version_v1, AnnotationMap, ParsedAnnotations, require_aad_mode, hash_value,
  parse_annotations,
}
use openbao_kubernetes_kms.Aad.Canonical.{
  AadEnvelope, DecryptAad, purpose_value, namespace_hash_of, validate_for_snapshot, envelope,
  build_canonical_from_parsed, encode_for_transit, prepare_decrypt,
}

module _ (c : Crypto) where
  -- The envelope of a normalized snapshot, written from the snapshot alone.
  abbrev pub snapshot_envelope : KeySnapshot → AadEnvelope
  snapshot_envelope n = record {
    aad_version = aad_version_v1;
    purpose = purpose_value;
    provider = provider_value;
    provider_name = n.provider_name;
    cluster_id_hash = hash_value c n.cluster_id;
    instance_hash = hash_value c n.instance_id;
    namespace_hash = namespace_hash_of c n.namespace;
    transit_mount_hash = hash_value c n.mount_id;
    transit_key_hash = hash_value c n.lineage_id;
    key_id_hash = hash_value c n.kubernetes_key_id;
    key_version = itoa n.transit_version;
  }

  -- The annotations say of the snapshot what the snapshot says of itself.
  pub record Match (n : KeySnapshot) (a : ParsedAnnotations) : Type 0 where
    pub provider : a.provider ≡ provider_value
    pub aad_version : a.aad_version ≡ aad_version_v1
    pub transit_key_version : a.transit_key_version ≡ n.transit_version
    pub key_id_hash : a.key_id_hash ≡ hash_value c n.kubernetes_key_id
    pub transit_mount_hash : a.transit_mount_hash ≡ hash_value c n.mount_id
    pub transit_key_hash : a.transit_key_hash ≡ hash_value c n.lineage_id
    pub namespace_hash : a.namespace_hash ≡ namespace_hash_of c n.namespace

  validated-Match :
      (s : KeySnapshot) (a : ParsedAnnotations)
      → validate_for_snapshot c s a ≡ ok tt
      → (n : KeySnapshot) × (normalize c s ≡ ok n)
        × (mode_eq n.aad_mode required ≡ true)
        × Match n a
  unfolding validate_for_snapshot require_aad_mode
  validated-Match s a h =
      let (n, p, h1) = >>=-eq-ok (normalize c s) _ h in
      let (m, h2) = fail_if-eq-ok (not (mode_eq n.aad_mode required)) _ _ h1 in
      let (q1, h3) = fail_if-eq-ok (not (text_eq a.provider provider_value)) _ _ h2 in
      let (q2, h4) = fail_if-eq-ok (not (text_eq a.aad_version aad_version_v1)) _ _ h3 in
      let (q3, h5) = fail_if-eq-ok (not (eq_int a.transit_key_version n.transit_version)) _ _ h4 in
      let (q4, h6) =
        fail_if-eq-ok (not (text_eq a.key_id_hash (hash_value c n.kubernetes_key_id))) _ _ h5 in
      let (q5, h7) =
        fail_if-eq-ok (not (text_eq a.transit_mount_hash (hash_value c n.mount_id))) _ _ h6 in
      let (q6, h8) =
        fail_if-eq-ok (not (text_eq a.transit_key_hash (hash_value c n.lineage_id))) _ _ h7 in
      (
        n,
        p,
        ground (arith, m),
        record {
          provider = ground (arith, q1, text_eq_iff a.provider provider_value);
          aad_version = ground (arith, q2, text_eq_iff a.aad_version aad_version_v1);
          transit_key_version =
              ground (arith, q3, eq_int_iff a.transit_key_version n.transit_version);
          key_id_hash =
              ground (arith, q4, text_eq_iff a.key_id_hash (hash_value c n.kubernetes_key_id));
          transit_mount_hash =
              ground (arith, q5, text_eq_iff a.transit_mount_hash (hash_value c n.mount_id));
          transit_key_hash =
              ground (arith, q6, text_eq_iff a.transit_key_hash (hash_value c n.lineage_id));
          namespace_hash =
              ground (arith, h8, text_eq_iff a.namespace_hash (namespace_hash_of c n.namespace));
        },
      )

  pub matched_envelope :
      (n : KeySnapshot) (a : ParsedAnnotations) → Match n a → envelope c n a ≡ snapshot_envelope n
  unfolding envelope
  matched_envelope n a m = ground arith

  module _ (marshal : AadEnvelope → Result Text) where
    -- The normalized snapshot `n` that a prepared decrypt is bound to, and what it determines.
    pub record IsBound (registry : Text → Result KeySnapshot) (k : Text) (m : AnnotationMap)
        (d : DecryptAad) (n : KeySnapshot) : Type 0 where
      pub found : registry k ≡ ok d.snapshot
      pub normal : normalize c d.snapshot ≡ ok n
      pub mode : d.snapshot.aad_mode ≡ required
      pub parsed : parse_annotations c m ≡ ok d.annotations
      pub match : Match n d.annotations
      pub canonical : marshal (snapshot_envelope n) ≡ ok d.canonical
      pub associated : d.transit_associated_data ≡ encode_for_transit c d.canonical

    prepared :
        (registry : Text → Result KeySnapshot) (k : Text) (m : AnnotationMap) (s n : KeySnapshot)
        (a : ParsedAnnotations) (t : Text)
        → registry k ≡ ok s
        → normalize c s ≡ ok n
        → mode_eq s.aad_mode required ≡ true
        → parse_annotations c m ≡ ok a
        → Match n a
        → build_canonical_from_parsed c marshal s a ≡ ok t
        → (d : DecryptAad)
        → record {
          snapshot = s;
          annotations = a;
          canonical = t;
          transit_associated_data = encode_for_transit c t;
        }
          ≡ d
        → IsBound registry k m d n
    unfolding build_canonical_from_parsed
    prepared registry k m s n a t p e q r match u d made =
        subst (λ d. IsBound registry k m d n) made
          (record {
            found = p;
            normal = e;
            mode = (mode_eq_iff s.aad_mode required).0 q;
            parsed = r;
            match = match;
            canonical =
                subst (λ x. marshal x ≡ ok t) (matched_envelope n a match) (ground (arith, u, e));
            associated = refl;
          })

    -- A decrypt request is let through only for a key_id that the registry knows, under the
    -- required AAD mode, with annotations that agree in every hash, in the provider, the schema and
    -- the Transit version with the snapshot found; and the associated data is then the encoding of
    -- an envelope that is made of the snapshot alone, so no annotation can change it.
    pub prepare_decrypt-IsBound :
        (registry : Text → Result KeySnapshot) (k : Text) (m : AnnotationMap) (d : DecryptAad)
        → prepare_decrypt c marshal registry k m ≡ ok d
        → (n : KeySnapshot) × IsBound registry k m d n
    unfolding prepare_decrypt require_aad_mode
    prepare_decrypt-IsBound registry k m d h =
        let (s, p, h1) = >>=-eq-ok (registry k) _ h in
        let (q, h2) = fail_if-eq-ok (not (mode_eq s.aad_mode required)) _ _ h1 in
        let (a, r, h3) = >>=-eq-ok (parse_annotations c m) _ h2 in
        let (_, v, h4) = >>=-eq-ok (validate_for_snapshot c s a) _ h3 in
        let (n, e, mode, match) = validated-Match s a (cc v) in
        let (t, u, h5) = >>=-eq-ok (build_canonical_from_parsed c marshal s a) _ h4 in
        (n, prepared registry k m s n a t p e (ground (arith, q)) r match u d (ground (arith, h5)))
