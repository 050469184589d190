-- ===== src/Aad/RoundTrip.antt =====
-- What internal/aad/aad.go writes on Encrypt it reads back on Decrypt, also after the key was
-- rotated out.
use openbao_kubernetes_kms.Base.{
  ◌<◌, ◌≤◌, ◌≡◌, refl, subst, true, false, not, [], ◌∷◌, some, arith, any, length, Text, text_eq,
  text_eq_refl, pos, pos_part, neg_part, le_int, eq_int_iff, itoa, atoi-itoa, itoa_not_empty,
  int_limit, Result, ok, ◌==◌,
}
use openbao_kubernetes_kms.Crypto.{Crypto, CryptoLaws}
use openbao_kubernetes_kms.KeyRegistry.Snapshot.{
  KeySnapshot, SnapshotState, required, mode_eq, is_empty, normalize,
}
use openbao_kubernetes_kms.KeyRegistry.Normal.{normalize-IsNormalOf, derived_version}
use openbao_kubernetes_kms.KeyRegistry.Registry.{get}
use openbao_kubernetes_kms.Aad.Annotations.{
  provider_value, aad_version_v1, key_provider, key_key_id_hash, key_transit_key_version,
  key_transit_mount_hash, key_transit_key_hash, key_namespace_hash, key_plugin_version,
  key_aad_version, AnnotationMap, ParsedAnnotations, require_aad_mode, is_fqdn_annotation_key,
  validate_annotation_keys, required_value, hash_value, validate_hash_value, required_hash,
  optional_hash, annotations_of, build_annotations, parse_version, parse_annotations,
}
use openbao_kubernetes_kms.Aad.Canonical.{
  AadEnvelope, namespace_hash_of, validate_for_snapshot, envelope, build_canonical_from_parsed,
  build_canonical, encode_for_transit, prepare_decrypt,
}
use openbao_kubernetes_kms.Aad.Binding.{snapshot_envelope}

-- The eight keys are fully qualified names.
keys_valid :
    any
      (λ k. not (is_fqdn_annotation_key k))
      (key_provider ∷ key_key_id_hash ∷ key_transit_key_version ∷ key_transit_mount_hash
        ∷ key_transit_key_hash ∷ key_plugin_version ∷ key_aad_version ∷ key_namespace_hash ∷ [])
    ≡ false
unfolding is_fqdn_annotation_key
keys_valid = refl

keys_valid_7 :
    any
      (λ k. not (is_fqdn_annotation_key k))
      (key_provider ∷ key_key_id_hash ∷ key_transit_key_version ∷ key_transit_mount_hash
        ∷ key_transit_key_hash ∷ key_plugin_version ∷ key_aad_version ∷ [])
    ≡ false
unfolding is_fqdn_annotation_key
keys_valid_7 = refl

required_value_found :
    (m : AnnotationMap) (k v : Text)
    → get k m ≡ some v
    → is_empty v ≡ false
    → required_value m k ≡ ok v
unfolding required_value
required_value_found m k v g n = ground arith

module _ (c : Crypto) (laws : CryptoLaws c) where
  hash_size : (x : Text) → length (hash_value c x) ≡ 43
  unfolding hash_value
  hash_size x = laws.encode_size (c.sha256 x) (laws.sha256_size x)

  sized_not_empty : (x : Text) → length x ≡ 43 → is_empty x ≡ false
  sized_not_empty [] h = absurd (omega arith)
  sized_not_empty (b ∷ x) h = refl

  hash_valid : (x : Text) → validate_hash_value c (hash_value c x) ≡ ok tt
  unfolding validate_hash_value
  hash_valid x =
      let d : c.raw_url_decode (hash_value c x) ≡ some (c.sha256 x) =
        unfold hash_value in laws.decode_encode (c.sha256 x) in
      ground (arith, hash_size x, d, laws.sha256_size x)

  required_hash_found :
      (m : AnnotationMap) (k x : Text)
      → get k m ≡ some (hash_value c x)
      → required_hash c m k ≡ ok (hash_value c x)
  unfolding required_hash
  required_hash_found m k x g =
      let e = sized_not_empty (hash_value c x) (hash_size x) in ground (arith, hash_valid x)

  -- What the annotations of a normalized snapshot are parsed to.
  abbrev pub parsed_of : KeySnapshot → Text → ParsedAnnotations
  parsed_of n plugin_version = record {
    provider = provider_value;
    key_id_hash = hash_value c n.kubernetes_key_id;
    transit_key_version = n.transit_version;
    transit_mount_hash = hash_value c n.mount_id;
    transit_key_hash = hash_value c n.lineage_id;
    namespace_hash = namespace_hash_of c n.namespace;
    plugin_version = plugin_version;
    aad_version = aad_version_v1;
  }

  module _ (n : KeySnapshot) (p : Text) where
    keys_annotations_of :
        (ns : Text) → n.namespace ≡ ns → validate_annotation_keys (annotations_of c n p) ≡ ok tt
    unfolding validate_annotation_keys annotations_of
    keys_annotations_of [] e = rw e (ground (arith, keys_valid_7))
    keys_annotations_of (x ∷ ns) e = rw e (ground (arith, keys_valid))

    namespace_found :
        (ns : Text)
        → n.namespace ≡ ns
        → optional_hash c (annotations_of c n p) key_namespace_hash
          ≡ ok (namespace_hash_of c n.namespace)
    unfolding optional_hash annotations_of namespace_hash_of get text_eq
    namespace_found [] e = rw e refl
    namespace_found (x ∷ ns) e = rw e (ground (arith, hash_valid (x ∷ ns)))

    version_found :
        pos_part n.transit_version < int_limit
        → neg_part n.transit_version ≤ int_limit
        → le_int n.transit_version (pos 0) ≡ false
        → parse_version (itoa n.transit_version) ≡ ok n.transit_version
    unfolding parse_version
    version_found a b h = ground (arith, atoi-itoa n.transit_version a b)

    abbrev Entries : Type 0
    Entries =
        let m = annotations_of c n p in
        ((length m == 0) ≡ false)
        × (get key_provider m ≡ some provider_value)
        × (get key_key_id_hash m ≡ some (hash_value c n.kubernetes_key_id))
        × (get key_transit_mount_hash m ≡ some (hash_value c n.mount_id))
        × (get key_transit_key_hash m ≡ some (hash_value c n.lineage_id))
        × (get key_transit_key_version m ≡ some (itoa n.transit_version))
        × (get key_plugin_version m ≡ some p)
        × (get key_aad_version m ≡ some aad_version_v1)

    entries : Entries
    unfolding annotations_of get text_eq
    entries = (ground arith, refl, refl, refl, refl, refl, refl, refl)

    parse-annotations_of :
        is_empty p ≡ false
        → pos_part n.transit_version < int_limit
        → neg_part n.transit_version ≤ int_limit
        → le_int n.transit_version (pos 0) ≡ false
        → parse_annotations c (annotations_of c n p) ≡ ok (parsed_of n p)
    unfolding parse_annotations
    parse-annotations_of np a b h =
        let (e0, e1, e2, e3, e4, e5, e6, e7) = entries in
        let (d, ds, digits) = itoa_not_empty n.transit_version in
        let number : is_empty (itoa n.transit_version) ≡ false = rw digits refl in
        let m = annotations_of c n p in
        rw (
          e0,
          keys_annotations_of n.namespace refl,
          required_value_found m key_provider provider_value e1 refl,
          text_eq_refl provider_value,
          required_hash_found m key_key_id_hash n.kubernetes_key_id e2,
          required_hash_found m key_transit_mount_hash n.mount_id e3,
          required_hash_found m key_transit_key_hash n.lineage_id e4,
          namespace_found n.namespace refl,
          required_value_found m key_transit_key_version (itoa n.transit_version) e5 number,
          version_found a b h,
          required_value_found m key_plugin_version p e6 np,
          required_value_found m key_aad_version aad_version_v1 e7 refl,
          text_eq_refl aad_version_v1,
        )

  -- A snapshot validates against its own annotations, in whatever state it is found.
  parsed_of-validates :
      (t n : KeySnapshot) (x : SnapshotState) (p : Text)
      → normalize c t ≡ ok (record n { state = x })
      → mode_eq n.aad_mode required ≡ true
      → validate_for_snapshot c t (parsed_of n p) ≡ ok tt
  unfolding validate_for_snapshot require_aad_mode
  parsed_of-validates t n x p h q = rw (
    h,
    q,
    text_eq_refl provider_value,
    text_eq_refl aad_version_v1,
    (eq_int_iff n.transit_version n.transit_version).1 refl,
    text_eq_refl (hash_value c n.kubernetes_key_id),
    text_eq_refl (hash_value c n.mount_id),
    text_eq_refl (hash_value c n.lineage_id),
    text_eq_refl (namespace_hash_of c n.namespace),
  )

  build_annotations-parts :
      (s n : KeySnapshot) (p : Text) (m : AnnotationMap)
      → normalize c s ≡ ok n
      → build_annotations c s p ≡ ok m
      → (is_empty p ≡ false) × (mode_eq n.aad_mode required ≡ true) × (m ≡ annotations_of c n p)
  unfolding build_annotations require_aad_mode
  build_annotations-parts s n p m e h = ground arith

  module _ (marshal : AadEnvelope → Result Text) where
    canonical_of :
        (t n : KeySnapshot) (x : SnapshotState) (p text : Text)
        → normalize c t ≡ ok (record n { state = x })
        → marshal (snapshot_envelope c n) ≡ ok text
        → build_canonical_from_parsed c marshal t (parsed_of n p) ≡ ok text
    unfolding build_canonical_from_parsed envelope
    canonical_of t n x p text h e = rw h e

    -- The annotations that Encrypt writes for a key are accepted by Decrypt under every registry
    -- that still finds the key, in whatever state the rotation has left it, and both calls hand
    -- Transit the same associated data: the encoding of the key's own envelope.
    pub prepare_decrypt-build_annotations :
        (s t n : KeySnapshot) (x : SnapshotState) (p k text : Text) (m : AnnotationMap)
        (registry : Text → Result KeySnapshot)
        → normalize c s ≡ ok n
        → pos_part n.transit_version < int_limit
        → neg_part n.transit_version ≤ int_limit
        → build_annotations c s p ≡ ok m
        → registry k ≡ ok t
        → normalize c t ≡ ok (record n { state = x })
        → marshal (snapshot_envelope c n) ≡ ok text
        → (build_canonical c marshal s m ≡ ok text)
          × (prepare_decrypt c marshal registry k m
              ≡ ok (record {
                snapshot = t;
                annotations = parsed_of n p;
                canonical = text;
                transit_associated_data = encode_for_transit c text;
              }))
    unfolding build_canonical prepare_decrypt require_aad_mode
    prepare_decrypt-build_annotations s t n x p k text m registry hs a b hm hr ht hx =
        let (np, mode, me) = build_annotations-parts s n p m hs hm in
        let fs = normalize-IsNormalOf c s n hs in
        let ft = normalize-IsNormalOf c t (record n { state = x }) ht in
        let version = derived_version c n n.kubernetes_key_id fs.derived in
        let parsed : parse_annotations c m ≡ ok (parsed_of n p) =
          rw me (parse-annotations_of n p np a b version) in
        let mode' : mode_eq t.aad_mode required ≡ true =
          subst (λ y. mode_eq y required ≡ true) ft.aad_mode mode in
        (
          rw (
            parsed,
            parsed_of-validates s n n.state p hs mode,
            canonical_of s n n.state p text hs hx,
          ),
          rw (
            hr,
            mode',
            parsed,
            parsed_of-validates t n x p ht mode,
            canonical_of t n x p text ht hx,
          ),
        )
