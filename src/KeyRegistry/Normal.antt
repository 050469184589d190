-- ===== src/KeyRegistry/Normal.antt =====
-- What a snapshot that passed KeySnapshot.Normalize (internal/keyregistry/keyregistry.go) has.
use openbao_kubernetes_kms.Base.{
  ◌≡◌, refl, ◌∙◌, inl, inr, true, false, not, [], ◌++◌, arith, Text, length, pos, le_int, sub_nat,
  ok, untyped, >>=-eq-ok, fail_if-eq-ok, Bool-cases, text_eq, text_eq_iff, text_eq_refl,
  has_prefix-append, trim_prefix-append,
}
use openbao_kubernetes_kms.Crypto.{Crypto, CryptoLaws}
use openbao_kubernetes_kms.Clock.{Time, to_unix, of_unix}
use openbao_kubernetes_kms.KeyRegistry.Snapshot.{
  KeySnapshot, SnapshotState, state_is_valid, mode_is_valid, is_empty, normalize_created_at,
  validate_snapshot_identity, key_id_parts, append_parts, key_id_prefix, derive_key_id,
  parse_key_id, settle_key_id, normalize,
}

-- A normalized time is one second mark after the epoch, and stays itself.
pub normalize_created_at_idem :
    (t u : Time) → normalize_created_at t ≡ ok u → normalize_created_at u ≡ ok u
unfolding normalize_created_at to_unix of_unix sub_nat
normalize_created_at_idem t u h = ground arith

module _ (c : Crypto) where
  -- The text of a digest behind the prefix is a key_id.
  digest_parses :
      CryptoLaws c
      → (d : Text) → length d ≡ 32
      → parse_key_id c (key_id_prefix ++ c.raw_url_encode d)
        ≡ ok (key_id_prefix ++ c.raw_url_encode d)
  unfolding parse_key_id
  digest_parses laws d n =
      let size : length (c.raw_url_encode d) ≡ 43 = laws.encode_size d n in
      rw (
        size,
        has_prefix-append key_id_prefix (c.raw_url_encode d),
        trim_prefix-append key_id_prefix (c.raw_url_encode d),
        laws.decode_encode d,
        n,
      )

  -- A derived key_id is well formed.
  pub parse-derive :
      CryptoLaws c
      → (s : KeySnapshot) (k : Text) → derive_key_id c s ≡ ok k
      → parse_key_id c k ≡ ok k
  unfolding derive_key_id
  parse-derive laws s k h =
      let (_, _, h1) = >>=-eq-ok (validate_snapshot_identity s) _ h in
      let (t, _, h2) = >>=-eq-ok (normalize_created_at s.created_at) _ h1 in
      let input = append_parts [] (key_id_parts s (to_unix t)) in
      let e : key_id_prefix ++ c.raw_url_encode (c.sha256 input) ≡ k = ground (arith, h2) in
      rw e at (digest_parses laws (c.sha256 input) (laws.sha256_size input))

  -- What normalization keeps and what it guarantees.
  pub record IsNormalOf (s t : KeySnapshot) : Type 0 where
    pub provider_name : t.provider_name ≡ s.provider_name
    pub cluster_id : t.cluster_id ≡ s.cluster_id
    pub instance_id : t.instance_id ≡ s.instance_id
    pub namespace : t.namespace ≡ s.namespace
    pub mount_id : t.mount_id ≡ s.mount_id
    pub lineage_id : t.lineage_id ≡ s.lineage_id
    pub transit_version : t.transit_version ≡ s.transit_version
    pub state : t.state ≡ s.state
    pub aad_mode : t.aad_mode ≡ s.aad_mode
    pub valid_state : state_is_valid t.state ≡ true
    pub valid_mode : mode_is_valid t.aad_mode ≡ true
    pub created_at : normalize_created_at s.created_at ≡ ok t.created_at
    pub derived : derive_key_id c t ≡ ok t.kubernetes_key_id
    pub kept : is_empty s.kubernetes_key_id ≡ false → t.kubernetes_key_id ≡ s.kubernetes_key_id

  -- A well-formed key_id is parsed to itself.
  pub parse_key_id_same : (k p : Text) → parse_key_id c k ≡ ok p → p ≡ k
  unfolding parse_key_id
  parse_key_id_same k p h = ground arith

  -- The key_id and the state do not enter the derivation.
  pub derive-relabel :
      (s : KeySnapshot) (k : Text) (x : SnapshotState)
      → derive_key_id c (record s { kubernetes_key_id = k; state = x }) ≡ derive_key_id c s
  unfolding derive_key_id validate_snapshot_identity
  derive-relabel s k x = refl

  settle_cases :
      (s t : KeySnapshot) (d : Text)
      → settle_key_id c s d ≡ ok t
      → (t ≡ record s { kubernetes_key_id = d })
        × (is_empty s.kubernetes_key_id ≡ false → t.kubernetes_key_id ≡ s.kubernetes_key_id)
  unfolding settle_key_id
  settle_cases s t d h = elim (Bool-cases (is_empty s.kubernetes_key_id)) [
    | inl e ↦ let h' = rw (e, settle_key_id) at h in (cc, λ n. absurd (cc))
    | inr e ↦
        let (p, q, h1) =
          >>=-eq-ok (parse_key_id c s.kubernetes_key_id) _ (rw (e, settle_key_id) at h) in
        let (f, h2) = fail_if-eq-ok (not (text_eq p d)) untyped _ h1 in
        ground (arith, parse_key_id_same s.kubernetes_key_id p q, text_eq_iff p d, h2)
  ]

  pub normalize-IsNormalOf : (s t : KeySnapshot) → normalize c s ≡ ok t → IsNormalOf s t
  unfolding normalize
  normalize-IsNormalOf s t h =
      let (p1, h1) = fail_if-eq-ok (not (state_is_valid s.state)) untyped _ h in
      let (p2, h2) = fail_if-eq-ok (not (mode_is_valid s.aad_mode)) untyped _ h1 in
      let (u, p3, h3) = >>=-eq-ok (normalize_created_at s.created_at) _ h2 in
      let (d, p4, h4) = >>=-eq-ok (derive_key_id c (record s { created_at = u })) _ h3 in
      let (e, k) = settle_cases (record s { created_at = u }) t d h4 in
      rw e (record {
        provider_name = refl;
        cluster_id = refl;
        instance_id = refl;
        namespace = refl;
        mount_id = refl;
        lineage_id = refl;
        transit_version = refl;
        state = refl;
        aad_mode = refl;
        valid_state = ground arith;
        valid_mode = ground arith;
        created_at = p3;
        derived = derive-relabel (record s { created_at = u }) d s.state ∙ p4;
        kept = rw e at k;
      })

  -- Normalizing a normalized snapshot changes nothing.
  pub normalize_idem :
      CryptoLaws c → (s t : KeySnapshot) → normalize c s ≡ ok t → normalize c t ≡ ok t
  unfolding normalize settle_key_id
  normalize_idem laws s t h =
      let n = normalize-IsNormalOf s t h in
      ground (
        arith,
        normalize_created_at_idem s.created_at t.created_at n.created_at,
        n.derived,
        parse-derive laws t t.kubernetes_key_id n.derived,
        text_eq_refl t.kubernetes_key_id,
      )

  -- A snapshot with a key_id has a positive version.
  pub derived_version :
      (s : KeySnapshot) (k : Text)
      → derive_key_id c s ≡ ok k
      → le_int s.transit_version (pos 0) ≡ false
  unfolding derive_key_id validate_snapshot_identity
  derived_version s k h = ground arith
