-- ===== src/Aad/Canonical.antt =====
-- internal/aad/aad.go: parsed annotations against a key snapshot, and the canonical associated data.
-- `marshal` stands for encoding/json on the envelope.
use openbao_kubernetes_kms.Base.{
  not, [], ◌∷◌, if◌then◌else◌, Text, codes, text_eq, eq_int, itoa, Result, ok, Error, fail_if,
  ◌>>=◌, ◌>>◌, err_annotation_mismatch,
}
use openbao_kubernetes_kms.Crypto.{Crypto}
use openbao_kubernetes_kms.KeyRegistry.Snapshot.{KeySnapshot, is_empty, normalize}
use openbao_kubernetes_kms.Aad.Annotations.{
  provider_value, aad_version_v1, AnnotationMap, ParsedAnnotations, require_aad_mode, hash_value,
  parse_annotations,
}

pub record AadEnvelope : Type 0 where
  pub aad_version : Text
  pub purpose : Text
  pub provider : Text
  pub provider_name : Text
  pub cluster_id_hash : Text
  pub instance_hash : Text
  pub namespace_hash : Text
  pub transit_mount_hash : Text
  pub transit_key_hash : Text
  pub key_id_hash : Text
  pub key_version : Text

pub record DecryptAad : Type 0 where
  pub snapshot : KeySnapshot
  pub annotations : ParsedAnnotations
  pub canonical : Text
  pub transit_associated_data : Text

abbrev pub purpose_value : Text
purpose_value = codes "kubernetes-etcd-kms-v2"

abbrev mismatch : Error
mismatch = err_annotation_mismatch ∷ []

module _ (c : Crypto) where
  -- The expected hash of a namespace: the empty text for the empty namespace.
  unfoldable pub namespace_hash_of : Text → Text
  namespace_hash_of namespace = if is_empty namespace then [] else hash_value c namespace

  -- ValidateForSnapshot
  unfoldable pub validate_for_snapshot : KeySnapshot → ParsedAnnotations → Result (Unit {0})
  unfolding namespace_hash_of
  validate_for_snapshot snapshot a = do
    n ← normalize c snapshot
    require_aad_mode n
    fail_if (not (text_eq a.provider provider_value)) mismatch
    fail_if (not (text_eq a.aad_version aad_version_v1)) mismatch
    fail_if (not (eq_int a.transit_key_version n.transit_version)) mismatch
    fail_if (not (text_eq a.key_id_hash (hash_value c n.kubernetes_key_id))) mismatch
    fail_if (not (text_eq a.transit_mount_hash (hash_value c n.mount_id))) mismatch
    fail_if (not (text_eq a.transit_key_hash (hash_value c n.lineage_id))) mismatch
    fail_if (not (text_eq a.namespace_hash (namespace_hash_of n.namespace))) mismatch

  unfoldable pub envelope : KeySnapshot → ParsedAnnotations → AadEnvelope
  envelope n a = record {
    aad_version = aad_version_v1;
    purpose = purpose_value;
    provider = provider_value;
    provider_name = n.provider_name;
    cluster_id_hash = hash_value c n.cluster_id;
    instance_hash = hash_value c n.instance_id;
    namespace_hash = a.namespace_hash;
    transit_mount_hash = a.transit_mount_hash;
    transit_key_hash = a.transit_key_hash;
    key_id_hash = a.key_id_hash;
    key_version = itoa n.transit_version;
  }

  -- EncodeForTransit
  unfoldable pub encode_for_transit : Text → Text
  encode_for_transit canonical = c.std_encode canonical

  module _ (marshal : AadEnvelope → Result Text) where
    -- buildCanonicalFromParsed
    unfoldable pub build_canonical_from_parsed : KeySnapshot → ParsedAnnotations → Result Text
    unfolding envelope
    build_canonical_from_parsed snapshot a = do n ← normalize c snapshot; marshal (envelope n a)

    -- BuildCanonical
    unfoldable pub build_canonical : KeySnapshot → AnnotationMap → Result Text
    build_canonical snapshot m = do
      parsed ← parse_annotations c m
      validate_for_snapshot snapshot parsed
      build_canonical_from_parsed snapshot parsed

    -- PrepareDecrypt; `registry` is the lookup of the interface SnapshotLookup.
    unfoldable pub prepare_decrypt :
        (Text → Result KeySnapshot) → Text → AnnotationMap → Result DecryptAad
    prepare_decrypt registry key_id m = do
      snapshot ← registry key_id
      require_aad_mode snapshot
      parsed ← parse_annotations c m
      validate_for_snapshot snapshot parsed
      canonical ← build_canonical_from_parsed snapshot parsed
      ok (record {
        snapshot = snapshot;
        annotations = parsed;
        canonical = canonical;
        transit_associated_data = encode_for_transit canonical;
      })
