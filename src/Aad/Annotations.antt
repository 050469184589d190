-- ===== src/Aad/Annotations.antt =====
-- internal/aad/aad.go: the annotations that Encrypt returns and how Decrypt reads them. A Go map is
-- an association list.
use openbao_kubernetes_kms.Base.{
  ℕ, Bool, not, ◌&&◌, ◌||◌, List, [], ◌∷◌, none, some, any, ltb, leb, ◌==◌, if◌then◌else◌, Text,
  codes, text_eq, has_prefix, length, ℤ, pos, le_int, itoa, atoi, Result, ok, err, Error, fail_if,
  ◌>>=◌, ◌>>◌, err_invalid_annotations, err_aad_required,
}
use openbao_kubernetes_kms.Crypto.{Crypto}
use openbao_kubernetes_kms.KeyRegistry.Snapshot.{
  KeySnapshot, required, mode_eq, is_empty, split, has_suffix, normalize,
}
use openbao_kubernetes_kms.KeyRegistry.Registry.{get}

abbrev pub provider_value : Text
provider_value = codes "openbao-transit"

abbrev pub aad_version_v1 : Text
aad_version_v1 = codes "v1"

abbrev pub key_provider : Text
key_provider = codes "provider.kms.openbao.org"

abbrev pub key_key_id_hash : Text
key_key_id_hash = codes "key-id-hash.kms.openbao.org"

abbrev pub key_transit_key_version : Text
key_transit_key_version = codes "transit-key-version.kms.openbao.org"

abbrev pub key_transit_mount_hash : Text
key_transit_mount_hash = codes "transit-mount-hash.kms.openbao.org"

abbrev pub key_transit_key_hash : Text
key_transit_key_hash = codes "transit-key-hash.kms.openbao.org"

abbrev pub key_namespace_hash : Text
key_namespace_hash = codes "openbao-namespace-hash.kms.openbao.org"

abbrev pub key_plugin_version : Text
key_plugin_version = codes "plugin-version.kms.openbao.org"

abbrev pub key_aad_version : Text
key_aad_version = codes "aad-version.kms.openbao.org"

abbrev pub AnnotationMap : Type 0
AnnotationMap = List (Text × Text)

pub record ParsedAnnotations : Type 0 where
  pub provider : Text
  pub key_id_hash : Text
  pub transit_key_version : ℤ
  pub transit_mount_hash : Text
  pub transit_key_hash : Text
  pub namespace_hash : Text
  pub plugin_version : Text
  pub aad_version : Text

abbrev pub invalid : Error
invalid = err_invalid_annotations ∷ []

-- RequireAADMode
unfoldable pub require_aad_mode : KeySnapshot → Result (Unit {0})
require_aad_mode s = fail_if (not (mode_eq s.aad_mode required)) (err_aad_required ∷ [])

abbrev is_label_byte : ℕ → Bool
is_label_byte c = (leb b'a' c && leb c b'z') || ((leb b'0' c && leb c b'9') || c == b'-')

-- isDNS1123Label. A byte from 128 on belongs to no ASCII rune, so testing bytes tests runes.
unfoldable pub is_dns1123_label : Text → Bool
unfolding has_prefix has_suffix
is_dns1123_label label =
    not (
      is_empty label
      || (ltb 63 (length label) || (has_prefix label (codes "-") || has_suffix label (codes "-"))))
    && not (any (λ c. not (is_label_byte c)) label)

-- isFQDNAnnotationKey
unfoldable pub is_fqdn_annotation_key : Text → Bool
unfolding is_dns1123_label split
is_fqdn_annotation_key key =
    not (
      is_empty key
      || (ltb 253 (length key) || (any (λ c. c == b'/') key || not (any (λ c. c == b'.') key))))
    && not (any (λ l. not (is_dns1123_label l)) (split b'.' key))

-- validateAnnotationKeys
unfoldable pub validate_annotation_keys : AnnotationMap → Result (Unit {0})
validate_annotation_keys m = fail_if (any (λ (k, v). not (is_fqdn_annotation_key k)) m) invalid

-- requiredValue: a missing key and an empty value are refused alike.
unfoldable pub required_value : AnnotationMap → Text → Result Text
required_value m key = elim (get key m) [
  | none ↦ err invalid
  | some value ↦ if is_empty value then err invalid else ok value
]

-- strconv.Atoi with the check that the version is positive.
unfoldable pub parse_version : Text → Result ℤ
parse_version text = elim (atoi text) [
  | none ↦ err invalid
  | some v ↦ if le_int v (pos 0) then err invalid else ok v
]

module _ (c : Crypto) where
  open c use {sha256, raw_url_encode, raw_url_decode}

  -- HashValue
  unfoldable pub hash_value : Text → Text
  hash_value value = raw_url_encode (sha256 value)

  -- validateHashValue
  unfoldable pub validate_hash_value : Text → Result (Unit {0})
  validate_hash_value value = do
    fail_if (not (length value == 43)) invalid
    elim (raw_url_decode value) [
      | none ↦ err invalid
      | some decoded ↦ fail_if (not (length decoded == 32)) invalid
    ]

  -- requiredHash
  unfoldable pub required_hash : AnnotationMap → Text → Result Text
  unfolding required_value validate_hash_value
  required_hash m key = do value ← required_value m key; validate_hash_value value; ok value

  -- optionalHash
  unfoldable pub optional_hash : AnnotationMap → Text → Result Text
  unfolding validate_hash_value
  optional_hash m key = elim (get key m) [
    | none ↦ ok []
    | some value ↦ do validate_hash_value value; ok value
  ]

  -- The entry for a namespace that is not empty.
  abbrev namespace_entry : Text → AnnotationMap
  namespace_entry namespace =
      if is_empty namespace then [] else (key_namespace_hash, hash_value namespace) ∷ []

  -- The annotations of a normalized snapshot.
  unfoldable pub annotations_of : KeySnapshot → Text → AnnotationMap
  annotations_of n plugin_version =
      (key_provider, provider_value)
      ∷ (key_key_id_hash, hash_value n.kubernetes_key_id)
      ∷ (key_transit_key_version, itoa n.transit_version)
      ∷ (key_transit_mount_hash, hash_value n.mount_id)
      ∷ (key_transit_key_hash, hash_value n.lineage_id)
      ∷ (key_plugin_version, plugin_version)
      ∷ (key_aad_version, aad_version_v1)
      ∷ namespace_entry n.namespace

  -- BuildAnnotations
  unfoldable pub build_annotations : KeySnapshot → Text → Result AnnotationMap
  unfolding annotations_of
  build_annotations snapshot plugin_version = do
    fail_if (is_empty plugin_version) invalid
    n ← normalize c snapshot
    require_aad_mode n
    ok (annotations_of n plugin_version)

  -- ParseAnnotations
  unfoldable pub parse_annotations : AnnotationMap → Result ParsedAnnotations
  unfolding parse_version
  parse_annotations m = do
    fail_if (length m == 0) invalid
    validate_annotation_keys m
    provider ← required_value m key_provider
    fail_if (not (text_eq provider provider_value)) invalid
    key_id_hash ← required_hash m key_key_id_hash
    mount_hash ← required_hash m key_transit_mount_hash
    key_hash ← required_hash m key_transit_key_hash
    namespace_hash ← optional_hash m key_namespace_hash
    version_text ← required_value m key_transit_key_version
    version ← parse_version version_text
    plugin_version ← required_value m key_plugin_version
    aad_version ← required_value m key_aad_version
    fail_if (not (text_eq aad_version aad_version_v1)) invalid
    ok (record {
      provider = provider;
      key_id_hash = key_id_hash;
      transit_key_version = version;
      transit_mount_hash = mount_hash;
      transit_key_hash = key_hash;
      namespace_hash = namespace_hash;
      plugin_version = plugin_version;
      aad_version = aad_version;
    })
