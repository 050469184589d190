-- ===== src/KeyRegistry/Snapshot.antt =====
-- internal/keyregistry/keyregistry.go: key snapshots, the derivation and the syntax of key_id
-- values, and the normalization that every snapshot passes before it is used.
use openbao_kubernetes_kms.Base.{
  ℕ, ◌+◌, Bool, true, false, not, ◌&&◌, ◌||◌, List, [], ◌∷◌, ◌++◌, none, some, map, ◌==◌,
  if◌then◌else◌, Text, codes, text_eq, has_prefix, trim_prefix, length, any, ℤ, pos, le_int, itoa,
  Error, Result, ok, err, untyped, fail_if, ◌>>=◌, ◌>>◌, err_malformed_key_id,
}
use mathlib.Core.List.{reverse}
use openbao_kubernetes_kms.Crypto.{Crypto}
use openbao_kubernetes_kms.Clock.{Time, is_zero, to_unix, of_unix}

-- SnapshotState is a string; `other` is any string but the five constants.
pub data SnapshotState : Type 0 where
  active pending retired rejected removed : SnapshotState
  other : Text → SnapshotState

-- AADMode is a string; `other_mode` is any string but the constant.
pub data AadMode : Type 0 where
  required : AadMode
  other_mode : Text → AadMode

abbrev pub state_is_valid : SnapshotState → Bool
state_is_valid (other s) = false
state_is_valid _ = true

abbrev pub mode_is_valid : AadMode → Bool
mode_is_valid required = true
mode_is_valid (other_mode s) = false

unfoldable pub state_eq : SnapshotState → SnapshotState → Bool
state_eq active active = true
state_eq pending pending = true
state_eq retired retired = true
state_eq rejected rejected = true
state_eq removed removed = true
state_eq (other s) (other t) = text_eq s t
state_eq _ _ = false

unfoldable pub mode_eq : AadMode → AadMode → Bool
mode_eq required required = true
mode_eq (other_mode s) (other_mode t) = text_eq s t
mode_eq _ _ = false

pub record KeySnapshot : Type 0 where
  pub provider_name : Text
  pub cluster_id : Text
  pub instance_id : Text
  pub namespace : Text
  pub mount_id : Text
  pub lineage_id : Text
  pub transit_version : ℤ
  pub created_at : Time
  pub kubernetes_key_id : Text
  pub state : SnapshotState
  pub aad_mode : AadMode

abbrev pub is_empty : Text → Bool
is_empty [] = true
is_empty (_ ∷ _) = false

-- NormalizeTransitVersionCreatedAt: whole seconds after the Unix epoch.
unfoldable pub normalize_created_at : Time → Result Time
normalize_created_at t =
    if is_zero t
    then err untyped
    else if le_int (to_unix t) (pos 0)
    then err untyped
    else ok (of_unix (to_unix t))

-- strings.Split at one byte, with the current segment in `acc`, reversed by appending.
unfoldable pub split_onto : ℕ → Text → Text → List Text
split_onto sep acc [] = acc ∷ []
split_onto sep acc (c ∷ cs) =
    let next = split_onto sep [] cs in
    let same = split_onto sep (acc ++ c ∷ []) cs in if c == sep then acc ∷ next else same

unfoldable pub split : ℕ → Text → List Text
unfolding split_onto
split sep s = split_onto sep [] s

-- strings.HasSuffix
unfoldable pub has_suffix : Text → Text → Bool
unfolding has_prefix
has_suffix s t = has_prefix (reverse s) (reverse t)

-- The characters that strings.TrimSpace cuts, in UTF-8.
abbrev white_space : List Text
white_space =
    map (λ c. c ∷ []) (9 ∷ 10 ∷ 11 ∷ 12 ∷ 13 ∷ 32 ∷ [])
    ++ map (λ c. 194 ∷ c ∷ []) (133 ∷ 160 ∷ [])
    ++ (225 ∷ 154 ∷ 128 ∷ [])
      ∷ (226 ∷ 129 ∷ 159 ∷ [])
      ∷ (227 ∷ 128 ∷ 128 ∷ [])
      ∷ map (λ c. 226 ∷ 128 ∷ c ∷ [])
          (128 ∷ 129 ∷ 130 ∷ 131 ∷ 132 ∷ 133 ∷ 134 ∷ 135 ∷ 136 ∷ 137 ∷ 138 ∷ 168 ∷ 169 ∷ 175 ∷ [])

-- strings.TrimSpace(value) != value
unfoldable pub has_outer_space : Text → Bool
unfolding has_suffix
has_outer_space value = any (has_prefix value) white_space || any (has_suffix value) white_space

unfoldable has_double_slash : Text → Bool
has_double_slash [] = false
has_double_slash (c ∷ cs) = (c == 47 && has_prefix cs (codes "/")) || has_double_slash cs

abbrev is_bad_segment : Text → Bool
is_bad_segment s = text_eq s (codes ".") || text_eq s (codes "..") || is_empty s

-- validateOpenBaoNamespace
unfoldable pub namespace_is_valid : Text → Bool
unfolding has_outer_space has_double_slash split
namespace_is_valid value =
    is_empty value
    || (not (has_outer_space value || any (λ c. c == 0 || c == 13 || c == 10 || c == 9) value)
        && not (has_prefix value (codes "/") || has_double_slash value || any (λ c. c == 37) value)
        && not (any is_bad_segment (split 47 value)))

-- validateSnapshotIdentity
unfoldable pub validate_snapshot_identity : KeySnapshot → Result (Unit {0})
validate_snapshot_identity s = do
  fail_if (is_empty s.provider_name) untyped
  fail_if (is_empty s.cluster_id) untyped
  fail_if (is_empty s.instance_id) untyped
  fail_if (is_empty s.mount_id) untyped
  fail_if (is_empty s.lineage_id) untyped
  fail_if (le_int s.transit_version (pos 0)) untyped
  _ ← normalize_created_at s.created_at
  fail_if (not (namespace_is_valid s.namespace)) untyped

-- appendPart
unfoldable pub append_part : Text → Text → Text
append_part input value = input ++ value ++ 0 ∷ []

abbrev pub key_id_domain : Text
key_id_domain = codes "openbao-kubernetes-kms/key-id/v1"

abbrev pub key_id_prefix : Text
key_id_prefix = codes "obk2."

abbrev pub digest_text_length : ℕ
digest_text_length = 43

-- The parts of the hashed text, and the text: each part is ended by a zero byte.
unfoldable pub key_id_parts : KeySnapshot → ℤ → List Text
key_id_parts s created =
    key_id_domain
    ∷ s.provider_name
    ∷ s.cluster_id
    ∷ s.instance_id
    ∷ ((if is_empty s.namespace then [] else s.namespace ∷ [])
        ++ s.mount_id ∷ s.lineage_id ∷ itoa s.transit_version ∷ itoa created ∷ [])

unfoldable pub append_parts : Text → List Text → Text
unfolding append_part
append_parts input [] = input
append_parts input (p ∷ ps) = append_parts (append_part input p) ps

module _ (c : Crypto) where
  open c use {sha256, raw_url_encode, raw_url_decode}

  -- DeriveKeyID
  unfoldable pub derive_key_id : KeySnapshot → Result Text
  unfolding key_id_parts append_parts
  derive_key_id s = do
    validate_snapshot_identity s
    created ← normalize_created_at s.created_at
    let input = append_parts [] (key_id_parts s (to_unix created))
    ok (key_id_prefix ++ raw_url_encode (sha256 input))

  -- ParseKeyID
  unfoldable pub parse_key_id : Text → Result Text
  parse_key_id key_id = do
    fail_if (not (length key_id == length key_id_prefix + digest_text_length)) malformed
    fail_if (not (has_prefix key_id key_id_prefix)) malformed
    elim (raw_url_decode (trim_prefix key_id key_id_prefix)) [
      | none ↦ err malformed
      | some decoded ↦ if not (length decoded == 32) then err malformed else ok key_id
    ]
    where
      malformed : Error
      malformed = err_malformed_key_id ∷ []

  -- The end of KeySnapshot.Normalize: an embedded key_id is compared, a missing one filled in.
  unfoldable pub settle_key_id : KeySnapshot → Text → Result KeySnapshot
  settle_key_id s derived = elim (is_empty s.kubernetes_key_id) [
    | true ↦ ok (record s { kubernetes_key_id = derived })
    | false ↦ do
      parsed ← parse_key_id s.kubernetes_key_id
      fail_if (not (text_eq parsed derived)) untyped
      ok s
  ]

  -- KeySnapshot.Normalize
  unfoldable pub normalize : KeySnapshot → Result KeySnapshot
  unfolding settle_key_id
  normalize s = do
    fail_if (not (state_is_valid s.state)) untyped
    fail_if (not (mode_is_valid s.aad_mode)) untyped
    created ← normalize_created_at s.created_at
    let t = record s { created_at = created }
    derived ← derive_key_id t
    settle_key_id t derived
