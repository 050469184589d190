-- ===== src/Tests/Samples.antt =====
-- A toy hash and toy encodings that satisfy the documented laws, and sample snapshots over them.
use openbao_kubernetes_kms.Base.{
  ℕ, zero, suc, ◌+◌, ◌*◌, ◌≡◌, refl, ap, [], ◌∷◌, ◌++◌, some, arith, replicate, drop, length, Text,
  codes, pos, Result, ok, itoa, atoi, sub_nat, text_eq, has_prefix, trim_prefix,
}
use mathlib.Core.List.{reverse}
use openbao_kubernetes_kms.Crypto.{Crypto, CryptoLaws}
use openbao_kubernetes_kms.Clock.{of_unix, to_unix}
use openbao_kubernetes_kms.KeyRegistry.Snapshot.{
  KeySnapshot, active, required, state_eq, mode_eq, normalize_created_at, namespace_is_valid,
  validate_snapshot_identity, key_id_prefix, key_id_parts, append_parts, derive_key_id,
  parse_key_id, normalize,
}
use openbao_kubernetes_kms.KeyRegistry.Registry.{
  snapshot_eq, get, put, Registry, insert, insert_all, new_registry, lookup,
}
use openbao_kubernetes_kms.KeyRegistry.Records.{
  StateRecord, record_eq, validate_observation_metadata, record_of_snapshot, raw_snapshot,
  snapshot_of_record, normalize_state_record,
}
use openbao_kubernetes_kms.KeyRegistry.State.{
  StateFile, HashBody, state_file_version, state_hash_prefix, next_generation, hash_body,
  keep_decryptable, validate_retained_snapshots, validate_state_hash, validate_identity_fingerprint,
  gather, gather_all, state_snapshots, state_registry, state_active, normalize_records,
  compute_hash, validate_state, new_state_file_from_records, validate_state_progress,
}
use openbao_kubernetes_kms.Aad.Annotations.{
  require_aad_mode, is_fqdn_annotation_key, validate_annotation_keys, required_value, hash_value,
  validate_hash_value, required_hash, optional_hash, build_annotations, parse_annotations,
}
use openbao_kubernetes_kms.Aad.Canonical.{namespace_hash_of}

-- The first `n` bytes, filled up with zero bytes.
abbrev pub pad : ℕ → Text → Text
pad zero x = []
pad (suc n) [] = 0 ∷ pad n []
pad (suc n) (b ∷ x) = b ∷ pad n x

pub length-pad : (n : ℕ) (x : Text) → length (pad n x) ≡ n
length-pad zero x = refl
length-pad (suc n) [] = ap suc (length-pad n [])
length-pad (suc n) (b ∷ x) = ap suc (length-pad n x)

-- The last 32 bytes stand for the digest, and eleven letters in front make 32 bytes 43.
abbrev pub toy : Crypto
toy = record {
  sha256 = λ x. pad 32 (reverse x);
  raw_url_encode = λ x. replicate 11 65 ++ x;
  raw_url_decode = λ x. some (drop 11 x);
  raw_url_decode_strict = λ x. some (drop 11 x);
  std_encode = λ x. x;
}

pub toy_laws : CryptoLaws toy
toy_laws = record {
  sha256_size = λ x. length-pad 32 (reverse x);
  encode_size = λ x h. omega (arith, h);
  decode_encode = λ x. refl;
}

-- Version 3 of a key, as the rotation would assemble it.
abbrev pub sample : KeySnapshot
sample = record {
  provider_name = codes "p";
  cluster_id = codes "c";
  instance_id = codes "i";
  namespace = codes "ns";
  mount_id = codes "m";
  lineage_id = codes "l";
  transit_version = pos 3;
  created_at = (62135596800 + 1700000000) * 1000000000;
  kubernetes_key_id = [];
  state = active;
  aad_mode = required;
}

-- What the toy hash makes of the text that is hashed for `sample`.
abbrev pub sample_key_id : Text
sample_key_id =
    key_id_prefix
    ++ (replicate 11 65
        ++ (0 ∷ codes "0000000071")
        ++ (0 ∷ 51 ∷ 0 ∷ 108 ∷ 0 ∷ 109 ∷ 0 ∷ [])
        ++ (115 ∷ 110 ∷ 0 ∷ 105 ∷ 0 ∷ 99 ∷ 0 ∷ 112 ∷ 0 ∷ codes "1v/di"))

abbrev pub sample_n : KeySnapshot
sample_n = record sample { kubernetes_key_id = sample_key_id }

-- What a run of the model computes through; a test unfolds this one name.
unfoldable pub computing : ℕ
unfolding normalize derive_key_id validate_snapshot_identity normalize_created_at namespace_is_valid
    to_unix of_unix sub_nat itoa text_eq get put insert insert_all new_registry snapshot_eq state_eq
    mode_eq parse_key_id has_prefix trim_prefix lookup append_parts key_id_parts record_of_snapshot
    raw_snapshot snapshot_of_record validate_observation_metadata normalize_state_record
    normalize_records gather gather_all state_snapshots keep_decryptable state_registry state_active
    validate_state_hash validate_identity_fingerprint compute_hash hash_body validate_state
    new_state_file_from_records validate_state_progress validate_retained_snapshots record_eq
    next_generation hash_value build_annotations atoi parse_annotations require_aad_mode
    required_hash optional_hash validate_hash_value required_value validate_annotation_keys
    is_fqdn_annotation_key namespace_hash_of
computing = 0

pub sample_normal : normalize toy sample ≡ ok sample_n
unfolding computing
sample_normal = refl

pub sample_parses : parse_key_id toy sample_key_id ≡ ok sample_key_id
unfolding computing
sample_parses = refl

abbrev pub sample_registry : Registry
sample_registry = record {
  active_key_id = sample_key_id;
  snapshots = (sample_key_id, sample_n) ∷ [];
}

pub sample_built : new_registry toy sample [] ≡ ok sample_registry
unfolding computing
sample_built = refl

-- The registry record of the sample, and the state file that holds it alone.
abbrev pub sample_record : StateRecord
sample_record = record {
  provider_name = codes "p";
  cluster_id = codes "c";
  instance_id = codes "i";
  namespace = codes "ns";
  mount_id = codes "m";
  lineage_id = codes "l";
  transit_version = pos 3;
  created_at_unix = pos 1700000000;
  kubernetes_key_id = sample_key_id;
  state = active;
  aad_mode = required;
  observed_at_unix = pos 1700000100;
  stable_observation_count = pos 0;
  stable_at_unix = pos 0;
  promoted_at_unix = pos 1700000100;
}

-- encoding/json, cut down to the active key_id.
abbrev pub toy_marshal : HashBody → Result Text
toy_marshal b = ok b.active_key_id

abbrev pub sample_fingerprint : Text
sample_fingerprint = codes "cfg1." ++ replicate 43 65

abbrev pub sample_state : StateFile
sample_state = record {
  schema_version = state_file_version;
  identity_fingerprint = sample_fingerprint;
  generation = 1;
  previous_hash = [];
  current_hash = state_hash_prefix ++ (replicate 11 65 ++ pad 32 (reverse sample_key_id));
  active_key_id = sample_key_id;
  snapshots = sample_record ∷ [];
}

pub sample_state_built :
    new_state_file_from_records toy toy_marshal sample_key_id
      (sample_record ∷ [])
      1
      []
      sample_fingerprint
    ≡ ok sample_state
unfolding computing
sample_state_built = refl
