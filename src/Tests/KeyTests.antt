-- ===== src/Tests/KeyTests.antt =====
-- The theorems on key_ids, snapshots and the registry, applied to the sample key.
use openbao_kubernetes_kms.Base.{◌≡◌, refl, ◌↔◌, [], arith, pos, ok}
use openbao_kubernetes_kms.KeyRegistry.Snapshot.{KeySnapshot, retired, key_id_parts, normalize}
use openbao_kubernetes_kms.KeyRegistry.Derivation.{SameIdentity, key_id_input-injective}
use openbao_kubernetes_kms.KeyRegistry.Normal.{normalize_idem}
use openbao_kubernetes_kms.KeyRegistry.Registry.{lookup}
use openbao_kubernetes_kms.KeyRegistry.Registry.Lookup.{Decryptable, lookup_iff}
use openbao_kubernetes_kms.Tests.Samples.{
  toy, toy_laws, sample, sample_n, sample_key_id, sample_normal, sample_parses, sample_registry,
  sample_built,
}

lookup_iff_example :
    (lookup toy sample_registry sample_key_id ≡ ok sample_n)
    ↔ ((sample_n.kubernetes_key_id ≡ sample_key_id) × Decryptable toy sample [] sample_n)
lookup_iff_example =
    lookup_iff toy sample [] sample_registry sample_key_id sample_n sample_built sample_parses

normalize_idem_example : normalize toy sample_n ≡ ok sample_n
normalize_idem_example = normalize_idem toy toy_laws sample sample_n sample_normal

abbrev later : KeySnapshot
later = record sample { state = retired }

key_id_input-injective_example : SameIdentity sample later × (pos 1700000000 ≡ pos 1700000000)
unfolding key_id_parts
key_id_input-injective_example =
    key_id_input-injective sample later (pos 1700000000) (pos 1700000000) (omega arith)
      (omega arith) (omega arith) (omega arith) (omega arith) (omega arith) refl
