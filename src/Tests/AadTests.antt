-- ===== src/Tests/AadTests.antt =====
-- The theorems on annotations and associated data, applied to the sample key before and after its
-- rotation.
use openbao_kubernetes_kms.Base.{◌≡◌, refl, arith, Text, codes, Result, ok}
use openbao_kubernetes_kms.KeyRegistry.Snapshot.{KeySnapshot, retired, normalize}
use openbao_kubernetes_kms.Aad.Annotations.{
  AnnotationMap, annotations_of, build_annotations, hash_value,
}
use openbao_kubernetes_kms.Aad.Canonical.{
  AadEnvelope, DecryptAad, build_canonical, encode_for_transit, prepare_decrypt,
  validate_for_snapshot, build_canonical_from_parsed,
}
use openbao_kubernetes_kms.Aad.Binding.{IsBound, prepare_decrypt-IsBound}
use openbao_kubernetes_kms.Aad.RoundTrip.{parsed_of, prepare_decrypt-build_annotations}
use openbao_kubernetes_kms.Tests.Samples.{
  toy, toy_laws, sample_n, sample, sample_key_id, sample_normal, computing,
}

-- The same key after it was rotated out.
abbrev pub rotated : KeySnapshot
rotated = record sample_n { state = retired }

pub rotated_normal : normalize toy rotated ≡ ok rotated
unfolding computing
rotated_normal = refl

-- encoding/json, cut down to the hash of the key_id.
abbrev pub short_marshal : AadEnvelope → Result Text
short_marshal e = ok e.key_id_hash

abbrev pub only_rotated : Text → Result KeySnapshot
only_rotated k = ok rotated

abbrev pub canonical_text : Text
canonical_text = hash_value toy sample_key_id

abbrev pub sample_annotations : AnnotationMap
sample_annotations = annotations_of toy sample_n (codes "v0")

sample_annotated : build_annotations toy sample (codes "v0") ≡ ok sample_annotations
unfolding computing annotations_of
sample_annotated = refl

abbrev sample_prepared : DecryptAad
sample_prepared = record {
  snapshot = rotated;
  annotations = parsed_of toy toy_laws sample_n (codes "v0");
  canonical = canonical_text;
  transit_associated_data = encode_for_transit toy canonical_text;
}

prepare_decrypt-build_annotations_example :
    (build_canonical toy short_marshal sample sample_annotations ≡ ok canonical_text)
    × (prepare_decrypt toy short_marshal only_rotated sample_key_id sample_annotations
        ≡ ok sample_prepared)
prepare_decrypt-build_annotations_example =
    prepare_decrypt-build_annotations toy toy_laws short_marshal sample rotated sample_n retired
      (codes "v0") sample_key_id canonical_text sample_annotations only_rotated sample_normal
      (omega arith) (omega arith) sample_annotated refl rotated_normal refl

sample_prepares :
    prepare_decrypt toy short_marshal only_rotated sample_key_id sample_annotations
    ≡ ok sample_prepared
unfolding computing annotations_of prepare_decrypt validate_for_snapshot build_canonical_from_parsed
    encode_for_transit
sample_prepares = refl

prepare_decrypt-IsBound_example :
    (n : KeySnapshot) × IsBound toy short_marshal only_rotated sample_key_id sample_annotations
      sample_prepared n
prepare_decrypt-IsBound_example =
    prepare_decrypt-IsBound toy short_marshal only_rotated sample_key_id sample_annotations
      sample_prepared sample_prepares
