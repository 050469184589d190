-- ===== src/Tests/KmsTests.antt =====
-- The KMS handlers over a toy Transit that puts one byte before the plaintext.
use openbao_kubernetes_kms.Base.{
  ℕ, length, List, some, ◌≡◌, ◌<◌, ◌≤◌, ◌↔◌, refl, ap, sym, Bool, true, [], ◌∷◌, none, arith, drop,
  Text, codes, Result, ok,
}
use openbao_kubernetes_kms.KeyRegistry.Snapshot.{KeySnapshot, retired, active, state_eq}
use openbao_kubernetes_kms.Kms.Limits.{
  EncryptResponse, Limiter, new_limiter, try_acquire, release, validate_annotations,
  validate_decrypt_request_limits, validate_encrypt_response_limits,
}
use openbao_kubernetes_kms.Kms.Server.{
  CachedStatus, TransitEncryptRequest, TransitEncryptResponse, TransitDecryptRequest, Server,
  Lookup, health_ok, validate_cached_status, status_response, active_status, encrypt, prepare_again,
  prepare_refreshed, decrypt_request, decrypt,
}
use openbao_kubernetes_kms.Kms.EndToEnd.{
  request_of, decrypt-encrypt, Consulted, decrypt_request-IsBound,
}
use openbao_kubernetes_kms.Kms.Health.{status_response-active_status}
use openbao_kubernetes_kms.Kms.Slots.{
  Traffic, RequestEvent, arrives, ends, is_running, traffic_run, quiet, traffic_run-limit,
}
use openbao_kubernetes_kms.Aad.Binding.{IsBound}
use openbao_kubernetes_kms.Aad.Annotations.{annotations_of}
use openbao_kubernetes_kms.Aad.Canonical.{
  DecryptAad, build_canonical, prepare_decrypt, validate_for_snapshot, build_canonical_from_parsed,
  encode_for_transit,
}
use openbao_kubernetes_kms.Tests.Samples.{toy, toy_laws, sample, sample_n, sample_key_id, computing}
use openbao_kubernetes_kms.Tests.AadTests.{
  rotated, rotated_normal, short_marshal, only_rotated, canonical_text, sample_annotations,
}

abbrev valid : Text → Bool
valid _ = true

abbrev seal : TransitEncryptRequest → Result TransitEncryptResponse
seal q = ok (record { ciphertext = 1 ∷ q.plaintext; key_version = q.key_version })

abbrev unseal : TransitDecryptRequest → Result Text
unseal q = ok (drop 1 q.ciphertext)

abbrev server : Server
server = record {
  current = ok (record { healthz = codes "ok"; key_id = sample_key_id; active_snapshot = sample });
  registry = only_rotated;
  key_refresher = none;
  transit_encrypt = seal;
  transit_decrypt = unseal;
  plugin_version = codes "v0";
}

abbrev limiter : Limiter
limiter = new_limiter 2

abbrev response : EncryptResponse
response = record {
  ciphertext = 1 ∷ codes "data";
  key_id = sample_key_id;
  annotations = sample_annotations;
}

sample_encrypts : encrypt toy short_marshal valid server limiter (codes "data") ≡ ok response
unfolding computing annotations_of encrypt active_status validate_cached_status try_acquire
    validate_encrypt_response_limits validate_annotations build_canonical validate_for_snapshot
    build_canonical_from_parsed
sample_encrypts = refl

sample_is_active : active_status toy server ≡ ok (sample_n, sample_key_id)
unfolding computing active_status validate_cached_status
sample_is_active = refl

unseal-seal :
    (q : TransitEncryptRequest) (y : TransitEncryptResponse)
    → seal q ≡ ok y
    → unseal (record { ciphertext = y.ciphertext; associated_data = q.associated_data })
      ≡ ok q.plaintext
unseal-seal q y h =
    let e : 1 ∷ q.plaintext ≡ y.ciphertext = ground (arith, h) in ap (λ x. ok (drop 1 x)) (sym e)

free : (try_acquire limiter).1 ≡ true
unfolding try_acquire
free = refl

decrypt-encrypt_example :
    decrypt toy short_marshal valid server limiter (request_of response) ≡ ok (codes "data")
decrypt-encrypt_example =
    decrypt-encrypt toy short_marshal valid toy_laws server server limiter limiter (codes "data")
      canonical_text sample_key_id sample_n rotated retired response sample_encrypts
      sample_is_active (omega arith) (omega arith) refl refl rotated_normal unseal-seal free

abbrev sent : TransitDecryptRequest
sent = record { ciphertext = 1 ∷ codes "data"; associated_data = canonical_text }

sample_sends :
    decrypt_request toy short_marshal valid server limiter (request_of response) ≡ ok sent
unfolding computing annotations_of decrypt_request try_acquire validate_decrypt_request_limits
    validate_annotations prepare_refreshed prepare_again prepare_decrypt validate_for_snapshot
    build_canonical_from_parsed encode_for_transit
sample_sends = refl

decrypt_request-IsBound_example :
    ((try_acquire limiter).1 ≡ true)
    × (validate_decrypt_request_limits valid (request_of response) ≡ ok tt)
    × (sent.ciphertext ≡ response.ciphertext)
    × ((registry : Lookup) × (p : DecryptAad) × (n : KeySnapshot) × Consulted toy short_marshal
          valid server response.key_id response.annotations registry
        × IsBound toy short_marshal registry response.key_id response.annotations p n
        × (sent.associated_data ≡ p.canonical))
decrypt_request-IsBound_example =
    decrypt_request-IsBound toy short_marshal valid server limiter (request_of response) sent
      sample_sends

abbrev healthy : CachedStatus
healthy = record { healthz = codes "ok"; key_id = sample_key_id; active_snapshot = sample }

status_response-active_status_example : ((status_response toy healthy).healthz ≡ health_ok) ↔ (
    (a : KeySnapshot) × (active_status toy server ≡ ok (a, (status_response toy healthy).key_id))
    × ((status_response toy healthy).key_id ≡ a.kubernetes_key_id)
    × (state_eq a.state active ≡ true))
status_response-active_status_example = status_response-active_status toy server healthy refl

abbrev requests : List RequestEvent
requests = arrives 1 ∷ arrives 2 ∷ arrives 3 ∷ ends 1 ∷ ends 3 ∷ arrives 4 ∷ []

abbrev busy : Traffic
busy = traffic_run (quiet 2) requests

traffic_run-limit_example :
    (length busy.running ≤ 2)
    × (((try_acquire busy.limiter).1 ≡ true) ↔ (length busy.running < 2))
    × ((i : ℕ) → is_running i busy.running ≡ true → (l : Limiter) × (release busy.limiter ≡ some l))
traffic_run-limit_example = traffic_run-limit 2 requests
