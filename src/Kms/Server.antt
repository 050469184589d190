-- ===== src/Kms/Server.antt =====
-- internal/kmsv2/server.go: the Status, Encrypt and Decrypt handlers. The contexts, their timeouts
-- and the observations are left out; the status cache, the registry, the key refresher and Transit
-- are the functions that a Server is made with.
use openbao_kubernetes_kms.Base.{
  Bool, true, false, not, ◌&&◌, ◌||◌, [], ◌∷◌, Option, none, some, if◌then◌else◌, Text, codes,
  text_eq, ℤ, pos, eq_int, Result, ok, err, Error, error_is, fail_if, ◌>>=◌, ◌>>◌, wrap_error,
  context_canceled, context_deadline_exceeded, err_unknown_key_id, err_status_unavailable,
  err_status_unhealthy, err_active_key_unavailable, err_status_key_id_mismatch,
  err_plaintext_required, err_ciphertext_required, err_transit_invalid_response,
  err_concurrency_limit_exceeded, err_key_metadata_refresh,
}
use openbao_kubernetes_kms.Crypto.{Crypto}
use openbao_kubernetes_kms.KeyRegistry.Snapshot.{KeySnapshot, active, state_eq, is_empty, normalize}
use openbao_kubernetes_kms.Aad.Annotations.{AnnotationMap, build_annotations}
use openbao_kubernetes_kms.Aad.Canonical.{AadEnvelope, DecryptAad, build_canonical, prepare_decrypt}
use openbao_kubernetes_kms.Kms.Limits.{
  DecryptRequest, EncryptResponse, Limiter, try_acquire, validate_decrypt_request_limits,
  validate_encrypt_response_limits,
}

pub record CachedStatus : Type 0 where
  pub healthz : Text
  pub key_id : Text
  pub active_snapshot : KeySnapshot

pub record StatusResponse : Type 0 where
  pub version : Text
  pub healthz : Text
  pub key_id : Text

pub record TransitEncryptRequest : Type 0 where
  pub plaintext : Text
  pub associated_data : Text
  pub key_version : ℤ

pub record TransitEncryptResponse : Type 0 where
  pub ciphertext : Text
  pub key_version : ℤ

pub record TransitDecryptRequest : Type 0 where
  pub ciphertext : Text
  pub associated_data : Text

abbrev pub Lookup : Type 0
Lookup = Text → Result KeySnapshot

-- What a request reads of the server: the refresher returns the registry after its discovery.
pub record Server : Type 0 where
  pub current : Result CachedStatus
  pub registry : Lookup
  pub key_refresher : Option (Text → Result Lookup)
  pub transit_encrypt : TransitEncryptRequest → Result TransitEncryptResponse
  pub transit_decrypt : TransitDecryptRequest → Result Text
  pub plugin_version : Text

abbrev pub health_ok : Text
health_ok = codes "ok"

abbrev pub health_unhealthy : Text
health_unhealthy = codes "unhealthy"

abbrev pub context_error : Error → Bool
context_error e = error_is e context_canceled || error_is e context_deadline_exceeded

-- The cached status, or the error that Encrypt returns in its place.
abbrev pub cached_or : Result CachedStatus → Result CachedStatus
cached_or (ok s) = ok s
cached_or (err e) = if context_error e then err e else err (err_status_unavailable ∷ [])

-- The normalized active snapshot, or the error in its place.
abbrev pub active_or : Result KeySnapshot → Result KeySnapshot
active_or (ok n) = ok n
active_or (err _) = err (err_active_key_unavailable ∷ [])

module _ (c : Crypto) where
  -- validateCachedStatus; of a failed Normalize only the sentinel is kept.
  unfoldable pub validate_cached_status : CachedStatus → Result KeySnapshot
  validate_cached_status s = do
    fail_if (not (text_eq s.healthz health_ok)) (err_status_unhealthy ∷ [])
    a ← active_or (normalize c s.active_snapshot)
    fail_if (not (state_eq a.state active) || is_empty s.key_id) (err_active_key_unavailable ∷ [])
    fail_if (not (text_eq s.key_id a.kubernetes_key_id)) (err_status_key_id_mismatch ∷ [])
    ok a

  abbrev response_of : Text → Text → StatusResponse
  response_of healthz key_id = record { version = codes "v2"; healthz = healthz; key_id = key_id }

  -- statusResponse
  unfoldable pub status_response : CachedStatus → StatusResponse
  status_response s = elim (text_eq s.healthz health_ok) [
    | false ↦ response_of (if is_empty s.healthz then health_unhealthy else s.healthz) []
    | true ↦ elim (validate_cached_status s) [
      | ok _ ↦ response_of s.healthz s.key_id
      | err _ ↦ response_of health_unhealthy []
    ]
  ]

  -- status
  unfoldable pub status : Server → Limiter → Result StatusResponse
  status s l = do
    fail_if (not (try_acquire l).1) (err_concurrency_limit_exceeded ∷ [])
    elim s.current [
      | ok cached ↦ ok (status_response cached)
      | err e ↦ if context_error e then err e else ok (response_of health_unhealthy [])
    ]

  -- activeStatus
  unfoldable pub active_status : Server → Result (KeySnapshot × Text)
  active_status s = do
    cached ← cached_or s.current
    a ← validate_cached_status cached
    ok (a, cached.key_id)

  module _ (marshal : AadEnvelope → Result Text) (valid : Text → Bool) where
    -- encrypt; `marshal` is json.Marshal on the envelope, `valid` utf8.Valid.
    unfoldable pub encrypt : Server → Limiter → Text → Result EncryptResponse
    encrypt s l plaintext = do
      fail_if (not (try_acquire l).1) (err_concurrency_limit_exceeded ∷ [])
      fail_if (is_empty plaintext) (err_plaintext_required ∷ [])
      (a, key_id) ← active_status s
      annotations ← build_annotations c a s.plugin_version
      canonical ← build_canonical c marshal a annotations
      encrypted ← s.transit_encrypt (record {
        plaintext = plaintext;
        associated_data = canonical;
        key_version = a.transit_version;
      })
      fail_if (is_empty encrypted.ciphertext) (err_transit_invalid_response ∷ [])
      fail_if
          (not (eq_int encrypted.key_version (pos 0))
            && not (eq_int encrypted.key_version a.transit_version))
          (err_transit_invalid_response ∷ [])
      let response : EncryptResponse = record {
        ciphertext = encrypted.ciphertext;
        key_id = key_id;
        annotations = annotations;
      }
      validate_encrypt_response_limits valid response
      ok response

    -- The second PrepareDecrypt, after a refresh, when the first one did not know the key_id.
    unfoldable pub prepare_again :
        Option (Text → Result Lookup) → Text → AnnotationMap → Result DecryptAad → Result DecryptAad
    prepare_again none key_id m first = first
    prepare_again (some refresh) key_id m (ok p) = ok p
    prepare_again (some refresh) key_id m (err e) = elim (error_is e err_unknown_key_id) [
      | false ↦ err e
      | true ↦ do
        registry ← wrap_error err_key_metadata_refresh (refresh key_id)
        prepare_decrypt c marshal registry key_id m
    ]

    -- The preparation of decrypt.
    unfoldable pub prepare_refreshed : Server → Text → AnnotationMap → Result DecryptAad
    unfolding prepare_again
    prepare_refreshed s key_id m =
        prepare_again s.key_refresher key_id m (prepare_decrypt c marshal s.registry key_id m)

    -- decrypt up to its call of Transit: the request that is sent.
    unfoldable pub decrypt_request :
        Server → Limiter → DecryptRequest → Result TransitDecryptRequest
    decrypt_request s l r = do
      fail_if (not (try_acquire l).1) (err_concurrency_limit_exceeded ∷ [])
      fail_if (is_empty r.ciphertext) (err_ciphertext_required ∷ [])
      validate_decrypt_request_limits valid r
      prepared ← prepare_refreshed s r.key_id r.annotations
      ok (record { ciphertext = r.ciphertext; associated_data = prepared.canonical })

    -- decrypt
    unfoldable pub decrypt : Server → Limiter → DecryptRequest → Result Text
    decrypt s l r = decrypt_request s l r >>= s.transit_decrypt
