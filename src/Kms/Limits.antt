-- ===== src/Kms/Limits.antt =====
-- internal/kmsv2/limits.go and concurrency.go: the protocol's bounds and the limiter of requests.
use openbao_kubernetes_kms.Base.{
  ℕ, suc, ◌+◌, ◌*◌, ◌-◌, ◌==◌, ◌≡◌, Option, none, some, Bool, true, false, not, ◌&&◌, ◌||◌, [], ◌∷◌,
  arith, ltb, leb, if◌then◌else◌, length, Text, Result, ok, Error, fail_if, fail_if-eq-ok, ◌>>◌,
  err_invalid_annotations, err_request_limit_exceeded, err_response_limit_exceeded,
}
use openbao_kubernetes_kms.KeyRegistry.Snapshot.{is_empty}
use openbao_kubernetes_kms.Aad.Annotations.{AnnotationMap}

abbrev pub max_ciphertext_bytes : ℕ
max_ciphertext_bytes = 1024

abbrev pub max_key_id_bytes : ℕ
max_key_id_bytes = 1024

abbrev pub max_annotation_bytes : ℕ
max_annotation_bytes = 32 * 1024

pub record DecryptRequest : Type 0 where
  pub ciphertext : Text
  pub key_id : Text
  pub annotations : AnnotationMap

pub record EncryptResponse : Type 0 where
  pub ciphertext : Text
  pub key_id : Text
  pub annotations : AnnotationMap

-- `valid` is utf8.Valid.
module _ (valid : Text → Bool) where
  -- The loop of validateAnnotationsProtoLimits, with the total so far.
  unfoldable pub validate_annotations : Error → ℕ → AnnotationMap → Result (Unit {0})
  validate_annotations limit_error total [] = ok tt
  validate_annotations limit_error total ((k, v) ∷ m) = do
    fail_if (not (valid k && valid v)) (err_invalid_annotations ∷ [])
    let next = total + (length k + length v)
    fail_if (leb max_annotation_bytes next) limit_error
    validate_annotations limit_error next m

  -- validateDecryptRequestLimits
  unfoldable pub validate_decrypt_request_limits : DecryptRequest → Result (Unit {0})
  validate_decrypt_request_limits r = do
    fail_if (leb max_ciphertext_bytes (length r.ciphertext)) (err_request_limit_exceeded ∷ [])
    fail_if (leb max_key_id_bytes (length r.key_id)) (err_request_limit_exceeded ∷ [])
    validate_annotations (err_request_limit_exceeded ∷ []) 0 r.annotations

  -- validateEncryptResponseLimits; a nil response does not come here.
  unfoldable pub validate_encrypt_response_limits : EncryptResponse → Result (Unit {0})
  validate_encrypt_response_limits r = do
    fail_if (leb max_ciphertext_bytes (length r.ciphertext)) (err_response_limit_exceeded ∷ [])
    fail_if (is_empty r.key_id || leb max_key_id_bytes (length r.key_id))
        (err_response_limit_exceeded ∷ [])
    validate_annotations (err_response_limit_exceeded ∷ []) 0 r.annotations

  validate_annotations_same :
      (e f : Error) (total : ℕ) (m : AnnotationMap)
      → validate_annotations e total m ≡ ok tt
      → validate_annotations f total m ≡ ok tt
  unfolding validate_annotations
  validate_annotations_same e f total [] h = h
  validate_annotations_same e f total ((k, v) ∷ m) h =
      let (a, h1) = fail_if-eq-ok (not (valid k && valid v)) _ _ h in
      let (b, h2) =
        fail_if-eq-ok (leb max_annotation_bytes (total + (length k + length v))) _ _ h1 in
      rw (a, b) (validate_annotations_same e f (total + (length k + length v)) m h2)

  -- What passes the limits of a response passes those of the request that brings it back.
  pub response_limits-request_limits :
      (r : EncryptResponse)
      → validate_encrypt_response_limits r ≡ ok tt
      → validate_decrypt_request_limits
          (record { ciphertext = r.ciphertext; key_id = r.key_id; annotations = r.annotations })
        ≡ ok tt
  unfolding validate_encrypt_response_limits validate_decrypt_request_limits
  response_limits-request_limits r h =
      let (a, h1) = fail_if-eq-ok (leb max_ciphertext_bytes (length r.ciphertext)) _ _ h in
      let (b, h2) =
        fail_if-eq-ok (is_empty r.key_id || leb max_key_id_bytes (length r.key_id)) _ _ h1 in
      let b' : leb max_key_id_bytes (length r.key_id) ≡ false = ground (arith, b) in
      rw (a, b') (validate_annotations_same _ _ 0 r.annotations h2)

-- concurrencyLimiter: a channel of `capacity` slots, of which `in_flight` are taken.
pub record Limiter : Type 0 where
  pub capacity : ℕ
  pub in_flight : ℕ

-- newConcurrencyLimiter
abbrev pub new_limiter : ℕ → Limiter
new_limiter limit = record { capacity = limit; in_flight = 0 }

-- tryAcquire
unfoldable pub try_acquire : Limiter → Limiter × Bool
try_acquire l =
    if ltb l.in_flight l.capacity
    then (record l { in_flight = suc l.in_flight }, true)
    else (l, false)

-- release: the receive from the channel, which blocks (`none`) when no slot is taken.
unfoldable pub release : Limiter → Option Limiter
release l = if l.in_flight == 0 then none else some (record l { in_flight = l.in_flight - 1 })
