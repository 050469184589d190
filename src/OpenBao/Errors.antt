-- ===== src/OpenBao/Errors.antt =====
-- internal/openbao/errors.go: the classes of OpenBao's errors, and how a response gets one.
use openbao_kubernetes_kms.Base.{
  ℕ, ◌==◌, leb, Bool, true, Option, none, [], ◌∷◌, if◌then◌else◌, Text, codes, has_prefix, Error,
}

-- ErrorClass, and the empty string, which no error has.
pub data ErrorClass : Type 0 where
  invalid_request unauthenticated permission_denied not_found decrypt_failed : ErrorClass
  rate_limited unavailable tls_failed dns_failed connection_failed sealed : ErrorClass
  unknown : ErrorClass

abbrev pub class_text : ErrorClass → Text
class_text invalid_request = codes "invalid_request"
class_text unauthenticated = codes "unauthenticated"
class_text permission_denied = codes "permission_denied"
class_text not_found = codes "not_found"
class_text decrypt_failed = codes "decrypt_failed"
class_text rate_limited = codes "rate_limited"
class_text unavailable = codes "unavailable"
class_text tls_failed = codes "tls_failed"
class_text dns_failed = codes "dns_failed"
class_text connection_failed = codes "connection_failed"
class_text sealed = codes "sealed"
class_text unknown = codes "unknown"

-- The typed causes that classifyTransportError looks for, as errors.As answers.
pub record TransportCauses : Type 0 where
  pub is_tls : Bool
  pub is_dns : Bool
  pub is_connection : Bool

-- classifyTransportError
unfoldable pub classify_transport_error : TransportCauses → ErrorClass
classify_transport_error e =
    if e.is_tls
    then tls_failed
    else if e.is_dns
    then dns_failed
    else if e.is_connection
    then connection_failed
    else unavailable

-- strings.Contains
unfoldable pub contains : Text → Text → Bool
unfolding has_prefix
contains [] p = has_prefix [] p
contains (b ∷ x) p = let rest = contains x p in if has_prefix (b ∷ x) p then true else rest

-- The switch of classifyError over the status code.
unfoldable pub classify_status : ℕ → ErrorClass
classify_status n =
    if n == 400
    then invalid_request
    else if n == 401
    then unauthenticated
    else if n == 403
    then permission_denied
    else if n == 404
    then not_found
    else if n == 429
    then rate_limited
    else if leb 500 n
    then unavailable
    else unknown

-- classifyError, of the messages joined and in lower case.
unfoldable pub classify_error : ℕ → Text → ErrorClass
unfolding contains classify_status
classify_error status joined =
    if contains joined (codes "sealed")
    then sealed
    else if contains joined (codes "message authentication failed")
    then decrypt_failed
    else classify_status status

-- What errors.Is and errors.As find in the chain of an error: the sentinels, and the class of the
-- outermost *openbao.Error.
pub record Cause : Type 0 where
  pub sentinels : Error
  pub backend : Option ErrorClass

abbrev pub caused_by : Error → Cause
caused_by e = record { sentinels = e; backend = none }
