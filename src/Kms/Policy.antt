-- ===== src/Kms/Policy.antt =====
-- internal/kmsv2/error_policy.go and request_lifecycle.go: the gRPC status that a failed request
-- answers, and the class under which it is observed. google.golang.org/grpc's codes and what
-- errors.Is, errors.As and status.Code answer about an error are the fields of a Failure.
pub mod Public
use openbao_kubernetes_kms.Base.{
  ℕ, Bool, true, false, not, ◌&&◌, ◌||◌, Option, none, some, List, [], ◌∷◌, if◌then◌else◌, Text,
  codes, Sentinel, Error, error_is, context_canceled, context_deadline_exceeded,
  err_malformed_key_id, err_unknown_key_id, err_invalid_annotations, err_annotation_mismatch,
  err_aad_required, err_status_unavailable, err_status_unhealthy, err_active_key_unavailable,
  err_status_key_id_mismatch, err_plaintext_required, err_ciphertext_required,
  err_request_limit_exceeded, err_response_limit_exceeded, err_concurrency_limit_exceeded,
  err_panic_recovered, err_key_metadata_refresh, err_authentication,
}
use openbao_kubernetes_kms.OpenBao.Errors.{
  ErrorClass, invalid_request, unauthenticated, permission_denied, not_found, decrypt_failed,
  rate_limited, unavailable, tls_failed, dns_failed, connection_failed, sealed, unknown, Cause,
}
use openbao_kubernetes_kms.Kms.Server.{context_error}

-- codes.Code
pub data Code : Type 0 where
  code_ok code_canceled code_unknown code_invalid_argument code_deadline_exceeded : Code
  code_not_found code_already_exists code_permission_denied code_resource_exhausted : Code
  code_failed_precondition code_aborted code_out_of_range code_unimplemented : Code
  code_internal code_unavailable code_data_loss code_unauthenticated : Code
  -- A number outside the constants.
  code_other : ℕ → Code

-- The error classes of observability.go.
pub data FailureClass : Type 0 where
  aad_missing aad_mismatch annotation_invalid key_id_malformed key_id_unknown : FailureClass
  key_metadata_refresh_failed openbao_rate_limited openbao_sealed openbao_unavailable : FailureClass
  openbao_tls_failed openbao_dns_failed openbao_connection_failed panicked : FailureClass
  protocol_limit status_stale timeout transit_key_missing transit_policy_denied : FailureClass
  auth_failed canceled concurrency_limit unclassified : FailureClass

pub data Method : Type 0 where
  unnamed status_call encrypt_call decrypt_call : Method

-- errorPolicy
pub record ErrorPolicy : Type 0 where
  pub code : Code
  pub message : Text
  pub class : FailureClass

abbrev policy : Code → Text → FailureClass → ErrorPolicy
policy code message class = record { code = code; message = message; class = class }

abbrev pub canceled_policy : ErrorPolicy
canceled_policy = policy code_canceled (codes "request canceled") canceled

abbrev pub timeout_policy : ErrorPolicy
timeout_policy = policy code_deadline_exceeded (codes "request timed out") timeout

abbrev pub unknown_local_policy : ErrorPolicy
unknown_local_policy = policy code_internal (codes "kms request failed") unclassified

-- sentinelErrorPolicies, in order.
abbrev pub sentinel_policies : List (Sentinel × ErrorPolicy)
sentinel_policies =
    (context_canceled, canceled_policy)
    ∷ (context_deadline_exceeded, timeout_policy)
    ∷ (
      err_key_metadata_refresh,
      policy code_unavailable (codes "key metadata refresh failed") key_metadata_refresh_failed,
    )
    ∷ (
      err_plaintext_required,
      policy code_invalid_argument (codes "plaintext is required") unclassified,
    )
    ∷ (
      err_ciphertext_required,
      policy code_invalid_argument (codes "ciphertext is required") unclassified,
    )
    ∷ (
      err_request_limit_exceeded,
      policy code_invalid_argument (codes "kms request exceeds protocol limits") protocol_limit,
    )
    ∷ (
      err_malformed_key_id,
      policy code_invalid_argument (codes "key_id malformed") key_id_malformed,
    )
    ∷ (
      err_invalid_annotations,
      policy code_invalid_argument (codes "annotations invalid") annotation_invalid,
    )
    ∷ (
      err_annotation_mismatch,
      policy code_invalid_argument (codes "annotations do not match key snapshot") aad_mismatch,
    )
    ∷ (
      err_response_limit_exceeded,
      policy code_internal (codes "kms response exceeds protocol limits") protocol_limit,
    )
    ∷ (
      err_concurrency_limit_exceeded,
      policy code_resource_exhausted (codes "kms request concurrency limit reached")
          concurrency_limit,
    )
    ∷ (err_unknown_key_id, policy code_not_found (codes "key_id unknown") key_id_unknown)
    ∷ (
      err_status_unavailable,
      policy code_failed_precondition (codes "status unavailable") status_stale,
    )
    ∷ (
      err_status_unhealthy,
      policy code_failed_precondition (codes "status unhealthy") status_stale,
    )
    ∷ (
      err_active_key_unavailable,
      policy code_failed_precondition (codes "active key unavailable") status_stale,
    )
    ∷ (
      err_status_key_id_mismatch,
      policy code_failed_precondition (codes "status key_id mismatch") status_stale,
    )
    ∷ (err_aad_required, policy code_failed_precondition (codes "AAD required") aad_missing)
    ∷ (err_panic_recovered, policy code_internal (codes "kms request failed") panicked)
    ∷ []

-- transitCodePolicies
unfoldable pub code_policy : Code → Option ErrorPolicy
code_policy code_canceled = some canceled_policy
code_policy code_deadline_exceeded = some timeout_policy
code_policy code_permission_denied =
    some (policy code_permission_denied (codes "transit permission denied") transit_policy_denied)
code_policy code_unauthenticated =
    some (policy code_unauthenticated (codes "transit authentication failed") auth_failed)
code_policy code_not_found =
    some (policy code_not_found (codes "transit key not found") transit_key_missing)
code_policy code_invalid_argument =
    some (policy code_invalid_argument (codes "transit decrypt failed") unclassified)
code_policy code_resource_exhausted =
    some (policy code_resource_exhausted (codes "transit rate limited") unclassified)
code_policy code_unavailable =
    some (policy code_unavailable (codes "transit unavailable") openbao_unavailable)
code_policy _ = none

-- backendErrorPolicy
pub record BackendPolicy : Type 0 where
  pub code : Code
  pub class : FailureClass

abbrev backend : Code → FailureClass → BackendPolicy
backend code class = record { code = code; class = class }

-- openBaoErrorPolicies, with what a class outside them gets.
unfoldable pub backend_policy : ErrorClass → BackendPolicy
backend_policy unauthenticated = backend code_unauthenticated auth_failed
backend_policy permission_denied = backend code_permission_denied transit_policy_denied
backend_policy not_found = backend code_not_found transit_key_missing
backend_policy invalid_request = backend code_invalid_argument unclassified
backend_policy decrypt_failed = backend code_invalid_argument aad_mismatch
backend_policy rate_limited = backend code_resource_exhausted openbao_rate_limited
backend_policy sealed = backend code_unavailable openbao_sealed
backend_policy unavailable = backend code_unavailable openbao_unavailable
backend_policy tls_failed = backend code_unavailable openbao_tls_failed
backend_policy dns_failed = backend code_unavailable openbao_dns_failed
backend_policy connection_failed = backend code_unavailable openbao_connection_failed
backend_policy unknown = backend code_unavailable unclassified

-- An error that is not nil: what errors.Is and errors.As find in it, what status.Code answers, and
-- the cause of the *transitFailure in its chain.
pub record Caught : Type 0 where
  pub cause : Cause
  pub code : Code

pub record Failure : Type 0 where
  pub error : Caught
  pub transit : Option Caught

-- The loop of lookupLocalErrorPolicy.
unfoldable pub first_policy : List (Sentinel × ErrorPolicy) → Error → Option ErrorPolicy
first_policy [] e = none
first_policy ((s, p) ∷ ps) e = let rest = first_policy ps e in if error_is e s then some p else rest

-- lookupLocalErrorPolicy
unfoldable pub lookup_local_policy : Error → Option ErrorPolicy
unfolding first_policy
lookup_local_policy e = first_policy sentinel_policies e

abbrev pub policy_or : ErrorPolicy → Option ErrorPolicy → ErrorPolicy
policy_or d none = d
policy_or d (some p) = p

abbrev is_encrypt_argument : Code → Method → Bool
is_encrypt_argument code_invalid_argument encrypt_call = true
is_encrypt_argument _ _ = false

-- transitCodePolicy
unfoldable pub transit_code_policy : Code → Method → ErrorPolicy
unfolding code_policy
transit_code_policy code method = elim (code_policy code) [
  | none ↦ policy code (codes "transit operation failed") unclassified
  | some p ↦
      if is_encrypt_argument code method
      then record p { message = codes "transit encrypt failed" }
      else p
]

-- The classes that do not make a failed authentication one of credentials.
abbrev pub is_outage : ErrorClass → Bool
is_outage unavailable = true
is_outage sealed = true
is_outage rate_limited = true
is_outage tls_failed = true
is_outage dns_failed = true
is_outage connection_failed = true
is_outage _ = false

abbrev is_outage_of : Option ErrorClass → Bool
is_outage_of none = false
is_outage_of (some class) = is_outage class

-- authenticationError
unfoldable pub authentication_error : Cause → Bool
authentication_error e = error_is e.sentinels err_authentication && not (is_outage_of e.backend)

abbrev pub is_unknown_code : Code → Bool
is_unknown_code code_unknown = true
is_unknown_code _ = false

-- The end of transitErrorPolicy, by the class of the *openbao.Error.
unfoldable pub backend_error_policy : Option ErrorClass → Code → Method → ErrorPolicy
unfolding backend_policy transit_code_policy
backend_error_policy none code method =
    if is_unknown_code code
    then policy code_unavailable (codes "transit operation failed") openbao_unavailable
    else transit_code_policy code method
backend_error_policy (some class) code method =
    record (transit_code_policy (if is_unknown_code code then (backend_policy class).code else code)
      method) { class = (backend_policy class).class }

-- transitErrorPolicy
unfoldable pub transit_error_policy : Caught → Method → ErrorPolicy
unfolding lookup_local_policy authentication_error backend_error_policy
transit_error_policy e method =
    if context_error e.cause.sentinels
    then policy_or unknown_local_policy (lookup_local_policy e.cause.sentinels)
    else if authentication_error e.cause
    then transit_code_policy code_unauthenticated method
    else backend_error_policy e.cause.backend e.code method

-- requestErrorPolicy for an error that is no transitFailure.
unfoldable pub local_error_policy : Caught → Method → ErrorPolicy
unfolding lookup_local_policy transit_code_policy
local_error_policy e method =
    policy_or (record unknown_local_policy { class = (transit_code_policy e.code method).class })
      (lookup_local_policy e.cause.sentinels)

-- requestErrorPolicy, by the *transitFailure in the chain.
unfoldable pub policy_for : Option Caught → Caught → Method → ErrorPolicy
unfolding transit_error_policy local_error_policy
policy_for none e method = local_error_policy e method
policy_for (some t) e method = transit_error_policy t method

-- requestErrorPolicy
unfoldable pub request_error_policy : Failure → Method → ErrorPolicy
unfolding policy_for
request_error_policy f method = policy_for f.transit f.error method
