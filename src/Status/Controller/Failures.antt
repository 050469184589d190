-- ===== src/Status/Controller/Failures.antt =====
-- internal/status/probe_diagnostics.go: how the error of a probe is classified and published.
use openbao_kubernetes_kms.Base.{
  Bool, true, false, Option, none, some, if◌then◌else◌, Text, codes, Error, error_is,
  context_canceled, context_deadline_exceeded, err_circuit_breaker_open, err_state_unavailable,
  err_transit_key_unusable, err_version_rollback, err_authentication,
}
use openbao_kubernetes_kms.Clock.{Reading}
use openbao_kubernetes_kms.OpenBao.Errors.{
  ErrorClass, invalid_request, unauthenticated, permission_denied, class_text, Cause,
}
use openbao_kubernetes_kms.Status.Store.{
  HealthReason, ProbeFailure, no_failure, publish_metadata_unhealthy, publish_deep_unhealthy,
}
use openbao_kubernetes_kms.Status.Controller.{ProbeError, Controller}

-- The strings of the reasons.
abbrev pub reason_text : HealthReason → Text
reason_text HealthReason.state_unavailable = codes "state_unavailable"
reason_text HealthReason.status_stale = codes "status_stale"
reason_text HealthReason.metadata_unverified = codes "metadata_unverified"
reason_text HealthReason.upsert_check_failed = codes "upsert_check_failed"
reason_text HealthReason.upsert_allowed = codes "upsert_allowed"
reason_text HealthReason.metadata_read_failed = codes "metadata_read_failed"
reason_text HealthReason.profile_invalid = codes "profile_invalid"
reason_text HealthReason.version_rollback = codes "version_rollback"
reason_text HealthReason.state_save_failed = codes "state_save_failed"
reason_text HealthReason.state_publish_failed = codes "state_publish_failed"
reason_text HealthReason.encryption_blocked = codes "encryption_blocked"
reason_text HealthReason.deep_probe_pending = codes "deep_probe_pending"
reason_text HealthReason.deep_probe_failed = codes "deep_probe_failed"
reason_text HealthReason.deep_probe_invalid = codes "deep_probe_invalid"
reason_text HealthReason.circuit_breaker_open = codes "circuit_breaker_open"
reason_text HealthReason.probe_failed = codes "probe_failed"

-- probeStatus; `none` is its "error".
abbrev is_login_refusal : ErrorClass → Bool
is_login_refusal unauthenticated = true
is_login_refusal permission_denied = true
is_login_refusal invalid_request = true
is_login_refusal _ = false

abbrev backend_status : Bool → Option ErrorClass → Option Text
backend_status authentication (some class) = some (
    if authentication
    then (if is_login_refusal class then codes "auth_failed" else class_text class)
    else class_text class)
backend_status authentication none = if authentication then some (codes "auth_failed") else none

unfoldable pub probe_status : Cause → Option Text
probe_status e =
    if error_is e.sentinels context_canceled
    then some (codes "canceled")
    else if error_is e.sentinels context_deadline_exceeded
    then some (codes "timeout")
    else if error_is e.sentinels err_circuit_breaker_open
    then some (codes "circuit_breaker_open")
    else backend_status (error_is e.sentinels err_authentication) e.backend

-- The reason of failureForProbe.
abbrev pub failure_reason : ProbeError → HealthReason
failure_reason e = elim e.reason [
  | some r ↦ r
  | none ↦
      if error_is e.cause.sentinels err_state_unavailable
      then HealthReason.state_unavailable
      else if error_is e.cause.sentinels err_transit_key_unusable
      then HealthReason.encryption_blocked
      else if error_is e.cause.sentinels err_version_rollback
      then HealthReason.version_rollback
      else HealthReason.probe_failed
]

abbrev text_or : Text → Option Text → Text
text_or d none = d
text_or d (some t) = t

-- failureForProbe
unfoldable pub failure_for_probe : Option ProbeError → ProbeFailure
unfolding probe_status
failure_for_probe none = no_failure
failure_for_probe (some e) = record {
  reason = some (failure_reason e);
  error_class = text_or (reason_text (failure_reason e)) (probe_status e.cause);
}

-- metadataFailed; `clock` is what the store reads if `now` has no wall time.
unfoldable pub metadata_failed :
    Controller → Reading → Reading → HealthReason → Cause → Controller × Option ProbeError
unfolding failure_for_probe
metadata_failed m now clock reason cause =
    let failure = some (record { reason = some reason; cause = cause }) in
    (
      record m { store = publish_metadata_unhealthy m.store now (failure_for_probe failure) clock },
      failure,
    )

-- deepFailed
unfoldable pub deep_failed : Controller → HealthReason → Cause → Controller × Option ProbeError
unfolding failure_for_probe
deep_failed m reason cause =
    let failure = some (record { reason = some reason; cause = cause }) in
    (record m { store = publish_deep_unhealthy m.store (failure_for_probe failure) }, failure)

-- profileFailureReason
abbrev pub profile_failure_reason : Error → HealthReason
profile_failure_reason e =
    if error_is e err_version_rollback
    then HealthReason.version_rollback
    else HealthReason.profile_invalid
