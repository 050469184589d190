-- ===== src/Status/Controller.antt =====
-- internal/status/controller.go and activation.go: the controller that serializes the probes, its
-- breakers and the activation delay. The state store is the FileStateStore that serve.go passes. A
-- method that reads the clock takes each reading as an argument.
pub mod Failures
pub mod Persistence
pub mod Probes
pub mod Refresh
pub mod Durable
pub mod Published
pub mod Probed
pub mod Restart
pub mod Served
pub mod Answers
pub mod Evidence
pub mod Backed
pub mod Activation
use openbao_kubernetes_kms.Base.{
  ℕ, ◌==◌, Bool, true, false, not, ◌&&◌, Option, none, some, List, [], ◌∷◌, if◌then◌else◌, Text,
  text_eq, ℤ, pos, lt_int, le_int, eq_int, pos_part, Result, ok, err, Error, fail_if, ◌>>=◌, ◌>>◌,
  err_config_invalid,
}
use openbao_kubernetes_kms.Clock.{Reading, Deadline, unset, after, pending}
use openbao_kubernetes_kms.KeyRegistry.Snapshot.{SnapshotState, state_eq}
use openbao_kubernetes_kms.KeyRegistry.Records.{StateRecord, is_zero_int}
use openbao_kubernetes_kms.KeyRegistry.State.{StateFile}
use openbao_kubernetes_kms.OpenBao.Errors.{Cause}
use openbao_kubernetes_kms.OpenBao.Profile.{KeyProfile}
use openbao_kubernetes_kms.Status.Breaker.{
  BreakerOptions, CircuitBreaker, new_circuit_breaker, allow, record_success, record_failure,
  snapshot, aggregate_snapshots,
}
use openbao_kubernetes_kms.Status.Rotation.{Observer}
use openbao_kubernetes_kms.Status.StateStore.{Disk}
use openbao_kubernetes_kms.Status.Store.{HealthReason, Store, update_circuit_breaker}

pub data ProbeKind : Type 0 where
  metadata_probe deep_probe : ProbeKind

-- stateCommit (persistence.go)
pub record StateCommit : Type 0 where
  pub previous : Option StateFile
  pub next : StateFile

-- activationWait (activation.go)
pub record ActivationWait : Type 0 where
  pub key_id : Text
  pub deadline : Deadline

abbrev pub no_wait : ActivationWait
no_wait = record { key_id = []; deadline = unset }

-- The error of a probe: the reason of the *probeError in its chain, and what else is there.
pub record ProbeError : Type 0 where
  pub reason : Option HealthReason
  pub cause : Cause

-- What a Controller is made with and does not change.
pub record Settings : Type 0 where
  pub observer : Observer
  pub path : Text
  pub refresh_interval : ℕ

-- What a Controller changes, with the store and the files it alone writes.
pub record Controller : Type 0 where
  pub store : Store
  pub disk : Disk
  pub metadata_breaker : CircuitBreaker
  pub deep_breaker : CircuitBreaker
  pub next_refresh : Deadline
  pub refresh_err : Option ProbeError
  pub pending_commit : Option StateCommit
  pub activation : ActivationWait

-- publishCircuitBreakerState, of both breakers at one reading.
unfoldable pub publish_breakers : Controller → Reading → Controller
unfolding update_circuit_breaker
publish_breakers m reading = record m {
  store =
      update_circuit_breaker m.store (
        aggregate_snapshots (snapshot m.metadata_breaker reading)
          (snapshot m.deep_breaker reading));
}

-- breakerForKind
abbrev pub breaker_for_kind : ProbeKind → Controller → CircuitBreaker
breaker_for_kind metadata_probe m = m.metadata_breaker
breaker_for_kind deep_probe m = m.deep_breaker

abbrev pub with_breaker : ProbeKind → CircuitBreaker → Controller → Controller
with_breaker metadata_probe b m = record m { metadata_breaker = b }
with_breaker deep_probe b m = record m { deep_breaker = b }

-- allowProbe
unfoldable pub allow_probe : ProbeKind → Controller → Reading → Reading → Controller × Bool
unfolding publish_breakers
allow_probe kind m now reading = (
  publish_breakers (with_breaker kind (allow (breaker_for_kind kind m) now).0 m) reading,
  (allow (breaker_for_kind kind m) now).1,
)

-- recordProbeFailure
unfoldable pub record_probe_failure : ProbeKind → Controller → Reading → Reading → Controller
unfolding publish_breakers
record_probe_failure kind m now reading =
    publish_breakers (with_breaker kind (record_failure (breaker_for_kind kind m) now) m) reading

-- recordProbeSuccess
unfoldable pub record_probe_success : ProbeKind → Controller → Reading → Controller
unfolding publish_breakers
record_probe_success kind m reading =
    publish_breakers (with_breaker kind (record_success (breaker_for_kind kind m)) m) reading

-- pendingRecord (diagnostics.go)
unfoldable pub pending_record : List StateRecord → Option StateRecord
pending_record [] = none
pending_record (r ∷ rs) =
    let rest = pending_record rs in if state_eq r.state SnapshotState.pending then some r else rest

abbrev is_stable : Observer → KeyProfile → StateRecord → Bool
is_stable o p r =
    eq_int r.transit_version p.latest_version
    && (not (is_zero_int r.stable_at_unix)
        && le_int o.policy.require_stable_observation_count r.stable_observation_count)

abbrev when_stable : Observer → KeyProfile → Option StateRecord → Option StateRecord
when_stable o p none = none
when_stable o p (some r) = if is_stable o p r then some r else none

-- stableCandidate
unfoldable pub stable_candidate : Observer → StateFile → KeyProfile → Option StateRecord
unfolding pending_record
stable_candidate o s p = when_stable o p (pending_record s.snapshots)

abbrev pub is_waited : ActivationWait → Reading → Option StateRecord → Bool
is_waited w now none = false
is_waited w now (some r) = text_eq w.key_id r.kubernetes_key_id && not (pending w.deadline now)

-- promotionReady
unfoldable pub promotion_ready : Settings → Controller → StateFile → KeyProfile → Reading → Bool
unfolding stable_candidate
promotion_ready t m s p now =
    if is_zero_int t.observer.policy.activation_delay
    then true
    else is_waited m.activation now (stable_candidate t.observer s p)

-- The wait that confirmActivation leaves.
unfoldable pub next_wait : Settings → ActivationWait → Reading → Option StateRecord → ActivationWait
next_wait t w now none = no_wait
next_wait t w now (some r) =
    if not (text_eq w.key_id r.kubernetes_key_id)
    then record {
      key_id = r.kubernetes_key_id;
      deadline = after now (pos_part t.observer.policy.activation_delay);
    }
    else w

-- confirmActivation
unfoldable pub confirm_activation :
    Settings → Controller → StateFile → KeyProfile → Reading → Controller
unfolding next_wait stable_candidate
confirm_activation t m s p now = record m {
  activation = next_wait t m.activation now (stable_candidate t.observer s p);
}
