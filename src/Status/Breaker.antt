-- ===== src/Status/Breaker.antt =====
-- internal/status/circuit_breaker.go: the breaker that skips probes after repeated failures.
pub mod Trips
use openbao_kubernetes_kms.Base.{
  ℕ, suc, max, Bool, true, false, leb, ltb, ◌==◌, if◌then◌else◌, not, ◌&&◌, ◌||◌,
}
use openbao_kubernetes_kms.Clock.{
  Time, no_time, is_zero, Reading, Deadline, unset, after, pending, wall_time,
}

-- CircuitBreakerState; the empty string is Go's zero value.
pub data BreakerState : Type 0 where
  closed open_ no_state : BreakerState

pub record BreakerOptions : Type 0 where
  pub failure_threshold : ℕ
  pub open_duration : ℕ

pub record BreakerSnapshot : Type 0 where
  pub state : BreakerState
  pub consecutive_failures : ℕ
  pub opened_at : Time
  pub open_until : Time
  pub last_failure_at : Time

pub record CircuitBreaker : Type 0 where
  pub failure_threshold : ℕ
  pub open_duration : ℕ
  pub state : BreakerState
  pub consecutive_failures : ℕ
  pub opened_at : Time
  pub open_until : Deadline
  pub last_failure_at : Time

abbrev pub default_failure_threshold : ℕ
default_failure_threshold = 3

abbrev pub default_open_duration : ℕ
default_open_duration = 30000000000

abbrev is_open : BreakerState → Bool
is_open open_ = true
is_open _ = false

-- An option that is not positive takes its default.
unfoldable pub new_circuit_breaker : BreakerOptions → CircuitBreaker
new_circuit_breaker opts = record {
  failure_threshold =
      if opts.failure_threshold == 0 then default_failure_threshold else opts.failure_threshold;
  open_duration = if opts.open_duration == 0 then default_open_duration else opts.open_duration;
  state = closed;
  consecutive_failures = 0;
  opened_at = no_time;
  open_until = unset;
  last_failure_at = no_time;
}

unfoldable pub allow : CircuitBreaker → Reading → CircuitBreaker × Bool
allow b now =
    if not (is_open b.state)
    then (b, true)
    else if not (pending b.open_until now)
    then (record b { state = closed }, true)
    else (b, false)

unfoldable pub record_success : CircuitBreaker → CircuitBreaker
record_success b = record b {
  state = closed;
  consecutive_failures = 0;
  opened_at = no_time;
  open_until = unset;
  last_failure_at = no_time;
}

unfoldable pub record_failure : CircuitBreaker → Reading → CircuitBreaker
record_failure b now =
    let c = record b {
      consecutive_failures = suc b.consecutive_failures;
      last_failure_at = now.wall;
    } in
    if leb b.failure_threshold (suc b.consecutive_failures)
    then record c { state = open_; opened_at = now.wall; open_until = after now b.open_duration }
    else c

abbrev shown_state : BreakerState → BreakerState
shown_state no_state = closed
shown_state s = s

unfoldable pub snapshot : CircuitBreaker → Reading → BreakerSnapshot
snapshot b now = record {
  state = shown_state b.state;
  consecutive_failures = b.consecutive_failures;
  opened_at = b.opened_at;
  open_until = wall_time b.open_until now;
  last_failure_at = b.last_failure_at;
}

unfoldable pub earliest_time : Time → Time → Time
earliest_time first second =
    if is_zero first then second else if is_zero second || ltb first second then first else second

unfoldable pub latest_time : Time → Time → Time
latest_time first second = if ltb second first then first else second

unfoldable pub aggregate_state : BreakerState → BreakerState → BreakerState
aggregate_state a b = if is_open a || is_open b then open_ else closed

unfoldable pub aggregate_snapshots : BreakerSnapshot → BreakerSnapshot → BreakerSnapshot
unfolding earliest_time latest_time aggregate_state
aggregate_snapshots metadata deep = record {
  state = aggregate_state metadata.state deep.state;
  consecutive_failures = max metadata.consecutive_failures deep.consecutive_failures;
  opened_at = earliest_time metadata.opened_at deep.opened_at;
  open_until = latest_time metadata.open_until deep.open_until;
  last_failure_at = latest_time metadata.last_failure_at deep.last_failure_at;
}
