-- ===== src/Status/Breaker/Trips.antt =====
-- When the breaker of internal/status/circuit_breaker.go opens, what it lets through, and how it
-- closes: theorems over every sequence of probe results.
use openbao_kubernetes_kms.Base.{
  suc, ◌+◌, ◌≤◌, ◌<◌, ◌⊎◌, true, false, List, [], ◌∷◌, All, ◌≡◌, refl, arith, ltb, leb, not, ◌&&◌,
}
use openbao_kubernetes_kms.Clock.{Reading, pending, after}
use openbao_kubernetes_kms.Status.Breaker.{
  closed, open_, CircuitBreaker, BreakerOptions, new_circuit_breaker, allow, record_success,
  record_failure,
}

-- One probe: whether it was let through, and, if so, how it ended.
pub data ProbeEvent : Type 0 where
  succeeded failed : Reading → ProbeEvent

-- The controller asks for leave first and records a result only of a probe that ran.
unfoldable pub step : CircuitBreaker → ProbeEvent → CircuitBreaker
unfolding allow record_success record_failure
step b (succeeded now) =
    let (c, allowed) = allow b now in elim allowed [ true ↦ record_success c | false ↦ c ]
step b (failed now) =
    let (c, allowed) = allow b now in elim allowed [ true ↦ record_failure c now | false ↦ c ]

unfoldable pub run : CircuitBreaker → List ProbeEvent → CircuitBreaker
run b [] = b
run b (e ∷ es) = run (step b e) es

-- What holds of a breaker at all times: an open one has counted the threshold's failures and has a
-- deadline, and only a closed one is below it.
pub record Inv (b : CircuitBreaker) : Type 0 where
  pub threshold_positive : 0 < b.failure_threshold
  pub known_state : (b.state ≡ closed) ⊎ (b.state ≡ open_)
  pub open_counted : b.state ≡ open_ → b.failure_threshold ≤ b.consecutive_failures
  pub open_timed : b.state ≡ open_ → b.open_until.is_set ≡ true
  pub below_closed : b.consecutive_failures < b.failure_threshold → b.state ≡ closed

new-Inv : (o : BreakerOptions) → Inv (new_circuit_breaker o)
unfolding new_circuit_breaker
new-Inv o = ground arith

step-Inv : (b : CircuitBreaker) (e : ProbeEvent) → Inv b → Inv (step b e)
unfolding step after
step-Inv b (succeeded now) v = ground arith
step-Inv b (failed now) v = ground arith

run-Inv : (b : CircuitBreaker) (es : List ProbeEvent) → Inv b → Inv (run b es)
unfolding run
run-Inv b [] v = v
run-Inv b (e ∷ es) v = run-Inv (step b e) es (step-Inv b e v)

-- After any history of probes, the breaker of any options keeps its invariant.
pub breaker-Inv : (o : BreakerOptions) (es : List ProbeEvent) → Inv (run (new_circuit_breaker o) es)
breaker-Inv o es = run-Inv (new_circuit_breaker o) es (new-Inv o)

-- After a failure that a closed breaker let through, a later probe is refused exactly when the
-- failure reached the threshold and the open time has not yet elapsed since that failure.
pub allow-record_failure :
    (b : CircuitBreaker) (now later : Reading)
    → b.state ≡ closed
    → (allow (record_failure b now) later).1
      ≡ not (
          leb b.failure_threshold (suc b.consecutive_failures)
          && ltb later.elapsed (now.elapsed + b.open_duration))
unfolding allow record_failure pending after
allow-record_failure b now later h = ground arith

-- A breaker whose open time is over lets one probe through, and a failure of that one probe opens
-- it again for a whole open time: the failures counted before are not forgotten.
pub expired_breaker_reopens :
    (b : CircuitBreaker) (now later : Reading)
    → Inv b
    → b.state ≡ open_
    → pending b.open_until now ≡ false
    → ((allow b now).1 ≡ true)
      × ((step b (failed now)).state ≡ open_)
      × ((allow (step b (failed now)) later).1
          ≡ not (ltb later.elapsed (now.elapsed + b.open_duration)))
unfolding step allow pending after
expired_breaker_reopens b now later v o e = ground arith

-- The reading of a probe.
abbrev pub time_of : ProbeEvent → Reading
time_of (succeeded now) = now
time_of (failed now) = now

refused_step :
    (b : CircuitBreaker) (e : ProbeEvent)
    → b.state ≡ open_
    → pending b.open_until (time_of e) ≡ true
    → step b e ≡ b
unfolding step allow
refused_step b (succeeded now) o p = ground arith
refused_step b (failed now) o p = ground arith

refused_run :
    (b : CircuitBreaker) (es : List ProbeEvent)
    → b.state ≡ open_
    → All (λ e. pending b.open_until (time_of e) ≡ true) es
    → run b es ≡ b
unfolding run
refused_run b [] o p = refl
refused_run b (e ∷ es) o (p, ps) = rw (refused_step b e o p) (refused_run b es o ps)

tripped_pending :
    (b : CircuitBreaker) (now later : Reading)
    → b.failure_threshold ≤ suc b.consecutive_failures
    → later.elapsed < now.elapsed + b.open_duration
    → ((record_failure b now).state ≡ open_)
      × (pending (record_failure b now).open_until later ≡ true)
unfolding record_failure pending after
tripped_pending b now later h p = ground arith

tripped_while_pending :
    (b : CircuitBreaker) (now : Reading) (es : List ProbeEvent)
    → b.failure_threshold ≤ suc b.consecutive_failures
    → All (λ e. (time_of e).elapsed < now.elapsed + b.open_duration) es
    → All (λ e. pending (record_failure b now).open_until (time_of e) ≡ true) es
tripped_while_pending b now [] h p = tt
tripped_while_pending b now (e ∷ es) h (p, ps) =
    ((tripped_pending b now (time_of e) h p).1, tripped_while_pending b now es h ps)

-- After a failure that reached the threshold, whatever probes are tried before the open time has
-- elapsed since that failure change nothing, and the next one in that time is refused as well.
pub tripped_breaker_refuses :
    (b : CircuitBreaker) (now later : Reading) (es : List ProbeEvent)
    → b.failure_threshold ≤ suc b.consecutive_failures
    → All (λ e. (time_of e).elapsed < now.elapsed + b.open_duration) es
    → later.elapsed < now.elapsed + b.open_duration
    → (run (record_failure b now) es ≡ record_failure b now)
      × ((allow (run (record_failure b now) es) later).1 ≡ false)
unfolding allow
tripped_breaker_refuses b now later es h ps p =
    let (o, q) = tripped_pending b now later h p in
    let stays = refused_run (record_failure b now) es o (tripped_while_pending b now es h ps) in
    (stays, rw stays (ground arith))

-- The options of a breaker do not change.
same_options :
    (b : CircuitBreaker) (es : List ProbeEvent)
    → ((run b es).failure_threshold ≡ b.failure_threshold)
      × ((run b es).open_duration ≡ b.open_duration)
unfolding run step
same_options b [] = (refl, refl)
same_options b (succeeded now ∷ es) = ground (arith, same_options (step b (succeeded now)) es)
same_options b (failed now ∷ es) = ground (arith, same_options (step b (failed now)) es)

-- Whatever the history, a success that was let through forgets every failure: the breaker is as it
-- was made.
pub success_forgets :
    (o : BreakerOptions) (es : List ProbeEvent) (now : Reading)
    → (allow (run (new_circuit_breaker o) es) now).1 ≡ true
    → step (run (new_circuit_breaker o) es) (succeeded now) ≡ new_circuit_breaker o
unfolding new_circuit_breaker step allow
success_forgets o es now h = ground (arith, same_options (new_circuit_breaker o) es)
