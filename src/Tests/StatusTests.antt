-- ===== src/Tests/StatusTests.antt =====
-- The theorems on clocks, the breaker and the rotation observer, applied to small inputs.
use openbao_kubernetes_kms.Base.{
  ℕ, sub_nat, ◌≡◌, refl, true, false, List, [], ◌∷◌, arith, pos, lt_int,
}
use openbao_kubernetes_kms.Clock.{
  Reading, new_lifetime, age, remaining, pending, after, expired_stays, age-most_passed,
  most_passed, read_all,
}
use openbao_kubernetes_kms.Status.Breaker.{
  CircuitBreaker, BreakerOptions, open_, new_circuit_breaker, allow, record_failure,
}
use openbao_kubernetes_kms.Status.Breaker.Trips.{
  ProbeEvent, succeeded, failed, step, run, Inv, breaker-Inv, allow-record_failure,
  expired_breaker_reopens, tripped_breaker_refuses, success_forgets,
}

abbrev at_time : ℕ → Reading
at_time n = record { wall = n; elapsed = n }

abbrev options : BreakerOptions
options = record { failure_threshold = 2; open_duration = 10 }

abbrev two_failures : List ProbeEvent
two_failures = failed (at_time 1) ∷ failed (at_time 2) ∷ []

breaker-Inv_example : Inv (run (new_circuit_breaker options) two_failures)
breaker-Inv_example = breaker-Inv options two_failures

abbrev tripped : CircuitBreaker
tripped = record {
  failure_threshold = 2;
  open_duration = 10;
  state = open_;
  consecutive_failures = 2;
  opened_at = 2;
  open_until = record { at = 12; is_set = true };
  last_failure_at = 2;
}

two_failures_trip : run (new_circuit_breaker options) two_failures ≡ tripped
unfolding run step new_circuit_breaker after
two_failures_trip = refl

tripped-Inv : Inv tripped
tripped-Inv = ground arith

allow-record_failure_example :
    (allow (record_failure (new_circuit_breaker options) (at_time 1)) (at_time 2)).1 ≡ true
unfolding new_circuit_breaker
allow-record_failure_example =
    allow-record_failure (new_circuit_breaker options) (at_time 1) (at_time 2) refl

expired_breaker_reopens_example :
    ((allow tripped (at_time 20)).1 ≡ true)
    × ((step tripped (failed (at_time 20))).state ≡ open_)
    × ((allow (step tripped (failed (at_time 20))) (at_time 25)).1 ≡ false)
unfolding pending
expired_breaker_reopens_example =
    expired_breaker_reopens tripped (at_time 20) (at_time 25) tripped-Inv refl refl

abbrev refused_probes : List ProbeEvent
refused_probes = failed (at_time 3) ∷ succeeded (at_time 5) ∷ []

tripped_breaker_refuses_example :
    (run (record_failure tripped (at_time 2)) refused_probes ≡ record_failure tripped (at_time 2))
    × ((allow (run (record_failure tripped (at_time 2)) refused_probes) (at_time 6)).1 ≡ false)
tripped_breaker_refuses_example =
    tripped_breaker_refuses tripped (at_time 2) (at_time 6) refused_probes (omega arith)
      (omega arith, (omega arith, tt)) (omega arith)

tripped_allows : (allow (run (new_circuit_breaker options) two_failures) (at_time 20)).1 ≡ true
unfolding run step new_circuit_breaker after allow pending
tripped_allows = refl

success_forgets_example :
    step (run (new_circuit_breaker options) two_failures) (succeeded (at_time 20))
    ≡ new_circuit_breaker options
success_forgets_example = success_forgets options two_failures (at_time 20) tripped_allows

age-most_passed_example :
    (age
      (read_all (new_lifetime (at_time 1) 5) (at_time 8 ∷ []))
      (record { wall = 0; elapsed = 2 })).1
    ≡ most_passed (at_time 1) (at_time 8 ∷ record { wall = 0; elapsed = 2 } ∷ [])
age-most_passed_example =
    age-most_passed (at_time 1) 5 (at_time 8 ∷ []) (record { wall = 0; elapsed = 2 })

-- The wall clock goes back by a lot after the lifetime was seen to be over.
expired_stays_example :
    lt_int
      (remaining
        (read_all (age (new_lifetime (at_time 1) 5) (at_time 9)).0 [])
        (record { wall = 0; elapsed = 10 })).1
      (pos 0)
    ≡ true
unfolding new_lifetime remaining sub_nat
expired_stays_example =
    expired_stays (new_lifetime (at_time 1) 5) (at_time 9) [] (record { wall = 0; elapsed = 10 })
      refl refl
