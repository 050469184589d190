-- ===== src/Tests/DelayTests.antt =====
-- The activation delay: version 4 was observed often enough, waits, and is promoted in the end.
use openbao_kubernetes_kms.Base.{
  ◌≡◌, refl, true, false, List, [], ◌∷◌, Option, none, some, pos, codes, ok,
}
use openbao_kubernetes_kms.Clock.{after, pending}
use openbao_kubernetes_kms.KeyRegistry.Snapshot.{is_empty}
use openbao_kubernetes_kms.KeyRegistry.Records.{StateRecord}
use openbao_kubernetes_kms.KeyRegistry.State.{StateFile}
use openbao_kubernetes_kms.KeyRegistry.Files.{completes}
use openbao_kubernetes_kms.Status.Rotation.{Observer, ObservationResult}
use openbao_kubernetes_kms.Status.Store.{Loaded, empty_store}
use openbao_kubernetes_kms.Status.StateStore.Crash.{disk_of}
use openbao_kubernetes_kms.Status.Controller.{Settings, Controller, stable_candidate}
use openbao_kubernetes_kms.Status.Controller.Probes.{Observed, refused, observed, observe_profile}
use openbao_kubernetes_kms.Status.Controller.Refresh.{new_controller}
use openbao_kubernetes_kms.Status.Controller.Restart.{ControllerEvent, probes, controller_run}
use openbao_kubernetes_kms.Status.Controller.Backed.{controller_log}
use openbao_kubernetes_kms.Status.Controller.Activation.{WaitedFor, observe_profile-WaitedFor}
use openbao_kubernetes_kms.Tests.Samples.{toy, toy_marshal, sample_state, sample_record}
use openbao_kubernetes_kms.Tests.RotationTests.{observer, profile, nothing_done}
use openbao_kubernetes_kms.Tests.StoreTests.{at_time}
use openbao_kubernetes_kms.Tests.ControllerTests.{
  starting, running, breaker, world_at, later, controller_of,
}

abbrev delayed : Observer
delayed = record observer { policy = record observer.policy { activation_delay = pos 5 } }

abbrev settings : Settings
settings = record { observer = delayed; path = codes "state.json"; refresh_interval = 30 }

controller : Controller
unfolding starting
controller = controller_of (
    new_controller toy toy_marshal settings (empty_store 30) (disk_of sample_state) breaker
      (at_time 1) completes)

controller_ok :
    new_controller toy toy_marshal settings
      (empty_store 30)
      (disk_of sample_state)
      breaker
      (at_time 1)
      completes
    ≡ ok controller
unfolding starting controller
controller_ok = refl

abbrev one_probe : List ControllerEvent
one_probe = probes (world_at (later 10)) ∷ []

abbrev run : Controller
run = controller_run toy toy_marshal settings controller one_probe

abbrev state_of_loaded : Option Loaded → StateFile
state_of_loaded none = sample_state
state_of_loaded (some l) = l.state

-- The state in which version 4 is pending and stable.
waiting : StateFile
unfolding running controller after
waiting = state_of_loaded run.store.loaded

abbrev record_or : Option StateRecord → StateRecord
record_or none = sample_record
record_or (some r) = r

candidate : StateRecord
unfolding running controller waiting
candidate = record_or (stable_candidate delayed waiting profile)

candidate_ok : stable_candidate delayed waiting profile ≡ some candidate
unfolding running controller waiting candidate
candidate_ok = refl

candidate_named : is_empty candidate.kubernetes_key_id ≡ false
unfolding running controller waiting candidate
candidate_named = refl

abbrev result_of : Observed → ObservationResult
result_of (refused _ _) = nothing_done
result_of (observed r) = r

in_time : ObservationResult
unfolding running controller waiting after pending
in_time =
    result_of (observe_profile toy toy_marshal settings run (some waiting) profile (later 16) false)

in_time_ok :
    observe_profile toy toy_marshal settings run (some waiting) profile (later 16) false
    ≡ observed in_time
unfolding running controller waiting after pending in_time
in_time_ok = refl

in_time_promoted : in_time.promoted ≡ true
unfolding running controller waiting after pending in_time
in_time_promoted = refl

named_as :
    (k l : StateRecord) (o : Option StateRecord)
    → o ≡ some l
    → is_empty l.kubernetes_key_id ≡ false
    → o ≡ some k
    → is_empty k.kubernetes_key_id ≡ false
named_as k l o h named e = cc (h, e, named)

observe_profile-WaitedFor_example :
    (k : StateRecord) × (stable_candidate delayed waiting profile ≡ some k)
    × WaitedFor settings
        (controller_log toy toy_marshal settings controller one_probe [])
        k.kubernetes_key_id
        (later 16)
observe_profile-WaitedFor_example =
    observe_profile-WaitedFor toy toy_marshal settings 30 (disk_of sample_state) breaker (at_time 1)
      completes controller one_probe waiting profile (later 16) in_time refl controller_ok
      (λ k e.
        named_as k candidate (stable_candidate delayed waiting profile) candidate_ok candidate_named
          e)
      in_time_ok in_time_promoted
