-- ===== src/Tests/ControllerTests.antt =====
-- The controller over the sample state: a probe that finds version 4 and whose save fails between the
-- two files, a deep probe, a discovery, and a probe whose recovery fails again.
use openbao_kubernetes_kms.Base.{
  ℕ, ◌+◌, Option, none, some, ◌≡◌, refl, true, List, [], ◌∷◌, ok, err, codes, err_probe_failed,
  Result,
}
use openbao_kubernetes_kms.KeyRegistry.State.{validate_state}
use openbao_kubernetes_kms.KeyRegistry.Files.{
  completes, fails_before, load_state_checkpoint, validate_checkpoint, validate_checkpointed_state,
  load_state_file, validate_loaded_state, read_file,
}
use openbao_kubernetes_kms.Status.Breaker.{
  BreakerOptions, new_circuit_breaker, snapshot, aggregate_snapshots,
}
use openbao_kubernetes_kms.Status.Store.{
  empty_store, runtime_registry, load_state, update_circuit_breaker,
}
use openbao_kubernetes_kms.Status.StateStore.{load, load_with, load_checked, optional_checkpoint}
use openbao_kubernetes_kms.Status.StateStore.Crash.{disk_of}
use openbao_kubernetes_kms.Status.Controller.{Settings, Controller, publish_breakers}
use openbao_kubernetes_kms.Status.Controller.Persistence.{Writes}
use openbao_kubernetes_kms.Status.Controller.Probes.{replied, ProbeWorld}
use openbao_kubernetes_kms.Status.Controller.Refresh.{
  DeepWorld, controller_over, load_store, start_controller, new_controller,
}
use openbao_kubernetes_kms.Status.Controller.Restart.{
  ControllerEvent, probes, probes_deep, refreshes, controller_run, Restarts,
  controller_run-Restarts,
}
use openbao_kubernetes_kms.Clock.{Reading, age, remaining, new_lifetime}
use openbao_kubernetes_kms.KeyRegistry.Files.{
  save_state_file, save_encoded_file, new_state_checkpoint, save_state_checkpoint,
}
use openbao_kubernetes_kms.Kms.Server.{CachedStatus}
use openbao_kubernetes_kms.Status.Breaker.{allow, record_success}
use openbao_kubernetes_kms.Status.Store.{
  publish_metadata, with_metadata, update_health, refresh, active_changed, active_for_deep_probe,
  publish_deep_healthy, current, current_of, stale, cached_status,
}
use openbao_kubernetes_kms.Status.StateStore.{save, save_checkpoint}
use openbao_kubernetes_kms.Status.Controller.{
  allow_probe, record_probe_success, promotion_ready, confirm_activation, stable_candidate,
  pending_record, next_wait,
}
use openbao_kubernetes_kms.Status.Controller.Failures.{
  metadata_failed, failure_for_probe, probe_status,
}
use openbao_kubernetes_kms.Status.Controller.Persistence.{
  state_for_observation, state_for, save_state,
}
use openbao_kubernetes_kms.Status.Controller.Probes.{
  probe_once, probe_upsert, probe_profile, publish_observation, save_and_publish, save_if_changed,
  publish_result, published, observe_profile,
}
use openbao_kubernetes_kms.Status.Controller.Refresh.{deep_probe_once, deep_probe_reply}
use openbao_kubernetes_kms.Status.Controller.Restart.{controller_step}
use openbao_kubernetes_kms.Tests.Samples.{
  sample_n, toy, toy_marshal, sample_state, sample_key_id, computing,
}
use openbao_kubernetes_kms.Tests.RotationTests.{observer, profile, observing, now}
use openbao_kubernetes_kms.Tests.StoreTests.{at_time}

-- What the start of a controller computes through.
unfoldable pub starting : ℕ
unfolding observing runtime_registry load_state load load_with load_checked optional_checkpoint
    load_state_checkpoint validate_checkpoint validate_checkpointed_state load_state_file
    validate_loaded_state read_file publish_breakers update_circuit_breaker snapshot
    aggregate_snapshots new_circuit_breaker load_store start_controller new_controller
starting = 0

abbrev settings : Settings
settings = record { observer = observer; path = codes "state.json"; refresh_interval = 30 }

sample_valid : validate_state toy toy_marshal sample_state ≡ ok tt
unfolding computing
sample_valid = refl

abbrev pub breaker : BreakerOptions
breaker = record { failure_threshold = 2; open_duration = 10 }

abbrev unused : Controller
unused = controller_over (empty_store 30) (disk_of sample_state) breaker

abbrev pub controller_of : Result Controller → Controller
controller_of (ok m) = m
controller_of (err _) = unused

-- What NewController makes of the files of the sample state.
controller : Controller
unfolding starting
controller = controller_of (
    new_controller toy toy_marshal settings (empty_store 30) (disk_of sample_state) breaker
      (at_time 1) completes)

controller_ok :
    new_controller toy toy_marshal settings
      (empty_store 30)
      (disk_of sample_state)
      breaker
      (at_time 1)
      completes
    ≡ ok controller
unfolding starting controller
controller_ok = refl

abbrev world : ℕ → Writes → Writes → ProbeWorld
world n recovering saving = record {
  context = ok tt;
  now = at_time n;
  at_allow = at_time n;
  at_publish = at_time n;
  at_confirm = at_time n;
  at_record = at_time n;
  disable_upsert = replied true;
  profile = replied profile;
  recovering = recovering;
  saving = saving;
}

abbrev complete : Writes
complete = record { to_state = completes; to_checkpoint = completes }

abbrev torn : Writes
torn = record { to_state = completes; to_checkpoint = fails_before (err_probe_failed ∷ []) }

abbrev deep_world : DeepWorld
deep_world = record {
  context = ok tt;
  now = at_time 12;
  at_allow = at_time 12;
  at_record = at_time 12;
  round_trip = λ v. replied (record { ciphertext_length = 60; key_version = v });
}

abbrev events : List ControllerEvent
events =
    probes (world 10 complete torn)
    ∷ probes_deep deep_world
    ∷ refreshes sample_key_id (at_time 13) (world 13 torn complete)
    ∷ probes (world 14 torn complete)
    ∷ []

controller_run-Restarts_example :
    Restarts toy toy_marshal settings (controller_run toy toy_marshal settings controller events)
controller_run-Restarts_example =
    controller_run-Restarts toy toy_marshal settings refl (empty_store 30) sample_state breaker
      (at_time 1) completes controller events sample_valid controller_ok

-- A probe that promotes version 4 and a deep probe of it, as time passes.
abbrev pub later : ℕ → Reading
later n = record { wall = now + n; elapsed = n }

abbrev pub world_at : Reading → ProbeWorld
world_at r = record {
  context = ok tt;
  now = r;
  at_allow = r;
  at_publish = r;
  at_confirm = r;
  at_record = r;
  disable_upsert = replied true;
  profile = replied profile;
  recovering = complete;
  saving = complete;
}

abbrev promotes_and_probes : List ControllerEvent
promotes_and_probes =
    probes (world_at (later 10)) ∷ probes_deep (record deep_world { now = later 12 }) ∷ []

abbrev status_of : Option CachedStatus → CachedStatus
status_of (some status) = status
status_of none = record { healthz = []; key_id = []; active_snapshot = sample_n }

unfoldable pub running : ℕ
unfolding starting controller_run controller_step probe_once probe_upsert probe_profile
    publish_observation save_and_publish save_if_changed publish_result published observe_profile
    state_for_observation state_for save_state save save_state_file save_encoded_file
    save_checkpoint new_state_checkpoint save_state_checkpoint allow_probe record_probe_success
    allow record_success promotion_ready confirm_activation stable_candidate pending_record
    next_wait publish_metadata with_metadata update_health refresh active_changed deep_probe_once
    deep_probe_reply active_for_deep_probe publish_deep_healthy current current_of stale
    cached_status age remaining new_lifetime metadata_failed failure_for_probe probe_status
running = 0

abbrev run : Controller
run = controller_run toy toy_marshal settings controller promotes_and_probes

served : CachedStatus
unfolding running controller
served = status_of (current run.store (later 13)).1
