-- ===== src/Tests/StoreTests.antt =====
-- The status store and the retirement of versions, applied to the sample states.
use openbao_kubernetes_kms.Base.{
  ℕ, ◌≡◌, refl, subst, inl, true, false, List, [], ◌∷◌, some, pos, Result, ok, err,
}
use openbao_kubernetes_kms.Clock.{Reading, new_lifetime, age, remaining}
use openbao_kubernetes_kms.KeyRegistry.Snapshot.{state_eq, is_empty}
use openbao_kubernetes_kms.KeyRegistry.Records.{StateRecord}
use openbao_kubernetes_kms.KeyRegistry.State.{StateFile}
use openbao_kubernetes_kms.KeyRegistry.State.Gathering.{Member, is_live}
use openbao_kubernetes_kms.KeyRegistry.State.Progress.{Found}
use openbao_kubernetes_kms.KeyRegistry.Retirement.{
  is_retirable, retire_records, delete, select_versions, restore_records, successor,
  retire_versions, restore_versions,
}
use openbao_kubernetes_kms.KeyRegistry.Retirement.Kept.{
  retire_versions-keeps, restore_versions-keeps,
}
use openbao_kubernetes_kms.Kms.Server.{CachedStatus, health_ok, health_unhealthy}
use openbao_kubernetes_kms.Status.Store.{
  Loaded, Store, empty_store, update_health, refresh, active_changed, with_metadata, with_success,
  stale, cached_status, current_of, current, runtime_registry, publish_healthy, publish_metadata,
}
use openbao_kubernetes_kms.Status.Store.Health.{
  StoreEvent, publishes_healthy, publishes_metadata, reads, store_step, store_run, StoreInv,
  store_run-StoreInv,
}
use openbao_kubernetes_kms.Status.Store.Serving.{Serves, current-Serves}
use openbao_kubernetes_kms.Status.Store.Gate.{publish_metadata-waits}
use openbao_kubernetes_kms.Tests.Samples.{
  toy, toy_laws, toy_marshal, sample_key_id, sample_n, sample_record, sample_registry, sample_state,
  computing,
}
use openbao_kubernetes_kms.Tests.RotationTests.{observed, observing}

abbrev pub at_time : ℕ → Reading
at_time n = record { wall = n; elapsed = n }

-- A sequence in which the sample state is published, its metadata is read again, and time passes.
abbrev calls : List StoreEvent
calls =
    publishes_healthy sample_state (at_time 5) (at_time 6)
    ∷ publishes_metadata sample_state (at_time 10) false (at_time 11)
    ∷ reads (at_time 12)
    ∷ []

abbrev one_publication : List StoreEvent
one_publication = publishes_healthy sample_state (at_time 5) (at_time 6) ∷ []

abbrev pub published : Store
published = record (empty_store 30) {
  healthz = health_ok;
  updated_at = at_time 5;
  freshness = new_lifetime (at_time 5) 30;
  metadata_ok = true;
  deep_probe_ok = true;
  deep_probed = true;
  loaded = some (record { state = sample_state; registry = sample_registry; active = sample_n });
}

published_run : store_run toy toy_marshal (empty_store 30) one_publication ≡ published
unfolding computing store_run store_step publish_healthy runtime_registry update_health refresh
    with_success
published_run = refl

published-StoreInv : StoreInv toy toy_marshal published
published-StoreInv =
    subst (StoreInv toy toy_marshal) published_run
      (store_run-StoreInv toy toy_marshal 30 one_publication)

abbrev healthy_status : CachedStatus
healthy_status = record { healthz = health_ok; key_id = sample_key_id; active_snapshot = sample_n }

published_current : (current published (at_time 12)).1 ≡ some healthy_status
unfolding computing current current_of stale cached_status remaining age new_lifetime
published_current = refl

current-Serves_example : Serves toy toy_marshal published (at_time 12) healthy_status
current-Serves_example =
    current-Serves toy toy_marshal toy_laws published (at_time 12) healthy_status published-StoreInv
      published_current refl

abbrev loaded_of : Result Loaded → Loaded
loaded_of (ok l) = l
loaded_of (err _) = record { state = sample_state; registry = sample_registry; active = sample_n }

-- The state after the promotion, as the store loads it.
promoted : Loaded
unfolding observing observed runtime_registry
promoted = loaded_of (runtime_registry toy toy_marshal observed.state)

promoted_ok : runtime_registry toy toy_marshal observed.state ≡ ok promoted
unfolding observing observed runtime_registry promoted
promoted_ok = refl

promoted_changes : active_changed published.loaded promoted ≡ true
unfolding observing observed runtime_registry promoted active_changed
promoted_changes = refl

abbrev store_of : Result Store → Store
store_of (ok s) = s
store_of (err _) = empty_store 30

waiting : Store
unfolding observing observed runtime_registry publish_metadata update_health refresh with_metadata
    active_changed
waiting =
    store_of
      (publish_metadata toy toy_marshal published observed.state (at_time 20) false (at_time 20))

waiting_ok :
    publish_metadata toy toy_marshal published observed.state (at_time 20) false (at_time 20)
    ≡ ok waiting
unfolding observing observed runtime_registry publish_metadata update_health refresh with_metadata
    active_changed waiting
waiting_ok = refl

abbrev reads_only : List StoreEvent
reads_only = reads (at_time 21) ∷ reads (at_time 22) ∷ []

publish_metadata-waits_example :
    (store_run toy toy_marshal waiting reads_only).healthz ≡ health_unhealthy
publish_metadata-waits_example =
    publish_metadata-waits toy toy_marshal published waiting observed.state (at_time 20) false
      (at_time 20) promoted reads_only published-StoreInv promoted_ok promoted_changes waiting_ok
      (refl, (refl, tt))

-- The state after the promotion has version 4 active and version 3 retired.
abbrev state_of : Result StateFile → StateFile
state_of (ok s) = s
state_of (err _) = sample_state

abbrev first : List StateRecord → StateRecord
first [] = sample_record
first (r ∷ _) = r

newest : StateRecord
unfolding observing observed
newest = first observed.state.snapshots

newest_there : Member newest observed.state.snapshots
unfolding observing observed newest
newest_there = inl refl

newest_live : (is_live newest.state ≡ true) × (is_empty newest.kubernetes_key_id ≡ false)
unfolding observing observed newest
newest_live = (refl, refl)

newest_stays : is_retirable (pos 4) newest ≡ false
unfolding observing observed newest state_eq
newest_stays = refl

without_three : StateFile
unfolding observing observed retire_versions retire_records successor
without_three = state_of (retire_versions toy toy_marshal observed.state (pos 4))

without_three_ok : retire_versions toy toy_marshal observed.state (pos 4) ≡ ok without_three
unfolding observing observed retire_versions retire_records successor without_three
without_three_ok = refl

retire_versions-keeps_example :
    (without_three.active_key_id ≡ observed.state.active_key_id)
    × Found toy newest.kubernetes_key_id without_three
retire_versions-keeps_example =
    retire_versions-keeps toy toy_marshal toy_laws observed.state without_three (pos 4) newest
      without_three_ok newest_there newest_live.0 newest_stays newest_live.1

with_three : StateFile
unfolding observing observed retire_versions retire_records successor without_three restore_versions
    restore_records select_versions delete
with_three = state_of (restore_versions toy toy_marshal without_three (pos 3 ∷ []))

with_three_ok : restore_versions toy toy_marshal without_three (pos 3 ∷ []) ≡ ok with_three
unfolding observing observed retire_versions retire_records successor without_three restore_versions
    restore_records select_versions delete with_three
with_three_ok = refl

kept_newest : StateRecord
unfolding observing observed retire_versions retire_records successor without_three
kept_newest = first without_three.snapshots

kept_there : Member kept_newest without_three.snapshots
unfolding observing observed retire_versions retire_records successor without_three kept_newest
kept_there = inl refl

kept_live : (is_live kept_newest.state ≡ true) × (is_empty kept_newest.kubernetes_key_id ≡ false)
unfolding observing observed retire_versions retire_records successor without_three kept_newest
kept_live = (refl, refl)

restore_versions-keeps_example :
    (with_three.active_key_id ≡ without_three.active_key_id)
    × Found toy kept_newest.kubernetes_key_id with_three
restore_versions-keeps_example =
    restore_versions-keeps toy toy_marshal toy_laws without_three with_three (pos 3 ∷ [])
      kept_newest with_three_ok kept_there kept_live.0 kept_live.1
