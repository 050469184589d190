-- ===== src/Status/Store.antt =====
-- internal/status/store.go: the status cache between the probes and the KMS handlers. Each method
-- runs under the store's lock, so it is one step; a method that reads the clock takes what the
-- clock shows as `now`. The zero values of a store with no state are the `none` of `loaded`.
pub mod Health
pub mod History
pub mod Serving
pub mod Gate
use openbao_kubernetes_kms.Base.{
  ℕ, ◌==◌, Bool, true, false, not, ◌&&◌, ◌||◌, Option, none, some, List, [], ◌∷◌, if◌then◌else◌,
  Text, codes, text_eq, pos, lt_int, Result, ok, err, untyped, fail_if, ◌>>=◌, ◌>>◌,
  err_config_invalid, err_state_unavailable, err_transit_key_unusable, err_unknown_key_id,
}
use openbao_kubernetes_kms.Crypto.{Crypto}
use openbao_kubernetes_kms.Clock.{
  Time, is_zero, Reading, Lifetime, no_lifetime, new_lifetime, age, remaining,
}
use openbao_kubernetes_kms.KeyRegistry.Snapshot.{KeySnapshot, parse_key_id, is_empty}
use openbao_kubernetes_kms.KeyRegistry.Registry.{Registry, lookup}
use openbao_kubernetes_kms.KeyRegistry.State.{
  StateFile, HashBody, validate_state, state_active, state_registry,
}
use openbao_kubernetes_kms.Status.Breaker.{BreakerSnapshot, no_state}
use openbao_kubernetes_kms.Kms.Server.{CachedStatus, health_ok, health_unhealthy}

-- HealthReason (probe_diagnostics.go)
pub data HealthReason : Type 0 where
  state_unavailable status_stale metadata_unverified upsert_check_failed : HealthReason
  upsert_allowed metadata_read_failed profile_invalid version_rollback : HealthReason
  state_save_failed state_publish_failed encryption_blocked deep_probe_pending : HealthReason
  deep_probe_failed deep_probe_invalid circuit_breaker_open probe_failed : HealthReason

-- probeFailure (probe_diagnostics.go); no reason is Go's empty string.
pub record ProbeFailure : Type 0 where
  pub reason : Option HealthReason
  pub error_class : Text

abbrev pub no_failure : ProbeFailure
no_failure = record { reason = none; error_class = [] }

pub record Loaded : Type 0 where
  pub state : StateFile
  pub registry : Registry
  pub active : KeySnapshot

pub record Store : Type 0 where
  pub max_staleness : ℕ
  pub healthz : Text
  pub updated_at : Reading
  pub freshness : Lifetime
  pub metadata_ok : Bool
  pub encryption_is_blocked : Bool
  pub deep_probe_ok : Bool
  pub deep_probed : Bool
  pub metadata_failure : ProbeFailure
  pub deep_failure : ProbeFailure
  pub persistence_degraded : Bool
  pub loaded : Option Loaded
  pub breaker : BreakerSnapshot

abbrev zero_reading : Reading
zero_reading = record { wall = 0; elapsed = 0 }

abbrev zero_breaker : BreakerSnapshot
zero_breaker = record {
  state = no_state;
  consecutive_failures = 0;
  opened_at = 0;
  open_until = 0;
  last_failure_at = 0;
}

abbrev pub empty_store : ℕ → Store
empty_store max_staleness = record {
  max_staleness = max_staleness;
  healthz = health_unhealthy;
  updated_at = zero_reading;
  freshness = no_lifetime;
  metadata_ok = false;
  encryption_is_blocked = false;
  deep_probe_ok = false;
  deep_probed = false;
  metadata_failure = no_failure;
  deep_failure = no_failure;
  persistence_degraded = false;
  loaded = none;
  breaker = zero_breaker;
}

-- updateHealthLocked
unfoldable pub update_health : Store → Store
update_health s = record s {
  healthz = if s.metadata_ok && s.deep_probe_ok then health_ok else health_unhealthy;
}

-- The time of a publication: the clock's, when none was given.
abbrev pub read_unless_set : Reading → Reading → Reading
read_unless_set updated_at now = if is_zero updated_at.wall then now else updated_at

-- The two fields that every publication of metadata sets last.
unfoldable pub refresh : Reading → Store → Store
unfolding new_lifetime
refresh at s = record s { updated_at = at; freshness = new_lifetime at s.max_staleness }

-- Whether a publication of `l` changes the active key.
unfoldable pub active_changed : Option Loaded → Loaded → Bool
active_changed none l = true
active_changed (some old) l = not (text_eq old.active.kubernetes_key_id l.active.kubernetes_key_id)

-- publishMetadata: the fields before the health is computed.
unfoldable pub with_metadata : Store → Loaded → Bool → Store
unfolding active_changed
with_metadata s l blocked =
    let changed = active_changed s.loaded l in
    record s {
      loaded = some l;
      metadata_ok = not blocked;
      encryption_is_blocked = blocked;
      metadata_failure =
          if blocked
          then record { reason = some encryption_blocked; error_class = [] }
          else no_failure;
      persistence_degraded = false;
      deep_failure = if changed then no_failure else s.deep_failure;
      deep_probe_ok = if changed then false else s.deep_probe_ok;
      deep_probed = if changed then false else s.deep_probed;
    }

-- PublishHealthy: the fields before the health is computed.
unfoldable pub with_success : Store → Loaded → Store
with_success s l = record s {
  loaded = some l;
  metadata_ok = true;
  metadata_failure = no_failure;
  persistence_degraded = false;
  encryption_is_blocked = false;
  deep_probe_ok = true;
  deep_probed = true;
  deep_failure = no_failure;
}

-- publishMetadataUnhealthy: the fields before the health is computed.
unfoldable pub with_metadata_failure : Store → ProbeFailure → Store
with_metadata_failure s failure = record s { metadata_ok = false; metadata_failure = failure }

-- publishMetadataUnhealthy
unfoldable pub publish_metadata_unhealthy : Store → Reading → ProbeFailure → Reading → Store
unfolding update_health refresh with_metadata_failure
publish_metadata_unhealthy s updated_at failure now =
    refresh (read_unless_set updated_at now) (update_health (with_metadata_failure s failure))

abbrev pub holds_hash : Option Loaded → Text → Bool
holds_hash none hash = false
holds_hash (some l) hash = text_eq l.state.current_hash hash

-- publishDeferredObservation
unfoldable pub publish_deferred : Store → Text → Reading → Store × Bool
unfolding update_health refresh
publish_deferred s expected_hash updated_at =
    if holds_hash s.loaded expected_hash && (s.deep_probed && s.deep_probe_ok)
    then (
      update_health (
          refresh updated_at (record s {
            metadata_ok = true;
            metadata_failure = no_failure;
            encryption_is_blocked = false;
            persistence_degraded = true;
          })),
      true,
    )
    else (s, false)

-- publishDeepHealthy
unfoldable pub publish_deep_healthy : Store → Store
unfolding update_health
publish_deep_healthy s =
    update_health (record s { deep_probe_ok = true; deep_probed = true; deep_failure = no_failure })

-- publishDeepUnhealthy
unfoldable pub publish_deep_unhealthy : Store → ProbeFailure → Store
unfolding update_health
publish_deep_unhealthy s failure =
    update_health (record s { deep_probe_ok = false; deep_probed = true; deep_failure = failure })

abbrev pub is_loaded : Option Loaded → Bool
is_loaded none = false
is_loaded (some _) = true

-- deepProbeRequired
unfoldable pub deep_probe_required : Store → Bool
deep_probe_required s =
    is_loaded s.loaded && (s.metadata_ok && (not s.deep_probed || not s.deep_probe_ok))

abbrev pub active_of : Option Loaded → Bool → Result KeySnapshot
active_of none blocked = err (err_state_unavailable ∷ [])
active_of (some l) true = err (err_transit_key_unusable ∷ [])
active_of (some l) false = ok l.active

-- activeForDeepProbe
unfoldable pub active_for_deep_probe : Store → Result KeySnapshot
active_for_deep_probe s = active_of s.loaded s.encryption_is_blocked

-- staleLocked; reading the lifetime remembers the age.
unfoldable pub stale : Store → Reading → Store × Bool
stale s now = if is_zero s.updated_at.wall then (s, true) else (
  record s { freshness = (remaining s.freshness now).0 },
  lt_int (remaining s.freshness now).1 (pos 0),
)

-- normalizedHealth (diagnostics.go)
abbrev pub normalized_health : Text → Text
normalized_health healthz = if is_empty healthz then health_unhealthy else healthz

-- What Current answers for the loaded state, the health and the staleness.
unfoldable pub cached_status : Loaded → Text → Bool → CachedStatus
cached_status l healthz is_stale =
    if text_eq healthz health_ok && not is_stale
    then record {
      healthz = health_ok;
      key_id = l.active.kubernetes_key_id;
      active_snapshot = l.active;
    }
    else record {
      healthz = if text_eq healthz health_ok then health_unhealthy else healthz;
      key_id = [];
      active_snapshot = l.active;
    }

-- The zero snapshot that a status without state holds.
abbrev pub CurrentStatus : Type 0
CurrentStatus = Option CachedStatus

-- Current under the lock, for what is loaded.
unfoldable pub current_of : Option Loaded → Store → Reading → Store × CurrentStatus
current_of none s now = (s, none)
current_of (some l) s now =
    if text_eq (normalized_health s.healthz) health_ok
    then ((stale s now).0, some (cached_status l (normalized_health s.healthz) (stale s now).1))
    else (s, some (cached_status l (normalized_health s.healthz) false))

-- Current, with a live context; with no state the status is unhealthy and has neither a key_id nor
-- a snapshot, which is `none`.
unfoldable pub current : Store → Reading → Store × CurrentStatus
unfolding current_of
current s now = current_of s.loaded s now

-- UpdateCircuitBreaker
unfoldable pub update_circuit_breaker : Store → BreakerSnapshot → Store
update_circuit_breaker s breaker = record s { breaker = breaker }

module _ (c : Crypto) where
  -- Lookup
  unfoldable pub store_lookup : Store → Text → Result KeySnapshot
  store_lookup s key_id = elim s.loaded [
    | none ↦ do _ ← parse_key_id c key_id; err (err_unknown_key_id ∷ [])
    | some l ↦ lookup c l.registry key_id
  ]

  module _ (marshal : HashBody → Result Text) where
    -- runtimeRegistry
    unfoldable pub runtime_registry : StateFile → Result Loaded
    runtime_registry state = do
      validate_state c marshal state
      a ← state_active c state
      registry ← state_registry c state
      ok (record { state = state; registry = registry; active = a })

    -- LoadState
    unfoldable pub load_state : Store → StateFile → Result Store
    load_state s state = do
      l ← runtime_registry state
      ok (record s {
        loaded = some l;
        healthz = if is_empty s.healthz then health_unhealthy else s.healthz;
      })

    -- NewStore
    unfoldable pub new_store : ℕ → Option StateFile → Result Store
    unfolding load_state
    new_store max_staleness initial = do
      fail_if (max_staleness == 0) (err_config_invalid ∷ [])
      elim initial [
        | none ↦ ok (empty_store max_staleness)
        | some state ↦ load_state (empty_store max_staleness) state
      ]

    -- PublishHealthy
    unfoldable pub publish_healthy : Store → StateFile → Reading → Reading → Result Store
    unfolding update_health refresh with_success
    publish_healthy s state updated_at now = do
      l ← runtime_registry state
      ok (refresh (read_unless_set updated_at now) (update_health (with_success s l)))

    -- publishMetadata
    unfoldable pub publish_metadata : Store → StateFile → Reading → Bool → Reading → Result Store
    unfolding update_health refresh with_metadata
    publish_metadata s state updated_at blocked now = do
      l ← runtime_registry state
      ok (refresh (read_unless_set updated_at now) (update_health (with_metadata s l blocked)))
