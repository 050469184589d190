-- ===== src/Status/Store/History.antt =====
-- The store of internal/status/store.go against the history of its calls, the latest one first.
use openbao_kubernetes_kms.Base.{
  ◌≡◌, Bool, true, false, not, ◌&&◌, Option, none, some, List, [], ◌∷◌, if◌then◌else◌, Text,
  text_eq, Result, ok, err,
}
use openbao_kubernetes_kms.Crypto.{Crypto}
use openbao_kubernetes_kms.Clock.{is_zero, Reading}
use openbao_kubernetes_kms.KeyRegistry.State.{StateFile, HashBody}
use openbao_kubernetes_kms.Kms.Server.{health_ok, health_unhealthy}
use openbao_kubernetes_kms.Status.Store.{
  Loaded, Store, update_health, refresh, runtime_registry, read_unless_set, no_failure,
}
use openbao_kubernetes_kms.Status.Store.Health.{
  StoreEvent, loads, publishes_healthy, publishes_metadata, metadata_fails, defers, deep_succeeds,
  deep_fails,
}

-- The calls in the order of the history.
unfoldable pub recorded : List StoreEvent → List StoreEvent → List StoreEvent
recorded [] h = h
recorded (e ∷ es) h = recorded es (e ∷ h)

abbrev first_of : Option Loaded → Option Loaded → Option Loaded
first_of none old = old
first_of (some l) old = some l

abbrev when_some : {A : Type 0} → Option Loaded → A → A → A
when_some none new old = old
when_some (some l) new old = new

-- Whether a state that was accepted has another active key than the one before it.
abbrev replaces : Option Loaded → Option Loaded → Bool
replaces none old = false
replaces (some l) none = true
replaces (some l) (some o) = not (text_eq o.active.kubernetes_key_id l.active.kubernetes_key_id)

abbrev has_hash : Option Loaded → Text → Bool
has_hash none hash = false
has_hash (some l) hash = text_eq l.state.current_hash hash

-- The store after an observation was deferred.
abbrev deferred : Store → Reading → Store
deferred s at = update_health (
    refresh at (record s {
      metadata_ok = true;
      metadata_failure = no_failure;
      encryption_is_blocked = false;
      persistence_degraded = true;
    }))

module _ (c : Crypto) (marshal : HashBody → Result Text) where
  -- What a state is loaded as, if it is valid.
  abbrev accepted_of : Result Loaded → Option Loaded
  accepted_of (err _) = none
  accepted_of (ok l) = some l

  abbrev pub accepted : StateFile → Option Loaded
  accepted state = accepted_of (runtime_registry c marshal state)

  -- The valid state that was given last.
  unfoldable pub published : List StoreEvent → Option Loaded
  published [] = none
  published (loads s ∷ h) = let old = published h in first_of (accepted s) old
  published (publishes_healthy s at now ∷ h) = let old = published h in first_of (accepted s) old
  published (publishes_metadata s at blocked now ∷ h) =
      let old = published h in first_of (accepted s) old
  published (_ ∷ h) = published h

  -- Whether the deep probe of the active key passed last.
  unfoldable pub deep_passed : List StoreEvent → Bool
  deep_passed [] = false
  deep_passed (deep_succeeds ∷ h) = true
  deep_passed (deep_fails failure ∷ h) = false
  deep_passed (publishes_healthy s at now ∷ h) =
      let old = deep_passed h in when_some (accepted s) true old
  deep_passed (publishes_metadata s at blocked now ∷ h) =
      let old = deep_passed h in if replaces (accepted s) (published h) then false else old
  deep_passed (_ ∷ h) = deep_passed h

  -- Whether an observation that was not saved leaves the published state usable.
  abbrev deferrable : Text → List StoreEvent → Bool
  deferrable hash h = has_hash (published h) hash && deep_passed h

  -- Whether the check of the metadata passed last.
  unfoldable pub metadata_passed : List StoreEvent → Bool
  metadata_passed [] = false
  metadata_passed (metadata_fails at failure now ∷ h) = false
  metadata_passed (publishes_healthy s at now ∷ h) =
      let old = metadata_passed h in when_some (accepted s) true old
  metadata_passed (publishes_metadata s at blocked now ∷ h) =
      let old = metadata_passed h in when_some (accepted s) (not blocked) old
  metadata_passed (defers hash at ∷ h) =
      let old = metadata_passed h in if deferrable hash h then true else old
  metadata_passed (_ ∷ h) = metadata_passed h

  -- When the check of the metadata ended last, whichever way; never is the zero reading.
  unfoldable pub checked_at : List StoreEvent → Reading
  checked_at [] = record { wall = 0; elapsed = 0 }
  checked_at (metadata_fails at failure now ∷ h) = read_unless_set at now
  checked_at (publishes_healthy s at now ∷ h) =
      let old = checked_at h in when_some (accepted s) (read_unless_set at now) old
  checked_at (publishes_metadata s at blocked now ∷ h) =
      let old = checked_at h in when_some (accepted s) (read_unless_set at now) old
  checked_at (defers hash at ∷ h) = let old = checked_at h in if deferrable hash h then at else old
  checked_at (_ ∷ h) = checked_at h

  record Reflects (s : Store) (h : List StoreEvent) : Type 0 where
    metadata : s.metadata_ok ≡ metadata_passed h
    deep : s.deep_probe_ok ≡ deep_passed h
    loaded : s.loaded ≡ published h
    at : s.updated_at ≡ checked_at h

  -- What a store shows of the history of its calls.
  pub record Accounts (s : Store) (h : List StoreEvent) : Type 0 where
    -- It is healthy exactly when the last check of the metadata and the last deep probe passed.
    pub health :
        s.healthz ≡ (if metadata_passed h && deep_passed h then health_ok else health_unhealthy)
    -- While the active key may not encrypt, the last check of the metadata did not pass.
    pub blocked : s.encryption_is_blocked ≡ true → metadata_passed h ≡ false
    -- It serves the valid state that was given last.
    pub loaded : s.loaded ≡ published h
    -- Its freshness is counted from the end of the last check of the metadata.
    pub updated_at : s.updated_at ≡ checked_at h
    pub fresh_start : is_zero (checked_at h).wall ≡ false → s.freshness.start ≡ checked_at h
    pub fresh_limit : is_zero (checked_at h).wall ≡ false → s.freshness.limit ≡ s.max_staleness
