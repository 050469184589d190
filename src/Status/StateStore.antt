-- ===== src/Status/StateStore.antt =====
-- internal/status/state_store.go and state_recovery.go: the state file and its checkpoint, written
-- one after the other. The outcome of each write is an argument.
pub mod Crash
pub mod Replay
use openbao_kubernetes_kms.Base.{
  ℕ, ◌==◌, ltb, ◌≡◌, Bool, true, false, not, ◌&&◌, ◌||◌, Option, none, some, List, [], ◌∷◌,
  if◌then◌else◌, Text, text_eq, Result, ok, err, Error, error_is, fail_if, if_err, ◌>>=◌, ◌>>◌,
  err_state_not_found, err_state_rollback, err_config_invalid,
}
use openbao_kubernetes_kms.Crypto.{Crypto}
use openbao_kubernetes_kms.KeyRegistry.Snapshot.{is_empty}
use openbao_kubernetes_kms.KeyRegistry.Registry.{Registry}
use openbao_kubernetes_kms.KeyRegistry.State.{
  StateFile, HashBody, rollback, validate_state, validate_state_progress,
}
use openbao_kubernetes_kms.KeyRegistry.Files.{
  StateCheckpoint, no_options, FileContent, WriteOutcome, load_state_checkpoint,
  save_state_checkpoint, new_state_checkpoint, validate_checkpointed_state, load_state_file,
  save_state_file,
}

-- The two files of a FileStateStore.
pub record Disk : Type 0 where
  pub state_file : FileContent StateFile
  pub checkpoint_file : FileContent StateCheckpoint

-- The checkpoint that was read; a missing one is none.
unfoldable pub optional_checkpoint : Result StateCheckpoint → Result (Option StateCheckpoint)
optional_checkpoint (ok k) = ok (some k)
optional_checkpoint (err e) = if error_is e err_state_not_found then ok none else err e

-- recoveryReadError
unfoldable pub recovery_read_error {ℓ} : {A : Type ℓ} → Result A → Bool → Result (Unit {0})
recovery_read_error (ok _) allow_missing = ok tt
recovery_read_error (err e) allow_missing =
    if error_is e err_state_not_found
    then (if allow_missing then ok tt else err rollback)
    else err e

abbrev same_hash : Option StateFile → Text → Bool
same_hash none hash = false
same_hash (some p) hash = text_eq hash p.current_hash

-- recoveryStateMatches
unfoldable pub recovery_state_matches : StateFile → Option StateFile → StateFile → Bool
recovery_state_matches state previous attempted =
    text_eq state.current_hash attempted.current_hash || same_hash previous state.current_hash

abbrev checkpoint_is : StateCheckpoint → StateFile → Bool
checkpoint_is k s = text_eq k.current_hash s.current_hash && (k.generation == s.generation)

abbrev checkpoint_is_previous : StateCheckpoint → Option StateFile → Bool
checkpoint_is_previous k none = false
checkpoint_is_previous k (some p) = checkpoint_is k p

abbrev pub is_none {ℓ} : {A : Type ℓ} → Option A → Bool
is_none none = true
is_none (some _) = false

module _ (c : Crypto) (marshal : HashBody → Result Text) where
  -- saveCheckpoint, and the result of the call around it.
  unfoldable pub save_checkpoint : Disk → StateFile → WriteOutcome → Disk × Result StateFile
  save_checkpoint d state o =
      if_err (new_state_checkpoint c marshal state) (λ e. (d, err e))
        (λ k.
          let (f, r) = save_state_checkpoint c k o d.checkpoint_file in
          (record d { checkpoint_file = f }, (r >> ok state)))

  -- Load from the state that was read on.
  unfoldable pub load_checked :
      Disk → Option StateCheckpoint → StateFile → WriteOutcome → Disk × Result StateFile
  unfolding save_checkpoint
  load_checked d none state o = save_checkpoint d state o
  load_checked d (some k) state o =
      if_err (validate_checkpointed_state c marshal k state) (λ e. (d, err e))
        (λ _.
          if ltb k.generation state.generation then save_checkpoint d state o else (d, ok state))

  -- Load from the checkpoint that was read on.
  unfoldable pub load_with :
      Disk
      → Option StateCheckpoint
      → Result (StateFile × Registry)
      → WriteOutcome
      → Disk × Result StateFile
  unfolding load_checked
  load_with d k (err e) o =
      (d, if not (is_none k) && error_is e err_state_not_found then err rollback else err e)
  load_with d k (ok (state, registry)) o = load_checked d k state o

  -- FileStateStore.Load
  unfoldable pub load : Text → Disk → WriteOutcome → Disk × Result StateFile
  unfolding load_with optional_checkpoint
  load path d o =
      if is_empty path
      then (d, err (err_config_invalid ∷ []))
      else if_err (optional_checkpoint (load_state_checkpoint c d.checkpoint_file))
          (λ e. (d, err e))
          (λ k. load_with d k (load_state_file c marshal d.state_file no_options) o)

  -- FileStateStore.Save; the first outcome is that of the state file.
  unfoldable pub save :
      Text → Disk → StateFile → WriteOutcome → WriteOutcome → Disk × Result StateFile
  unfolding save_checkpoint
  save path d state o o' =
      if is_empty path
      then (d, err (err_config_invalid ∷ []))
      else let (f, r) = save_state_file c marshal state o d.state_file in
        let saved = record d { state_file = f } in
        if_err r (λ e. (saved, err e)) (λ _. save_checkpoint saved state o')

  -- validateRecoveryTransition, of an attempted state that is valid.
  unfoldable pub validate_successor : Option StateFile → StateFile → Result (Unit {0})
  validate_successor (some p) attempted = validate_state_progress c marshal p attempted
  validate_successor none attempted =
      fail_if (not (attempted.generation == 1) || not (is_empty attempted.previous_hash)) rollback

  -- validateRecoveryTransition
  unfoldable pub validate_recovery_transition : Option StateFile → StateFile → Result (Unit {0})
  unfolding validate_successor
  validate_recovery_transition previous attempted = do
    validate_state c marshal attempted
    validate_successor previous attempted

  abbrev matches_if_read : Result (StateFile × Registry) → Option StateFile → StateFile → Bool
  matches_if_read (err _) previous attempted = true
  matches_if_read (ok (state, _)) previous attempted =
      recovery_state_matches state previous attempted

  -- checkRecoveryFiles once the checkpoint was read, or was missing in a bootstrap.
  unfoldable pub check_recovered :
      Result (StateFile × Registry)
      → Result StateCheckpoint
      → Option StateFile
      → StateFile
      → Result (Unit {0})
  check_recovered state (err _) previous attempted = ok tt
  check_recovered (err _) (ok k) previous attempted = err rollback
  check_recovered (ok (state, _)) (ok k) previous attempted = do
    validate_checkpointed_state c marshal k state
    fail_if (not (checkpoint_is k attempted) && not (checkpoint_is_previous k previous)) rollback

  -- checkRecoveryFiles
  unfoldable pub check_recovery_files :
      Text → Disk → Option StateFile → StateFile → Result (Unit {0})
  unfolding check_recovered recovery_read_error recovery_state_matches
  check_recovery_files path d previous attempted = do
    fail_if (is_empty path) (err_config_invalid ∷ [])
    let state = load_state_file c marshal d.state_file no_options
    let checkpoint = load_state_checkpoint c d.checkpoint_file
    recovery_read_error state (is_none previous)
    recovery_read_error checkpoint (is_none previous)
    fail_if (not (matches_if_read state previous attempted)) rollback
    check_recovered state checkpoint previous attempted

  -- Recover
  unfoldable pub recover :
      Text
      → Disk
      → Option StateFile
      → StateFile
      → WriteOutcome
      → WriteOutcome
      → Disk × Result StateFile
  unfolding save
  recover path d previous attempted o o' =
      if_err
        (validate_recovery_transition previous attempted
          >> check_recovery_files path d previous attempted)
        (λ e. (d, err e)) (λ _. save path d attempted o o')

  -- Confirm
  unfoldable pub confirm : Disk → StateFile → Result (Unit {0})
  confirm d expected = do
    validate_state c marshal expected
    (state, _) ← load_state_file c marshal d.state_file no_options
    k ← load_state_checkpoint c d.checkpoint_file
    fail_if
        (not (text_eq state.current_hash expected.current_hash)
          || (not (text_eq k.current_hash expected.current_hash)
              || not (k.generation == expected.generation)))
        rollback
