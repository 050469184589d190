-- ===== src/KeyRegistry/Files.antt =====
-- internal/keyregistry/state.go: the replay checkpoint, and the two persisted files. A file is
-- absent, cannot be read, or holds what encoding/json decodes from it; a write ends before the
-- rename, after it (the directory's sync failed), or completes.
pub mod Valid
use openbao_kubernetes_kms.Base.{
  ℕ, ◌==◌, ltb, ◌-◌, ◌≡◌, Bool, true, false, not, ◌&&◌, List, [], ◌∷◌, if◌then◌else◌, Text, codes,
  text_eq, Result, ok, err, Error, fail_if, if_err, ◌>>=◌, ◌>>◌, err_state_not_found,
  err_state_rollback,
}
use openbao_kubernetes_kms.Crypto.{Crypto}
use openbao_kubernetes_kms.KeyRegistry.Snapshot.{is_empty}
use openbao_kubernetes_kms.KeyRegistry.Registry.{Registry}
use openbao_kubernetes_kms.KeyRegistry.Records.{corrupt}
use openbao_kubernetes_kms.KeyRegistry.State.{
  StateFile, HashBody, rollback, validate_state_hash, validate_state, state_registry,
}

pub record StateCheckpoint : Type 0 where
  pub schema_version : Text
  pub generation : ℕ
  pub current_hash : Text

abbrev pub state_checkpoint_version : Text
state_checkpoint_version = codes "keyregistry.openbao-kms/checkpoint/v1alpha1"

pub record StateLoadOptions : Type 0 where
  pub minimum_generation : ℕ
  pub expected_hash : Text

abbrev pub no_options : StateLoadOptions
no_options = record { minimum_generation = 0; expected_hash = [] }

pub data FileContent (A : Type 0) : Type 0 where
  absent : FileContent A
  unreadable : Error → FileContent A
  holds : A → FileContent A

-- How an atomic write ended.
pub data WriteOutcome : Type 0 where
  fails_before : Error → WriteOutcome
  fails_after : Error → WriteOutcome
  completes : WriteOutcome

-- openStateFile and the decoding.
unfoldable pub read_file : {A : Type 0} → FileContent A → Result A
read_file absent = err (err_state_not_found ∷ [])
read_file (unreadable e) = err e
read_file (holds a) = ok a

-- saveEncodedFile
unfoldable pub save_encoded_file :
    {A : Type 0} → A → WriteOutcome → FileContent A → FileContent A × Result (Unit {0})
save_encoded_file a (fails_before e) f = (f, err e)
save_encoded_file a (fails_after e) f = (holds a, err e)
save_encoded_file a completes f = (holds a, ok tt)

-- validateLoadedState
unfoldable pub validate_loaded_state : StateFile → StateLoadOptions → Result (Unit {0})
validate_loaded_state state opts = do
  fail_if (ltb 0 opts.minimum_generation && ltb state.generation opts.minimum_generation) rollback
  fail_if (not (is_empty opts.expected_hash) && not (text_eq state.current_hash opts.expected_hash))
      rollback

module _ (c : Crypto) where
  -- StateCheckpoint.Validate
  unfoldable pub validate_checkpoint : StateCheckpoint → Result (Unit {0})
  validate_checkpoint k = do
    fail_if (not (text_eq k.schema_version state_checkpoint_version)) corrupt
    fail_if (k.generation == 0) corrupt
    validate_state_hash c k.current_hash

  -- LoadStateCheckpoint
  unfoldable pub load_state_checkpoint : FileContent StateCheckpoint → Result StateCheckpoint
  load_state_checkpoint f = do k ← read_file f; validate_checkpoint k; ok k

  -- SaveStateCheckpoint
  unfoldable pub save_state_checkpoint :
      StateCheckpoint
      → WriteOutcome
      → FileContent StateCheckpoint
      → FileContent StateCheckpoint × Result (Unit {0})
  save_state_checkpoint k o f =
      if_err (validate_checkpoint k) (λ e. (f, err e)) (λ _. save_encoded_file k o f)

  module _ (marshal : HashBody → Result Text) where
    -- NewStateCheckpoint
    unfoldable pub new_state_checkpoint : StateFile → Result StateCheckpoint
    new_state_checkpoint state = do
      validate_state c marshal state
      let k : StateCheckpoint = record {
        schema_version = state_checkpoint_version;
        generation = state.generation;
        current_hash = state.current_hash;
      }
      validate_checkpoint k
      ok k

    -- StateCheckpoint.ValidateState
    unfoldable pub validate_checkpointed_state : StateCheckpoint → StateFile → Result (Unit {0})
    validate_checkpointed_state k state = do
      validate_checkpoint k
      validate_state c marshal state
      fail_if (ltb state.generation k.generation) rollback
      fail_if (state.generation == k.generation && not (text_eq state.current_hash k.current_hash))
          rollback
      fail_if (ltb k.generation state.generation && not (state.generation - k.generation == 1))
          rollback
      fail_if
          (ltb k.generation state.generation && not (text_eq state.previous_hash k.current_hash))
          rollback

    -- LoadStateFile, with decodeState
    unfoldable pub load_state_file :
        FileContent StateFile → StateLoadOptions → Result (StateFile × Registry)
    load_state_file f opts = do
      state ← read_file f
      validate_state c marshal state
      validate_loaded_state state opts
      registry ← state_registry c state
      ok (state, registry)

    -- SaveStateFile; what the checks of the path refuse is a write that fails before the rename.
    unfoldable pub save_state_file :
        StateFile → WriteOutcome → FileContent StateFile → FileContent StateFile × Result (Unit {0})
    save_state_file state o f =
        if_err (validate_state c marshal state) (λ e. (f, err e)) (λ _. save_encoded_file state o f)
