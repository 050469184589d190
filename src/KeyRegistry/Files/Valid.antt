-- ===== src/KeyRegistry/Files/Valid.antt =====
-- What is valid is read back from the files of internal/keyregistry/state.go as it was saved.
use openbao_kubernetes_kms.Base.{
  ◌+◌, ◌==◌, leb, ◌≡◌, false, not, arith, Text, text_eq, text_eq_refl, Result, ok, fail_if-eq-ok,
  >>=-eq-ok, length, if◌then◌else◌,
}
use openbao_kubernetes_kms.Crypto.{Crypto}
use openbao_kubernetes_kms.KeyRegistry.Snapshot.{is_empty}
use openbao_kubernetes_kms.KeyRegistry.Registry.{Registry}
use openbao_kubernetes_kms.KeyRegistry.State.{
  StateFile, HashBody, state_file_version, validate_state_hash, validate_identity_fingerprint,
  validate_state, validate_state_progress,
}
use openbao_kubernetes_kms.KeyRegistry.State.Progress.{validate_state-registry}
use openbao_kubernetes_kms.KeyRegistry.Files.{
  StateCheckpoint, state_checkpoint_version, no_options, holds, read_file, validate_loaded_state,
  validate_checkpoint, load_state_checkpoint, new_state_checkpoint, validate_checkpointed_state,
  load_state_file,
}

-- The checkpoint of a state.
abbrev pub checkpoint_of : StateFile → StateCheckpoint
checkpoint_of s = record {
  schema_version = state_checkpoint_version;
  generation = s.generation;
  current_hash = s.current_hash;
}

module _ (c : Crypto) (marshal : HashBody → Result Text) where
  -- The generation and the hash of a valid state.
  pub validate_state-parts :
      (s : StateFile)
      → validate_state c marshal s ≡ ok tt
      → ((s.generation == 0) ≡ false) × (validate_state_hash c s.current_hash ≡ ok tt)
  unfolding validate_state
  validate_state-parts s h =
      let (_, h1) = fail_if-eq-ok (not (text_eq s.schema_version state_file_version)) _ _ h in
      let (_, _, h2) = >>=-eq-ok (validate_identity_fingerprint c s.identity_fingerprint) _ h1 in
      let (g, h3) = fail_if-eq-ok (s.generation == 0) _ _ h2 in
      let (_, h4) = fail_if-eq-ok (is_empty s.active_key_id) _ _ h3 in
      let (_, h5) = fail_if-eq-ok (length s.snapshots == 0) _ _ h4 in
      let (_, _, h6) =
        >>=-eq-ok
          (if is_empty s.previous_hash then ok tt else validate_state_hash c s.previous_hash) _
          h5 in
      let (_, p, _) = >>=-eq-ok (validate_state_hash c s.current_hash) _ h6 in (g, p)

  pub checkpoint_valid :
      (s : StateFile)
      → validate_state c marshal s ≡ ok tt
      → validate_checkpoint c (checkpoint_of s) ≡ ok tt
  unfolding validate_checkpoint
  checkpoint_valid s h =
      let (g, p) = validate_state-parts s h in rw (text_eq_refl state_checkpoint_version, g) p

  pub new_state_checkpoint_lem :
      (s : StateFile)
      → validate_state c marshal s ≡ ok tt
      → new_state_checkpoint c marshal s ≡ ok (checkpoint_of s)
  unfolding new_state_checkpoint
  new_state_checkpoint_lem s h = rw (h, checkpoint_valid s h)

  -- A valid state is loaded from a file that holds it.
  pub load_state_file-holds :
      (s : StateFile)
      → validate_state c marshal s ≡ ok tt
      → (reg : Registry) × (load_state_file c marshal (holds s) no_options ≡ ok (s, reg))
  unfolding load_state_file read_file validate_loaded_state
  load_state_file-holds s h =
      let (reg, p) = validate_state-registry c marshal s h in (reg, rw (h, p))

  pub load_state_checkpoint-holds :
      (s : StateFile)
      → validate_state c marshal s ≡ ok tt
      → load_state_checkpoint c (holds (checkpoint_of s)) ≡ ok (checkpoint_of s)
  unfolding load_state_checkpoint read_file
  load_state_checkpoint-holds s h = rw (checkpoint_valid s h)

  -- A checkpoint accepts its own state.
  pub checkpoint_accepts_own :
      (s : StateFile)
      → validate_state c marshal s ≡ ok tt
      → validate_checkpointed_state c marshal (checkpoint_of s) s ≡ ok tt
  unfolding validate_checkpointed_state
  checkpoint_accepts_own s h =
      rw (checkpoint_valid s h, h) (ground (arith, text_eq_refl s.current_hash))

  -- A checkpoint accepts the successor that a rename left before the checkpoint was written.
  pub checkpoint_accepts_next :
      (p n : StateFile)
      → validate_state_progress c marshal p n ≡ ok tt
      → n.generation ≡ p.generation + 1
      → validate_checkpointed_state c marshal (checkpoint_of p) n ≡ ok tt
  unfolding validate_checkpointed_state validate_state_progress
  checkpoint_accepts_next p n h g =
      let (_, v, h1) = >>=-eq-ok (validate_state c marshal p) _ h in
      let (_, w, h2) = >>=-eq-ok (validate_state c marshal n) _ h1 in
      let (_, h3) =
        fail_if-eq-ok (not (text_eq n.identity_fingerprint p.identity_fingerprint)) _ _ h2 in
      let (_, h4) = fail_if-eq-ok (leb n.generation p.generation) _ _ h3 in
      let (linked, _) = fail_if-eq-ok (not (text_eq n.previous_hash p.current_hash)) _ _ h4 in
      rw (checkpoint_valid p v, w) (ground arith)
