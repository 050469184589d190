-- ===== src/Status/StateStore/Replay.antt =====
-- The checkpoint of internal/status/state_store.go refuses replayed state files, and recovery
-- (internal/status/state_recovery.go) completes a save that failed.
use openbao_kubernetes_kms.Base.{
  ◌+◌, ◌-◌, ◌==◌, ltb, ◌≡◌, refl, sym, subst, ◌⊎◌, inl, inr, true, false, not, ◌&&◌, ◌||◌, some,
  arith, Text, text_eq, text_eq_iff, text_eq_refl, Result, ok, fail_if-eq-ok, >>=-eq-ok,
  Result-cases, Bool-cases,
}
use openbao_kubernetes_kms.Crypto.{Crypto}
use openbao_kubernetes_kms.KeyRegistry.Snapshot.{is_empty}
use openbao_kubernetes_kms.KeyRegistry.State.{
  StateFile, HashBody, validate_state, validate_state_progress,
}
use openbao_kubernetes_kms.KeyRegistry.Files.{
  StateCheckpoint, no_options, holds, WriteOutcome, completes, save_encoded_file,
  validate_checkpoint, load_state_checkpoint, save_state_checkpoint, new_state_checkpoint,
  validate_checkpointed_state, load_state_file, save_state_file,
}
use openbao_kubernetes_kms.KeyRegistry.Files.Valid.{
  checkpoint_of, load_state_file-holds, load_state_checkpoint-holds, checkpoint_accepts_own,
  checkpoint_accepts_next,
}
use openbao_kubernetes_kms.Status.StateStore.{
  Disk, optional_checkpoint, recovery_read_error, recovery_state_matches, save_checkpoint,
  checkpoint_is, checkpoint_is_previous, load_checked, load_with, load, save, validate_successor,
  validate_recovery_transition, check_recovered, check_recovery_files, recover,
}
use openbao_kubernetes_kms.Status.StateStore.Crash.{
  disk_of, between, progress_valid, save_checkpoint-completes, save-cases,
}

-- A state that a checkpoint anchors: its own, or the direct successor that is linked to it.
pub data Anchored (k : StateCheckpoint) (s : StateFile) : Type 0 where
  own : s.generation ≡ k.generation → s.current_hash ≡ k.current_hash → Anchored k s
  successor : s.generation ≡ k.generation + 1 → s.previous_hash ≡ k.current_hash → Anchored k s

module _ (c : Crypto) (marshal : HashBody → Result Text) where
  validate_checkpointed_state-Anchored :
      (k : StateCheckpoint) (s : StateFile)
      → validate_checkpointed_state c marshal k s ≡ ok tt
      → Anchored k s
  unfolding validate_checkpointed_state
  validate_checkpointed_state-Anchored k s h =
      let (_, _, h1) = >>=-eq-ok (validate_checkpoint c k) _ h in
      let (_, _, h2) = >>=-eq-ok (validate_state c marshal s) _ h1 in
      let (below, h3) = fail_if-eq-ok (ltb s.generation k.generation) _ _ h2 in
      let (same, h4) =
        fail_if-eq-ok (s.generation == k.generation && not (text_eq s.current_hash k.current_hash))
          _ _ h3 in
      let (skips, h5) =
        fail_if-eq-ok (ltb k.generation s.generation && not (s.generation - k.generation == 1)) _ _
          h4 in
      elim (Bool-cases (ltb k.generation s.generation)) [
        | inl later ↦
            successor (ground arith) (ground (arith, text_eq_iff s.previous_hash k.current_hash))
        | inr not_later ↦
            own (ground arith) (ground (arith, text_eq_iff s.current_hash k.current_hash))
      ]

  save_checkpoint-ok :
      (d d' : Disk) (s t : StateFile) (o : WriteOutcome)
      → save_checkpoint c marshal d s o ≡ (d', ok t)
      → s ≡ t
  unfolding save_checkpoint
  save_checkpoint-ok d d' s t o h = elim (Result-cases (new_state_checkpoint c marshal s)) [
    | inr (e, p) ↦ absurd (ground (arith, rw (p, save_checkpoint) at h))
    | inl (k, p) ↦ elim (Result-cases (save_state_checkpoint c k o d.checkpoint_file).1) [
      | inr (e, q) ↦ absurd (ground (arith, rw (p, q, save_checkpoint) at h))
      | inl (u, q) ↦ ground (arith, rw (p, q, save_checkpoint) at h)
    ]
  ]

  load_checked-Anchored :
      (d d' : Disk) (k : StateCheckpoint) (s t : StateFile) (o : WriteOutcome)
      → load_checked c marshal d (some k) s o ≡ (d', ok t)
      → Anchored k t
  unfolding load_checked
  load_checked-Anchored d d' k s t o h =
      elim (Result-cases (validate_checkpointed_state c marshal k s)) [
        | inr (e, p) ↦ absurd (ground (arith, rw (p, load_checked) at h))
        | inl (u, p) ↦
            let a = validate_checkpointed_state-Anchored k s p in
            elim (Bool-cases (ltb k.generation s.generation)) [
              | inl q ↦
                  subst (Anchored k) (save_checkpoint-ok d d' s t o (rw (p, q, load_checked) at h))
                    a
              | inr q ↦
                  let same : s ≡ t = ground (arith, rw (p, q, load_checked) at h) in
                  subst (Anchored k) same a
            ]
      ]

  -- What Load returns beside a readable checkpoint is the checkpointed state or its direct
  -- successor, linked to it by its hash: an older or a foreign state file is refused.
  pub load-Anchored :
      (path : Text) (d d' : Disk) (k : StateCheckpoint) (s : StateFile) (o : WriteOutcome)
      → load_state_checkpoint c d.checkpoint_file ≡ ok k
      → load c marshal path d o ≡ (d', ok s)
      → Anchored k s
  unfolding load load_with optional_checkpoint
  load-Anchored path d d' k s o hk h = elim (Bool-cases (is_empty path)) [
    | inl e ↦ absurd (ground (arith, rw (e, load) at h))
    | inr e ↦ elim (Result-cases (load_state_file c marshal d.state_file no_options)) [
      | inr (w, q) ↦ absurd (ground (arith, rw (e, hk, q, load) at h))
      | inl ((t, reg), q) ↦ load_checked-Anchored d d' k t s o (rw (e, hk, q, load) at h)
    ]
  ]

  -- A save whose writes complete leaves the files of its state, whatever was there.
  save_completes :
      (path : Text) (d : Disk) (n : StateFile)
      → is_empty path ≡ false
      → validate_state c marshal n ≡ ok tt
      → save c marshal path d n completes completes ≡ (disk_of n, ok n)
  unfolding save save_state_file save_encoded_file
  save_completes path d n e v =
      rw (e, v, save_checkpoint-completes c marshal (record d { state_file = holds n }) n v)

  -- The state of the transition is one recovery accepts.
  recovery_state_matches-either :
      (s p n : StateFile) → (s ≡ p) ⊎ (s ≡ n) → recovery_state_matches s (some p) n ≡ true
  unfolding recovery_state_matches
  recovery_state_matches-either s p n (inl e) =
      subst
        (λ x.
          (text_eq x.current_hash n.current_hash || text_eq x.current_hash p.current_hash) ≡ true)
        (sym e) (ground (arith, text_eq_refl p.current_hash))
  recovery_state_matches-either s p n (inr e) =
      subst
        (λ x.
          (text_eq x.current_hash n.current_hash || text_eq x.current_hash p.current_hash) ≡ true)
        (sym e) (ground (arith, text_eq_refl n.current_hash))

  checkpoint_is-own : (s : StateFile) → checkpoint_is (checkpoint_of s) s ≡ true
  checkpoint_is-own s = ground (arith, text_eq_refl s.current_hash)

  -- The checkpoint of the transition is one recovery accepts.
  checkpoint_is-either :
      (q p n : StateFile)
      → (q ≡ p) ⊎ (q ≡ n)
      → (not (checkpoint_is (checkpoint_of q) n)
          && not (checkpoint_is_previous (checkpoint_of q) (some p)))
        ≡ false
  checkpoint_is-either q p n (inl e) =
      subst
        (λ x.
          (not (checkpoint_is (checkpoint_of x) n) && not (checkpoint_is (checkpoint_of x) p))
          ≡ false)
        (sym e) (ground (arith, checkpoint_is-own p))
  checkpoint_is-either q p n (inr e) =
      subst
        (λ x.
          (not (checkpoint_is (checkpoint_of x) n) && not (checkpoint_is (checkpoint_of x) p))
          ≡ false)
        (sym e) (ground (arith, checkpoint_is-own n))

  -- The check of recovery passes for the file of `s` beside the checkpoint of `q`.
  pub check_recovery_passes :
      (path : Text) (p n s q : StateFile)
      → is_empty path ≡ false
      → validate_state c marshal s ≡ ok tt
      → validate_state c marshal q ≡ ok tt
      → validate_checkpointed_state c marshal (checkpoint_of q) s ≡ ok tt
      → (s ≡ p) ⊎ (s ≡ n)
      → (q ≡ p) ⊎ (q ≡ n)
      → check_recovery_files c marshal path (between q s) (some p) n ≡ ok tt
  unfolding check_recovery_files check_recovered recovery_read_error
  check_recovery_passes path p n s q e v w a hs hq =
      let (reg, r) = load_state_file-holds c marshal s v in
      rw (
        e,
        load_state_checkpoint-holds c marshal q w,
        r,
        a,
        recovery_state_matches-either s p n hs,
        checkpoint_is-either q p n hq,
      )

  pub recover_completes :
      (path : Text) (d : Disk) (p n : StateFile)
      → is_empty path ≡ false
      → validate_state_progress c marshal p n ≡ ok tt
      → check_recovery_files c marshal path d (some p) n ≡ ok tt
      → recover c marshal path d (some p) n completes completes ≡ (disk_of n, ok n)
  unfolding recover validate_recovery_transition validate_successor
  recover_completes path d p n e h k =
      let (_, w) = progress_valid c marshal p n h in rw (w, h, k, save_completes path d n e w)

  -- After a save over the files of a confirmed state that failed anywhere, or succeeded, recovery of
  -- the same save leaves both files of the new state, when its own writes complete.
  pub recover-save :
      (path : Text) (p n : StateFile) (o o' : WriteOutcome)
      → is_empty path ≡ false
      → validate_state_progress c marshal p n ≡ ok tt
      → n.generation ≡ p.generation + 1
      → recover c marshal path
          (save c marshal path (disk_of p) n o o').0
          (some p)
          n
          completes
          completes
        ≡ (disk_of n, ok n)
  recover-save path p n o o' e h g =
      let (v, w) = progress_valid c marshal p n h in
      elim (save-cases c marshal path (disk_of p) n o o' e w) [
        | inl d ↦ rw d (
            recover_completes path (disk_of p) p n e h (
              check_recovery_passes path p n p p e v v (checkpoint_accepts_own c marshal p v)
                (inl refl) (inl refl)))
        | inr (inl d) ↦ rw d (
            recover_completes path (between p n) p n e h (
              check_recovery_passes path p n n p e w v (checkpoint_accepts_next c marshal p n h g)
                (inr refl) (inl refl)))
        | inr (inr d) ↦ rw d (
            recover_completes path (disk_of n) p n e h (
              check_recovery_passes path p n n n e w w (checkpoint_accepts_own c marshal n w)
                (inr refl) (inr refl)))
      ]
