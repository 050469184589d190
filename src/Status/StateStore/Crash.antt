-- ===== src/Status/StateStore/Crash.antt =====
-- A save of internal/status/state_store.go that stops anywhere leaves files that load.
use openbao_kubernetes_kms.Base.{
  ◌+◌, ltb, ◌≡◌, ◌⊎◌, inl, inr, true, false, arith, Text, Result, ok, >>=-eq-ok,
}
use openbao_kubernetes_kms.Crypto.{Crypto}
use openbao_kubernetes_kms.KeyRegistry.Snapshot.{is_empty}
use openbao_kubernetes_kms.KeyRegistry.State.{
  StateFile, HashBody, validate_state, validate_state_progress,
}
use openbao_kubernetes_kms.KeyRegistry.Files.{
  holds, WriteOutcome, fails_before, fails_after, completes, save_encoded_file,
  save_state_checkpoint, save_state_file,
}
use openbao_kubernetes_kms.KeyRegistry.Files.Valid.{
  checkpoint_of, checkpoint_valid, new_state_checkpoint_lem, load_state_file-holds,
  load_state_checkpoint-holds, checkpoint_accepts_own, checkpoint_accepts_next,
}
use openbao_kubernetes_kms.Status.StateStore.{
  Disk, optional_checkpoint, save_checkpoint, load_checked, load_with, load, save,
}

-- Both files of one state.
abbrev pub disk_of : StateFile → Disk
disk_of s = record { state_file = holds s; checkpoint_file = holds (checkpoint_of s) }

-- The file of a state beside the checkpoint of the one before.
abbrev pub between : StateFile → StateFile → Disk
between p n = record { state_file = holds n; checkpoint_file = holds (checkpoint_of p) }

module _ (c : Crypto) (marshal : HashBody → Result Text) where
  pub progress_valid :
      (p n : StateFile)
      → validate_state_progress c marshal p n ≡ ok tt
      → (validate_state c marshal p ≡ ok tt) × (validate_state c marshal n ≡ ok tt)
  unfolding validate_state_progress
  progress_valid p n h =
      let (_, v, h1) = >>=-eq-ok (validate_state c marshal p) _ h in
      let (_, w, _) = >>=-eq-ok (validate_state c marshal n) _ h1 in (v, w)

  pub save_checkpoint-completes :
      (d : Disk) (s : StateFile)
      → validate_state c marshal s ≡ ok tt
      → save_checkpoint c marshal d s completes
        ≡ (record d { checkpoint_file = holds (checkpoint_of s) }, ok s)
  unfolding save_checkpoint save_state_checkpoint save_encoded_file
  save_checkpoint-completes d s v =
      rw (new_state_checkpoint_lem c marshal s v, checkpoint_valid c marshal s v)

  -- From the files of a state that state is loaded, and they are left as they are.
  pub load-disk_of :
      (path : Text) (s : StateFile) (o : WriteOutcome)
      → is_empty path ≡ false
      → validate_state c marshal s ≡ ok tt
      → load c marshal path (disk_of s) o ≡ (disk_of s, ok s)
  unfolding load load_with load_checked optional_checkpoint
  load-disk_of path s o e v =
      let (reg, p) = load_state_file-holds c marshal s v in
      rw (e, load_state_checkpoint-holds c marshal s v, p, checkpoint_accepts_own c marshal s v)
        (ground arith)

  -- A state file that is one step ahead of its checkpoint is loaded, and the checkpoint catches up.
  pub load-between :
      (path : Text) (p n : StateFile)
      → is_empty path ≡ false
      → validate_state_progress c marshal p n ≡ ok tt
      → n.generation ≡ p.generation + 1
      → load c marshal path (between p n) completes ≡ (disk_of n, ok n)
  unfolding load load_with load_checked optional_checkpoint
  load-between path p n e h g =
      let (v, w) = progress_valid p n h in
      let (reg, q) = load_state_file-holds c marshal n w in
      let later : ltb p.generation n.generation ≡ true = ground arith in
      rw (
        e,
        load_state_checkpoint-holds c marshal p v,
        q,
        checkpoint_accepts_next c marshal p n h g,
        later,
        save_checkpoint-completes (between p n) n w,
      )

  -- Where a save over two files may stop.
  pub save-cases :
      (path : Text) (d : Disk) (n : StateFile) (o o' : WriteOutcome)
      → is_empty path ≡ false
      → validate_state c marshal n ≡ ok tt
      → ((save c marshal path d n o o').0 ≡ d)
        ⊎ (((save c marshal path d n o o').0 ≡ record d { state_file = holds n })
            ⊎ ((save c marshal path d n o o').0 ≡ disk_of n))
  unfolding save save_state_file save_encoded_file save_checkpoint save_state_checkpoint
  save-cases path d n (fails_before w) o' e v = inl (rw (e, v))
  save-cases path d n (fails_after w) o' e v = inr (inl (rw (e, v)))
  save-cases path d n completes (fails_before w) e v =
      inr (inl (rw (e, v, new_state_checkpoint_lem c marshal n v, checkpoint_valid c marshal n v)))
  save-cases path d n completes (fails_after w) e v =
      inr (inr (rw (e, v, new_state_checkpoint_lem c marshal n v, checkpoint_valid c marshal n v)))
  save-cases path d n completes completes e v =
      inr (inr (rw (e, v, new_state_checkpoint_lem c marshal n v, checkpoint_valid c marshal n v)))

  -- A save that succeeded left both files of its state.
  pub save-ok :
      (path : Text) (d : Disk) (n t : StateFile) (o o' : WriteOutcome)
      → is_empty path ≡ false
      → validate_state c marshal n ≡ ok tt
      → (save c marshal path d n o o').1 ≡ ok t
      → (save c marshal path d n o o').0 ≡ disk_of n
  unfolding save save_state_file save_encoded_file save_checkpoint save_state_checkpoint
  save-ok path d n t (fails_before w) o' e v h =
      absurd (ground (arith, rw (e, v, save, save_state_file) at h))
  save-ok path d n t (fails_after w) o' e v h =
      absurd (ground (arith, rw (e, v, save, save_state_file) at h))
  save-ok path d n t completes (fails_before w) e v h = absurd (
      ground (
        arith,
        rw
            (
              e,
              v,
              new_state_checkpoint_lem c marshal n v,
              checkpoint_valid c marshal n v,
              save,
              save_state_file,
            )
            at h,
      ))
  save-ok path d n t completes (fails_after w) e v h =
      rw (e, v, new_state_checkpoint_lem c marshal n v, checkpoint_valid c marshal n v)
  save-ok path d n t completes completes e v h =
      rw (e, v, new_state_checkpoint_lem c marshal n v, checkpoint_valid c marshal n v)

  -- Saving the next state over the files of a confirmed one may stop at any point: what is loaded
  -- afterwards is the old state or the new one, never an error, and the load leaves the two files
  -- of what it returned.
  pub load-save :
      (path : Text) (p n : StateFile) (o o' : WriteOutcome)
      → is_empty path ≡ false
      → validate_state_progress c marshal p n ≡ ok tt
      → n.generation ≡ p.generation + 1
      → (load c marshal path (save c marshal path (disk_of p) n o o').0 completes
          ≡ (disk_of p, ok p))
        ⊎ (load c marshal path (save c marshal path (disk_of p) n o o').0 completes
            ≡ (disk_of n, ok n))
  load-save path p n o o' e h g =
      let (v, w) = progress_valid p n h in
      elim (save-cases path (disk_of p) n o o' e w) [
        | inl d ↦ inl (rw d (load-disk_of path p completes e v))
        | inr (inl d) ↦ inr (rw d (load-between path p n e h g))
        | inr (inr d) ↦ inr (rw d (load-disk_of path n completes e w))
      ]
