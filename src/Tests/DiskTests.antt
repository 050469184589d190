-- ===== src/Tests/DiskTests.antt =====
-- The state store, applied to a save of the promotion's state over the sample state.
use openbao_kubernetes_kms.Base.{◌≡◌, refl, ◌⊎◌, [], Text, codes, ok, some}
use openbao_kubernetes_kms.KeyRegistry.State.{validate_state}
use openbao_kubernetes_kms.KeyRegistry.Files.{fails_after, fails_before, completes}
use openbao_kubernetes_kms.KeyRegistry.Files.Valid.{checkpoint_of, load_state_checkpoint-holds}
use openbao_kubernetes_kms.Status.StateStore.{load, save, recover}
use openbao_kubernetes_kms.Status.StateStore.Crash.{disk_of, between, load-between, load-save}
use openbao_kubernetes_kms.Status.StateStore.Replay.{Anchored, load-Anchored, recover-save}
use openbao_kubernetes_kms.Tests.Samples.{toy, toy_marshal, sample_state, computing}
use openbao_kubernetes_kms.Tests.RotationTests.{
  observed, observing, observed_progress, observed_promotes,
}

abbrev path : Text
path = codes "state.json"

-- The write of the new state ends after the rename, before the checkpoint is written.
load-save_example :
    (load toy toy_marshal path
        (save toy toy_marshal path
          (disk_of sample_state)
          observed.state
          (fails_after [])
          completes).0
        completes
      ≡ (disk_of sample_state, ok sample_state))
    ⊎ (load toy toy_marshal path
          (save toy toy_marshal path
            (disk_of sample_state)
            observed.state
            (fails_after [])
            completes).0
          completes
        ≡ (disk_of observed.state, ok observed.state))
load-save_example =
    load-save toy toy_marshal path sample_state observed.state (fails_after []) completes refl
      observed_progress observed_promotes.1

recover-save_example :
    recover toy toy_marshal path
      (save toy toy_marshal path
        (disk_of sample_state)
        observed.state
        completes
        (fails_before [])).0
      (some sample_state)
      observed.state
      completes
      completes
    ≡ (disk_of observed.state, ok observed.state)
recover-save_example =
    recover-save toy toy_marshal path sample_state observed.state completes (fails_before []) refl
      observed_progress observed_promotes.1

sample_valid : validate_state toy toy_marshal sample_state ≡ ok tt
unfolding computing
sample_valid = refl

observed_valid : validate_state toy toy_marshal observed.state ≡ ok tt
unfolding observing observed
observed_valid = refl

load-Anchored_example : Anchored (checkpoint_of sample_state) observed.state
load-Anchored_example =
    load-Anchored toy toy_marshal path (between sample_state observed.state)
      (disk_of observed.state) (checkpoint_of sample_state) observed.state completes
      (load_state_checkpoint-holds toy toy_marshal sample_state sample_valid)
      (load-between toy toy_marshal path sample_state observed.state refl observed_progress
        observed_promotes.1)
