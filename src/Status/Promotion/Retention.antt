-- ===== src/Status/Promotion/Retention.antt =====
-- Rotation of internal/status/rotation.go keeps every key that may have encrypted.
use openbao_kubernetes_kms.Base.{◌≡◌, sym, subst, Bool, true, false, Text, Result, ok, >>=-eq-ok}
use openbao_kubernetes_kms.Crypto.{Crypto, CryptoLaws}
use openbao_kubernetes_kms.Clock.{Time}
use openbao_kubernetes_kms.KeyRegistry.Snapshot.{is_empty}
use openbao_kubernetes_kms.KeyRegistry.Records.{StateRecord}
use openbao_kubernetes_kms.KeyRegistry.State.{StateFile, HashBody, validate_state}
use openbao_kubernetes_kms.KeyRegistry.State.Gathering.{Member, is_live}
use openbao_kubernetes_kms.KeyRegistry.State.Progress.{
  Found, valid_state_finds, progress-keeps_live,
}
use openbao_kubernetes_kms.OpenBao.Profile.{KeyProfile}
use openbao_kubernetes_kms.Status.Rotation.{Observer, ObservationResult}
use openbao_kubernetes_kms.Status.Promotion.{observe_step}
use openbao_kubernetes_kms.Status.Promotion.Steps.{
  Outcome, unchanged, noted, promoted_now, observe_step-Outcome,
}

module _ (c : Crypto) (marshal : HashBody → Result Text) where
  observed_state_valid :
      (o : Observer) (s : StateFile) (p : KeyProfile) (now : Time) (advance ready : Bool)
      (result : ObservationResult)
      → observe_step c marshal o s p now advance ready ≡ ok result
      → validate_state c marshal s ≡ ok tt
  unfolding observe_step
  observed_state_valid o s p now advance ready result h =
      (>>=-eq-ok (validate_state c marshal s) _ h).1

  -- After any observation that does not fail, whether it promotes, notes or changes nothing, the
  -- registry of the resulting state still finds every active, pending or retired key of the state
  -- before that has a key_id, under its own key_id.
  pub observe_step-keeps_live :
      CryptoLaws c
      → (o : Observer) (s : StateFile) (p : KeyProfile) (now : Time) (advance ready : Bool)
        (result : ObservationResult) (r : StateRecord)
      → observe_step c marshal o s p now advance ready ≡ ok result
      → Member r s.snapshots
      → is_live r.state ≡ true
      → is_empty r.kubernetes_key_id ≡ false
      → Found c r.kubernetes_key_id result.state
  observe_step-keeps_live laws o s p now advance ready result r h m l e =
      go (observe_step-Outcome c marshal o s p now advance ready result h)
    where
      go :
          Outcome c marshal s o p now advance ready result
          → Found c r.kubernetes_key_id result.state
      go (unchanged _ same _ _) = subst (Found c r.kubernetes_key_id) (sym same) (
          valid_state_finds c marshal laws s r
            (observed_state_valid o s p now advance ready result h) m l e)
      go (noted _ q _ _ _) = progress-keeps_live c marshal laws s result.state r q.0 m l e
      go (promoted_now _ _ _ _ _ _ _ _ _ _ q _ _) =
          progress-keeps_live c marshal laws s result.state r q.0 m l e
