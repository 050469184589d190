-- ===== src/Status/Controller/Refresh.antt =====
-- internal/status/controller.go: the deep probe, the discovery that an unknown key_id starts, and the
-- start of a controller.
use openbao_kubernetes_kms.Base.{
  ℕ, leb, Bool, true, not, ◌&&◌, ◌||◌, Option, none, some, [], ◌∷◌, any, if◌then◌else◌, Text,
  text_eq, ℤ, eq_int, Result, ok, err, Error, error_is, if_err, ◌>>=◌, ◌>>◌, context_canceled,
  context_deadline_exceeded, err_probe_failed, err_circuit_breaker_open, err_state_unavailable,
  err_state_not_found,
}
use openbao_kubernetes_kms.Crypto.{Crypto}
use openbao_kubernetes_kms.Clock.{Reading, unset, after, pending}
use openbao_kubernetes_kms.KeyRegistry.Snapshot.{KeySnapshot, parse_key_id}
use openbao_kubernetes_kms.KeyRegistry.Records.{StateRecord, is_zero_int}
use openbao_kubernetes_kms.KeyRegistry.State.{StateFile, HashBody}
use openbao_kubernetes_kms.KeyRegistry.Files.{WriteOutcome}
use openbao_kubernetes_kms.Kms.Limits.{max_ciphertext_bytes}
use openbao_kubernetes_kms.OpenBao.Errors.{caused_by}
use openbao_kubernetes_kms.Status.Breaker.{BreakerOptions, new_circuit_breaker}
use openbao_kubernetes_kms.Status.Rotation.{validate_state_scope}
use openbao_kubernetes_kms.Status.StateStore.{Disk, load}
use openbao_kubernetes_kms.Status.Store.{
  HealthReason, Loaded, Store, publish_deep_healthy, active_for_deep_probe, store_lookup,
  load_state,
}
use openbao_kubernetes_kms.Status.Controller.{
  deep_probe, ProbeError, Settings, Controller, no_wait, publish_breakers, allow_probe,
  record_probe_failure, record_probe_success,
}
use openbao_kubernetes_kms.Status.Controller.Failures.{deep_failed}
use openbao_kubernetes_kms.Status.Controller.Persistence.{is_ok}
use openbao_kubernetes_kms.Status.Controller.Probes.{
  Reply, failed, replied, ProbeWorld, wrapped, probe_once,
}

-- openbao.ProbeResult; of the ciphertext only its length is read.
pub record ProbeResult : Type 0 where
  pub ciphertext_length : ℕ
  pub key_version : ℤ

-- What a deep probe meets outside; the reply is to the round trip with the version asked for.
pub record DeepWorld : Type 0 where
  pub context : Result (Unit {0})
  pub now : Reading
  pub at_allow : Reading
  pub at_record : Reading
  pub round_trip : ℤ → Reply ProbeResult

-- DeepProbeOnce after the reply.
unfoldable pub deep_probe_reply :
    Controller → DeepWorld → KeySnapshot → Reply ProbeResult → Controller × Option ProbeError
deep_probe_reply m w a (failed e) =
    deep_failed (record_probe_failure deep_probe m w.now w.at_record) HealthReason.deep_probe_failed
      (wrapped e)
deep_probe_reply m w a (replied r) =
    if leb max_ciphertext_bytes r.ciphertext_length
    then deep_failed (record_probe_failure deep_probe m w.now w.at_record)
        HealthReason.deep_probe_invalid (caused_by (err_probe_failed ∷ []))
    else if not (is_zero_int r.key_version) && not (eq_int r.key_version a.transit_version)
    then deep_failed (record_probe_failure deep_probe m w.now w.at_record)
        HealthReason.deep_probe_invalid (caused_by (err_probe_failed ∷ []))
    else (
      record_probe_success deep_probe (record m { store = publish_deep_healthy m.store })
          w.at_record,
      none,
    )

abbrev pub local_failure : Error → Option ProbeError
local_failure e = some (record { reason = none; cause = caused_by e })

-- DeepProbeOnce
unfoldable pub deep_probe_once : Controller → DeepWorld → Controller × Option ProbeError
unfolding deep_probe_reply
deep_probe_once m w =
    if_err w.context (λ e. (m, local_failure e))
      (λ _.
        let allowed = allow_probe deep_probe m w.now w.at_allow in
        if allowed.1
        then if_err (active_for_deep_probe allowed.0.store) (λ e. (allowed.0, local_failure e))
            (λ a. deep_probe_reply allowed.0 w a (w.round_trip a.transit_version))
        else deep_failed allowed.0 HealthReason.circuit_breaker_open
            (caused_by (err_circuit_breaker_open ∷ [])))

-- What prepareDecryptRefresh answers: an attempt is to be made, or the result without one.
pub data Prepared : Type 0 where
  starts : Prepared
  answers : Option ProbeError → Prepared

abbrev pub has_record : Text → Loaded → Bool
has_record key_id l =
    any (λ (r : StateRecord). text_eq r.kubernetes_key_id key_id) l.state.snapshots

-- prepareDecryptRefresh once the registry did not find the key_id.
unfoldable pub prepare_unknown :
    Settings → Controller → Text → Reading → Option Loaded → Controller × Prepared
prepare_unknown t m key_id now none = (m, answers (local_failure (err_state_unavailable ∷ [])))
prepare_unknown t m key_id now (some l) =
    if has_record key_id l
    then (m, answers none)
    else if pending m.next_refresh now
    then (m, answers m.refresh_err)
    else (record m { next_refresh = after now t.refresh_interval }, starts)

-- What refreshErr keeps of the error of an attempt.
unfoldable pub kept_error : Option ProbeError → Option ProbeError
kept_error none = none
kept_error (some e) =
    if error_is e.cause.sentinels context_canceled
      || error_is e.cause.sentinels context_deadline_exceeded
    then local_failure (err_probe_failed ∷ [])
    else some e

-- The controller of NewController before the breakers are published and the state is loaded.
abbrev pub controller_over : Store → Disk → BreakerOptions → Controller
controller_over s d breaker = record {
  store = s;
  disk = d;
  metadata_breaker = new_circuit_breaker breaker;
  deep_breaker = new_circuit_breaker breaker;
  next_refresh = unset;
  refresh_err = none;
  pending_commit = none;
  activation = no_wait;
}

module _ (c : Crypto) where
  -- prepareDecryptRefresh
  unfoldable pub prepare_decrypt_refresh :
      Settings → Controller → Text → Reading → Controller × Prepared
  unfolding prepare_unknown
  prepare_decrypt_refresh t m key_id now =
      if is_ok (store_lookup c m.store key_id)
      then (m, answers none)
      else prepare_unknown t m key_id now m.store.loaded

  module _ (marshal : HashBody → Result Text) (t : Settings) where
    -- The attempt of RefreshForDecrypt, to its end.
    unfoldable pub refresh_attempt : Controller → Text → ProbeWorld → Controller × Option ProbeError
    unfolding kept_error
    refresh_attempt m key_id w =
        let probed = probe_once c marshal t m w true in
        (
          record probed.0 { refresh_err = kept_error probed.1 },
          if is_ok (store_lookup c probed.0.store key_id) then none else probed.1,
        )

    unfoldable pub refresh_prepared :
        Text → ProbeWorld → Controller × Prepared → Controller × Option ProbeError
    unfolding refresh_attempt
    refresh_prepared key_id w (m, answers e) = (m, e)
    refresh_prepared key_id w (m, starts) = refresh_attempt m key_id w

    -- RefreshForDecrypt, for a caller whose context lives until the attempt ends; `now` is read by
    -- prepareDecryptRefresh.
    unfoldable pub refresh_for_decrypt :
        Controller → Text → Reading → ProbeWorld → Controller × Option ProbeError
    unfolding refresh_prepared prepare_decrypt_refresh
    refresh_for_decrypt m key_id now w =
        if_err (parse_key_id c key_id) (λ e. (m, local_failure e))
          (λ _. refresh_prepared key_id w (prepare_decrypt_refresh t m key_id now))

    -- loadState, with what Load answered.
    unfoldable pub load_store : Store → Result StateFile → Result Store
    load_store s (err e) = if error_is e err_state_not_found then ok s else err e
    load_store s (ok state) = do
      validate_state_scope c t.observer state
      load_state c marshal s state

    -- NewController, with what Load left on disk and answered.
    unfoldable pub start_controller :
        Store → BreakerOptions → Reading → Disk × Result StateFile → Result Controller
    unfolding load_store
    start_controller s breaker reading (d, loaded) = do
      let fresh = publish_breakers (controller_over s d breaker) reading
      store ← load_store fresh.store loaded
      ok (record fresh { store = store })

    -- NewController for a store and the files on disk, once its options were checked; `reading` is
    -- what the breakers show, and `o` how a write of the checkpoint ends.
    unfoldable pub new_controller :
        Store → Disk → BreakerOptions → Reading → WriteOutcome → Result Controller
    unfolding start_controller
    new_controller s d breaker reading o =
        start_controller s breaker reading (load c marshal t.path d o)
