-- ===== src/Base/Results.antt =====
-- Go's error results. An error is the list of the sentinels and typed causes that `errors.Is` and
-- `errors.As` find in its chain, outermost first; its text is left out.
use mathlib.Core.Path.{◌≡◌, refl}
use mathlib.Core.Bool.{Bool, true, false}
use mathlib.Core.List.{List, [], ◌∷◌}
use mathlib.Core.Logic.{◌⊎◌, inl, inr}
use Prim.Native.Nat.{ℕ}
use openbao_kubernetes_kms.Base.Tests.{◌==◌}
use openbao_kubernetes_kms.Base.Lists.{any}

-- The packages' exported sentinel errors, and context's two.
pub data Sentinel : Type 0 where
  context_canceled context_deadline_exceeded : Sentinel
  err_malformed_key_id err_unknown_key_id : Sentinel
  err_state_not_found err_state_corrupt err_state_permission err_state_rollback : Sentinel
  err_invalid_annotations err_annotation_mismatch err_aad_required : Sentinel
  err_status_unavailable err_status_unhealthy err_active_key_unavailable : Sentinel
  err_status_key_id_mismatch err_plaintext_required err_ciphertext_required : Sentinel
  err_transit_invalid_response err_request_limit_exceeded err_response_limit_exceeded : Sentinel
  err_concurrency_limit_exceeded err_panic_recovered err_key_metadata_refresh : Sentinel
  err_config_invalid err_probe_failed err_circuit_breaker_open err_state_unavailable : Sentinel
  err_transit_metadata_invalid err_transit_key_unusable err_version_rollback : Sentinel
  err_authentication : Sentinel

-- A number for each sentinel, by which two are compared.
abbrev sentinel_code : Sentinel → ℕ
sentinel_code context_canceled = 0
sentinel_code context_deadline_exceeded = 1
sentinel_code err_malformed_key_id = 2
sentinel_code err_unknown_key_id = 3
sentinel_code err_state_not_found = 4
sentinel_code err_state_corrupt = 5
sentinel_code err_state_permission = 6
sentinel_code err_state_rollback = 7
sentinel_code err_invalid_annotations = 8
sentinel_code err_annotation_mismatch = 9
sentinel_code err_aad_required = 10
sentinel_code err_status_unavailable = 11
sentinel_code err_status_unhealthy = 12
sentinel_code err_active_key_unavailable = 13
sentinel_code err_status_key_id_mismatch = 14
sentinel_code err_plaintext_required = 15
sentinel_code err_ciphertext_required = 16
sentinel_code err_transit_invalid_response = 17
sentinel_code err_request_limit_exceeded = 18
sentinel_code err_response_limit_exceeded = 19
sentinel_code err_concurrency_limit_exceeded = 20
sentinel_code err_panic_recovered = 21
sentinel_code err_key_metadata_refresh = 22
sentinel_code err_config_invalid = 23
sentinel_code err_probe_failed = 24
sentinel_code err_circuit_breaker_open = 25
sentinel_code err_state_unavailable = 26
sentinel_code err_transit_metadata_invalid = 27
sentinel_code err_transit_key_unusable = 28
sentinel_code err_version_rollback = 29
sentinel_code err_authentication = 30

abbrev pub Error : Type 0
Error = List Sentinel

-- errors.Is
abbrev pub error_is : Error → Sentinel → Bool
error_is e s = any (λ c. sentinel_code c == sentinel_code s) e

-- An error made by fmt.Errorf or errors.New with no sentinel in its chain.
abbrev pub untyped : Error
untyped = []

-- What a call with an error result returns: the error is nil, or it is not.
pub data Result {ℓ} (A : Type ℓ) : Type ℓ where
  err : Error → Result A
  ok : A → Result A

module _ {ℓ κ} {A : Type ℓ} {B : Type κ} where
  infixl 5 ◌>>=◌
  -- The next call, made unless this one failed.
  abbrev pub ◌>>=◌ : Result A → (A → Result B) → Result B
  err why >>= next = err why
  ok value >>= next = next value

  -- Inversion of a chain that succeeded.
  pub >>=-eq-ok :
      (r : Result A) (next : A → Result B) {b : B}
      → (r >>= next) ≡ ok b
      → (a : A) × (r ≡ ok a) × (next a ≡ ok b)
  >>=-eq-ok (err why) next h = cc
  >>=-eq-ok (ok value) next h = (value, refl, h)

-- A check and then the rest.
infixl 5 ◌>>◌
abbrev pub ◌>>◌ {ℓ} : {B : Type ℓ} → Result (Unit {0}) → Result B → Result B
check >> rest = check >>= λ _. rest

-- `if test { return err }`
abbrev pub fail_if : Bool → Error → Result (Unit {0})
fail_if true e = err e
fail_if false e = ok tt

-- `fmt.Errorf("%w: ...: %w", sentinel, err)`
abbrev pub wrap_error {ℓ} : {A : Type ℓ} → Sentinel → Result A → Result A
wrap_error s (ok a) = ok a
wrap_error s (err e) = err (s ∷ e)

-- `if err != nil { return failed } ; return passed`, for results of any type.
abbrev pub if_err {ℓ κ} : {A : Type ℓ} {B : Type κ} → Result A → (Error → B) → (A → B) → B
if_err (err e) failed passed = failed e
if_err (ok a) failed passed = passed a

module _ {ℓ} {A : Type ℓ} where
  abbrev pub IsOk : Result A → Type ℓ
  IsOk r = (a : A) × (r ≡ ok a)

  pub Result-cases : (r : Result A) → ((a : A) × (r ≡ ok a)) ⊎ ((e : Error) × (r ≡ err e))
  Result-cases (ok a) = inl (a, refl)
  Result-cases (err e) = inr (e, refl)

-- A guard that lets the call go on was not met.
pub fail_if-eq-ok {ℓ} :
    {B : Type ℓ} (t : Bool) (e : Error) (k : Result B) {b : B}
    → (fail_if t e >> k) ≡ ok b
    → (t ≡ false) × (k ≡ ok b)
fail_if-eq-ok true e k h = absurd (cc)
fail_if-eq-ok false e k h = (refl, h)
