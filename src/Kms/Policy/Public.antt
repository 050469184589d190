-- ===== src/Kms/Policy/Public.antt =====
-- What a failed request of internal/kmsv2/error_policy.go lets the API server see.
use openbao_kubernetes_kms.Base.{
  ◌≡◌, refl, inl, inr, Bool, true, false, not, ◌&&◌, Option, none, some, List, [], ◌∷◌, any,
  if◌then◌else◌, arith, Text, text_eq, codes, Sentinel, Error, error_is, Bool-cases, and_split,
  context_canceled, context_deadline_exceeded,
}
use openbao_kubernetes_kms.OpenBao.Errors.{
  ErrorClass, invalid_request, unauthenticated, permission_denied, not_found, decrypt_failed,
  rate_limited, unavailable, tls_failed, dns_failed, connection_failed, sealed, unknown, Cause,
}
use openbao_kubernetes_kms.Kms.Server.{context_error}
use openbao_kubernetes_kms.Kms.Policy.{
  Code, code_ok, code_canceled, code_unknown, code_invalid_argument, code_deadline_exceeded,
  code_not_found, code_already_exists, code_permission_denied, code_resource_exhausted,
  code_failed_precondition, code_aborted, code_out_of_range, code_unimplemented, code_internal,
  code_unavailable, code_data_loss, code_unauthenticated, code_other, Method, unnamed, status_call,
  encrypt_call, decrypt_call, ErrorPolicy, FailureClass, unclassified, Caught, Failure,
  canceled_policy, timeout_policy, unknown_local_policy, sentinel_policies, code_policy,
  backend_policy, first_policy, lookup_local_policy, policy_or, transit_code_policy, is_outage,
  authentication_error, is_unknown_code, backend_error_policy, transit_error_policy,
  local_error_policy, policy_for, request_error_policy,
}

-- The texts that may leave the provider.
abbrev public_texts : List Text
public_texts =
    codes "request canceled"
    ∷ codes "request timed out"
    ∷ codes "key metadata refresh failed"
    ∷ codes "plaintext is required"
    ∷ codes "ciphertext is required"
    ∷ codes "kms request exceeds protocol limits"
    ∷ codes "key_id malformed"
    ∷ codes "annotations invalid"
    ∷ codes "annotations do not match key snapshot"
    ∷ codes "kms response exceeds protocol limits"
    ∷ codes "kms request concurrency limit reached"
    ∷ codes "key_id unknown"
    ∷ codes "status unavailable"
    ∷ codes "status unhealthy"
    ∷ codes "active key unavailable"
    ∷ codes "status key_id mismatch"
    ∷ codes "AAD required"
    ∷ codes "kms request failed"
    ∷ codes "transit permission denied"
    ∷ codes "transit authentication failed"
    ∷ codes "transit key not found"
    ∷ codes "transit decrypt failed"
    ∷ codes "transit encrypt failed"
    ∷ codes "transit rate limited"
    ∷ codes "transit unavailable"
    ∷ codes "transit operation failed"
    ∷ []

abbrev pub is_ok_code : Code → Bool
is_ok_code code_ok = true
is_ok_code _ = false

abbrev is_public : Text → Bool
is_public m = any (text_eq m) public_texts

abbrev is_answer : ErrorPolicy → Bool
is_answer p = is_public p.message && not (is_ok_code p.code)

-- An answer of a failed request: an approved text, under a code that is not OK.
abbrev pub IsAnswer : ErrorPolicy → Type 0
IsAnswer p = (is_public p.message ≡ true) × (is_ok_code p.code ≡ false)

abbrev are_answers : List (Sentinel × ErrorPolicy) → Bool
are_answers [] = true
are_answers ((_, p) ∷ ps) = is_answer p && are_answers ps

first_policy-IsAnswer :
    (ps : List (Sentinel × ErrorPolicy)) (e : Error) (d : ErrorPolicy)
    → are_answers ps ≡ true
    → is_answer d ≡ true
    → is_answer (policy_or d (first_policy ps e)) ≡ true
unfolding first_policy
first_policy-IsAnswer [] e d h k = k
first_policy-IsAnswer ((s, p) ∷ ps) e d h k =
    let (here, rest) = and_split (is_answer p) (are_answers ps) h in
    elim (Bool-cases (error_is e s)) [
      | inl q ↦ rw q here
      | inr q ↦ rw q (first_policy-IsAnswer ps e d rest k)
    ]

sentinel_policies_answer : are_answers sentinel_policies ≡ true
unfolding text_eq
sentinel_policies_answer = refl

transit_code_policy-IsAnswer :
    (code : Code) (method : Method)
    → is_ok_code code ≡ false
    → is_answer (transit_code_policy code method) ≡ true
unfolding transit_code_policy code_policy text_eq
transit_code_policy-IsAnswer code_ok method h = absurd (cc)
transit_code_policy-IsAnswer code_invalid_argument unnamed h = refl
transit_code_policy-IsAnswer code_invalid_argument status_call h = refl
transit_code_policy-IsAnswer code_invalid_argument encrypt_call h = refl
transit_code_policy-IsAnswer code_invalid_argument decrypt_call h = refl
transit_code_policy-IsAnswer code_canceled method h = refl
transit_code_policy-IsAnswer code_unknown method h = refl
transit_code_policy-IsAnswer code_deadline_exceeded method h = refl
transit_code_policy-IsAnswer code_not_found method h = refl
transit_code_policy-IsAnswer code_already_exists method h = refl
transit_code_policy-IsAnswer code_permission_denied method h = refl
transit_code_policy-IsAnswer code_resource_exhausted method h = refl
transit_code_policy-IsAnswer code_failed_precondition method h = refl
transit_code_policy-IsAnswer code_aborted method h = refl
transit_code_policy-IsAnswer code_out_of_range method h = refl
transit_code_policy-IsAnswer code_unimplemented method h = refl
transit_code_policy-IsAnswer code_internal method h = refl
transit_code_policy-IsAnswer code_unavailable method h = refl
transit_code_policy-IsAnswer code_data_loss method h = refl
transit_code_policy-IsAnswer code_unauthenticated method h = refl
transit_code_policy-IsAnswer (code_other n) method h = refl

backend_code-ne-ok : (class : ErrorClass) → is_ok_code (backend_policy class).code ≡ false
unfolding backend_policy
backend_code-ne-ok invalid_request = refl
backend_code-ne-ok unauthenticated = refl
backend_code-ne-ok permission_denied = refl
backend_code-ne-ok not_found = refl
backend_code-ne-ok decrypt_failed = refl
backend_code-ne-ok rate_limited = refl
backend_code-ne-ok unavailable = refl
backend_code-ne-ok tls_failed = refl
backend_code-ne-ok dns_failed = refl
backend_code-ne-ok connection_failed = refl
backend_code-ne-ok sealed = refl
backend_code-ne-ok unknown = refl

backend_error_policy-IsAnswer :
    (o : Option ErrorClass) (code : Code) (method : Method)
    → is_ok_code code ≡ false
    → is_answer (backend_error_policy o code method) ≡ true
unfolding backend_error_policy text_eq
backend_error_policy-IsAnswer none code method h = elim (Bool-cases (is_unknown_code code)) [
  | inl q ↦ rw q refl
  | inr q ↦ rw q (transit_code_policy-IsAnswer code method h)
]
backend_error_policy-IsAnswer (some class) code method h =
    elim (Bool-cases (is_unknown_code code)) [
      | inl q ↦ rw q (
          transit_code_policy-IsAnswer (backend_policy class).code method
            (backend_code-ne-ok class))
      | inr q ↦ rw q (transit_code_policy-IsAnswer code method h)
    ]

unknown_local-IsAnswer :
    (class : FailureClass) → is_answer (record unknown_local_policy { class = class }) ≡ true
unfolding text_eq
unknown_local-IsAnswer class = refl

lookup-IsAnswer :
    (e : Error) (d : ErrorPolicy)
    → is_answer d ≡ true
    → is_answer (policy_or d (lookup_local_policy e)) ≡ true
unfolding lookup_local_policy
lookup-IsAnswer e d h = first_policy-IsAnswer sentinel_policies e d sentinel_policies_answer h

transit_error_policy-IsAnswer :
    (e : Caught) (method : Method)
    → is_ok_code e.code ≡ false
    → is_answer (transit_error_policy e method) ≡ true
unfolding transit_error_policy
transit_error_policy-IsAnswer e method h = elim (Bool-cases (context_error e.cause.sentinels)) [
  | inl q ↦
      rw q (
        lookup-IsAnswer e.cause.sentinels unknown_local_policy
          (unknown_local-IsAnswer unclassified))
  | inr q ↦ elim (Bool-cases (authentication_error e.cause)) [
    | inl k ↦ rw (q, k) (transit_code_policy-IsAnswer code_unauthenticated method refl)
    | inr k ↦ rw (q, k) (backend_error_policy-IsAnswer e.cause.backend e.code method h)
  ]
]

-- What status.Code answers about an error that is not nil, here and in the transit failure.
abbrev pub CodesAreErrors : Failure → Type 0
CodesAreErrors f = (t : Caught) → f.transit ≡ some t → is_ok_code t.code ≡ false

policy_for-IsAnswer :
    (o : Option Caught) (e : Caught) (method : Method)
    → ((t : Caught) → o ≡ some t → is_ok_code t.code ≡ false)
    → is_answer (policy_for o e method) ≡ true
unfolding policy_for local_error_policy
policy_for-IsAnswer none e method h =
    lookup-IsAnswer e.cause.sentinels _
      (unknown_local-IsAnswer (transit_code_policy e.code method).class)
policy_for-IsAnswer (some t) e method h = transit_error_policy-IsAnswer t method (h t refl)

-- Whatever the error, when status.Code answers OK for no transit failure, a failed request answers
-- one of the approved texts, under a code that is not OK.
pub request_error_policy-IsAnswer :
    (f : Failure) (method : Method) → CodesAreErrors f → IsAnswer (request_error_policy f method)
unfolding request_error_policy
request_error_policy-IsAnswer f method h =
    let (m, k) =
      and_split (is_public (request_error_policy f method).message) _
        (policy_for-IsAnswer f.transit f.error method h) in
    (m, ground arith)

-- The cause that a failed request is classified by.
abbrev pub classified : Failure → Cause
classified f = elim f.transit [ none ↦ f.error.cause | some t ↦ t.cause ]

lookup-canceled :
    (e : Error) (d : ErrorPolicy)
    → error_is e context_canceled ≡ true
    → policy_or d (lookup_local_policy e) ≡ canceled_policy
unfolding lookup_local_policy first_policy
lookup-canceled e d h = rw h

lookup-deadline :
    (e : Error) (d : ErrorPolicy)
    → error_is e context_canceled ≡ false
    → error_is e context_deadline_exceeded ≡ true
    → policy_or d (lookup_local_policy e) ≡ timeout_policy
unfolding lookup_local_policy first_policy
lookup-deadline e d h k = rw (h, k)

-- The policy of an error whose chain has a cancellation or a deadline, and the cancellation first.
abbrev pub context_policy : Error → ErrorPolicy
context_policy e = if error_is e context_canceled then canceled_policy else timeout_policy

lookup-context :
    (e : Error) (d : ErrorPolicy)
    → context_error e ≡ true
    → policy_or d (lookup_local_policy e) ≡ context_policy e
lookup-context e d h = elim (Bool-cases (error_is e context_canceled)) [
  | inl q ↦ rw q (lookup-canceled e d q)
  | inr q ↦ rw q (lookup-deadline e d q (rw q at h))
]

policy_for-context :
    (o : Option Caught) (e : Caught) (method : Method)
    → context_error (classified (record { error = e; transit = o })).sentinels ≡ true
    → policy_for o e method
      ≡ context_policy (classified (record { error = e; transit = o })).sentinels
unfolding policy_for local_error_policy transit_error_policy
policy_for-context none e method h = lookup-context e.cause.sentinels _ h
policy_for-context (some t) e method h =
    rw h (lookup-context t.cause.sentinels unknown_local_policy h)

-- A request whose context ended answers that, whatever else is in the chain of its error: a
-- cancellation before a deadline, and both before every cause of the backend.
pub request_error_policy-context :
    (f : Failure) (method : Method)
    → context_error (classified f).sentinels ≡ true
    → request_error_policy f method ≡ context_policy (classified f).sentinels
unfolding request_error_policy
request_error_policy-context f method h = policy_for-context f.transit f.error method h

outage_is_no_authentication :
    (e : Cause) (class : ErrorClass)
    → e.backend ≡ some class
    → is_outage class ≡ true
    → authentication_error e ≡ false
unfolding authentication_error
outage_is_no_authentication e class b o = rw (b, o) (ground arith)

-- A failed call of Transit whose context lives and whose OpenBao error is an outage is observed under
-- the class of that error, whatever gRPC code it came with, and also when a login failed by it.
pub request_error_policy-outage :
    (f : Failure) (t : Caught) (class : ErrorClass) (method : Method)
    → f.transit ≡ some t
    → t.cause.backend ≡ some class
    → context_error t.cause.sentinels ≡ false
    → is_outage class ≡ true
    → (request_error_policy f method).class ≡ (backend_policy class).class
unfolding request_error_policy policy_for transit_error_policy backend_error_policy
request_error_policy-outage f t class method e b k o =
    rw (e, k, outage_is_no_authentication t.cause class b o, b) refl
