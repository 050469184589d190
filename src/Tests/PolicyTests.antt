-- ===== src/Tests/PolicyTests.antt =====
-- The error policy of the KMS handlers on failures of Transit.
use openbao_kubernetes_kms.Base.{
  ◌≡◌, refl, subst, false, [], ◌∷◌, none, some, context_canceled, err_authentication, Option,
}
use openbao_kubernetes_kms.OpenBao.Errors.{sealed}
use openbao_kubernetes_kms.Kms.Policy.{
  Code, code_unavailable, code_unknown, decrypt_call, encrypt_call, Caught, Failure, backend_policy,
  request_error_policy,
}
use openbao_kubernetes_kms.Kms.Policy.Public.{
  is_ok_code, CodesAreErrors, IsAnswer, request_error_policy-IsAnswer, classified, context_policy,
  request_error_policy-context, request_error_policy-outage,
}

-- A login that failed because OpenBao is sealed.
abbrev sealed_login : Caught
sealed_login = record {
  cause = record { sentinels = err_authentication ∷ []; backend = some sealed };
  code = code_unavailable;
}

abbrev failed_call : Failure
failed_call = record { error = sealed_login; transit = some sealed_login }

abbrev canceled_call : Failure
canceled_call = record {
  error = sealed_login;
  transit = some (record {
    cause = record {
      sentinels = err_authentication ∷ context_canceled ∷ [];
      backend = some sealed;
    };
    code = code_unknown;
  });
}

code_of : Option Caught → Code
code_of none = code_unknown
code_of (some t) = t.code

failed_call_codes : CodesAreErrors failed_call
unfolding code_of
failed_call_codes t e = subst (λ o. is_ok_code (code_of o) ≡ false) e refl

request_error_policy-IsAnswer_example : IsAnswer (request_error_policy failed_call decrypt_call)
request_error_policy-IsAnswer_example =
    request_error_policy-IsAnswer failed_call decrypt_call failed_call_codes

request_error_policy-context_example :
    request_error_policy canceled_call encrypt_call
    ≡ context_policy (classified canceled_call).sentinels
request_error_policy-context_example = request_error_policy-context canceled_call encrypt_call refl

request_error_policy-outage_example :
    (request_error_policy failed_call decrypt_call).class ≡ (backend_policy sealed).class
request_error_policy-outage_example =
    request_error_policy-outage failed_call sealed_login sealed decrypt_call refl refl refl refl
