-- ===== src/OpenBao/Profile.antt =====
-- internal/openbao/transit.go: the metadata of a Transit key and the policy findings on it.
use openbao_kubernetes_kms.Base.{
  Bool, not, ◌&&◌, List, [], ◌∷◌, ◌++◌, if◌then◌else◌, Text, codes, text_eq, ℤ, pos, lt_int,
}
use openbao_kubernetes_kms.Clock.{Time}

-- KeyVersion
pub record KeyVersion : Type 0 where
  pub version : ℤ
  pub created_at : Time

pub record KeyProfile : Type 0 where
  pub name : Text
  pub key_type : Text
  pub latest_version : ℤ
  pub min_available_version : ℤ
  pub min_encryption_version : ℤ
  pub min_decryption_version : ℤ
  pub version_creation_times : List KeyVersion
  pub derived : Bool
  pub convergent_encryption : Bool
  pub exportable : Bool
  pub allow_plaintext_backup : Bool
  pub deletion_allowed : Bool
  pub imported_key : Bool
  pub soft_deleted : Bool
  pub supports_encryption : Bool
  pub supports_decryption : Bool
  pub supports_derivation : Bool
  pub supports_signing : Bool

-- The codes of the findings.
pub data FindingCode : Type 0 where
  unsupported_type exportable_key plaintext_backup deletion_enabled derived_key : FindingCode
  convergent min_encryption_ahead min_decryption_ahead : FindingCode
  encryption_unsupported decryption_unsupported : FindingCode

pub data FindingImpact : Type 0 where
  cryptographic_safety availability : FindingImpact

-- `no_severity` is the empty string, which counts as blocking.
pub data FindingSeverity : Type 0 where
  blocking warning no_severity : FindingSeverity

pub record Finding : Type 0 where
  pub code : FindingCode
  pub impact : FindingImpact
  pub severity : FindingSeverity

abbrev pub aes256_gcm96 : Text
aes256_gcm96 = codes "aes256-gcm96"

-- blockingProfileFinding
unfoldable pub blocking_finding : FindingCode → FindingImpact → Finding
blocking_finding code impact = record { code = code; impact = impact; severity = blocking }

abbrev when_found : Bool → FindingCode → FindingImpact → List Finding
when_found test code impact = if test then blocking_finding code impact ∷ [] else []

-- AssessKeyProfile
unfoldable pub assess_key_profile : KeyProfile → List Finding
assess_key_profile p =
    when_found (not (text_eq p.key_type aes256_gcm96)) unsupported_type cryptographic_safety
    ++ (when_found p.exportable exportable_key cryptographic_safety
        ++ (when_found p.allow_plaintext_backup plaintext_backup cryptographic_safety
            ++ (when_found p.deletion_allowed deletion_enabled availability
                ++ (when_found p.derived derived_key cryptographic_safety
                    ++ (when_found p.convergent_encryption convergent cryptographic_safety
                        ++ (when_found
                              (lt_int (pos 0) p.min_encryption_version
                                && lt_int p.latest_version p.min_encryption_version)
                              min_encryption_ahead availability
                            ++ (when_found (lt_int p.latest_version p.min_decryption_version)
                                  min_decryption_ahead availability
                                ++ (when_found (not p.supports_encryption) encryption_unsupported
                                      availability
                                    ++ when_found (not p.supports_decryption) decryption_unsupported
                                        availability))))))))

-- BlockingKeyProfileFindings
unfoldable pub blocking_findings : List Finding → List Finding
blocking_findings [] = []
blocking_findings (f ∷ fs) =
    let rest = blocking_findings fs in elim f.severity [ warning ↦ rest | _ ↦ f ∷ rest ]
