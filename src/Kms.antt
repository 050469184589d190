-- ===== src/Kms.antt =====
-- internal/kmsv2: the Kubernetes KMS v2 protocol boundary.
pub mod Limits
pub mod Server
pub mod EndToEnd
pub mod Health
pub mod Policy
pub mod Slots
