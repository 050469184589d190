-- ===== src/Aad.antt =====
-- internal/aad/aad.go: the KMS annotations, their validation, and the associated data of Transit.
pub mod Annotations
pub mod Canonical
pub mod Binding
pub mod RoundTrip
