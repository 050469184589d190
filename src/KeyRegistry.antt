-- ===== src/KeyRegistry.antt =====
-- internal/keyregistry: Kubernetes key_id derivation, the snapshot registry and the state file.
pub mod Snapshot
pub mod Derivation
pub mod Normal
pub mod Registry
pub mod Records
pub mod State
pub mod Retirement
pub mod Files
