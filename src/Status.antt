-- ===== src/Status.antt =====
-- internal/status: the cached Status view, the circuit breaker and the rotation observer.
pub mod Breaker
pub mod Profile
pub mod Records
pub mod Rotation
pub mod Promotion
pub mod Store
pub mod StateStore
pub mod Rebuild
pub mod Controller
