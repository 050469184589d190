-- ===== src/OpenBao.antt =====
-- internal/openbao: what the provider reads of a Transit key.
pub mod Profile
pub mod Errors
