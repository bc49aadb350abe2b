-- ===== src/Auth.antt =====
-- The dashboard's login: server/auth.go.
pub mod Session
pub mod Limiter
pub mod Login
pub mod Overlap
pub mod Validity
pub mod Lockout
