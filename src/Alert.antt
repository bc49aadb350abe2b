-- ===== src/Alert.antt =====
-- The alerts of the server: server/alert.go.
pub mod Metrics
pub mod Offline
pub mod Cooldown
pub mod Once
