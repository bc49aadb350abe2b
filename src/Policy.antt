-- ===== src/Policy.antt =====
-- The policy rules: shared/policy.go, the agent's cache of agent/policycache.go, and the server's
-- side in server/policy.go and server/hub.go.
pub mod Match
pub mod Location
pub mod Order
pub mod Ranking
pub mod Choice
pub mod Cache
pub mod Server
pub mod Admin
pub mod Agreement
pub mod Current
