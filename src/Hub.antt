-- ===== src/Hub.antt =====
-- The requests that wait for the answer of an agent: server/hub.go.
pub mod Waiters
pub mod Replies
