-- ===== src/Kill.antt =====
-- How the agent ends a process: agent/killverify.go, agent/killidentity.go, and the decision on a
-- new process in agent/procwatch.go.
pub mod Verify
pub mod Verdict
pub mod Identity
pub mod Targets
