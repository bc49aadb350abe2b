-- ===== src/Agent.antt =====
-- The command side of the agent: agent/cmddedup.go, agent/ack.go and agent/cmdqueue.go.
pub mod Completed
pub mod Acks
pub mod Queue
pub mod Run
pub mod Entries
pub mod Retention
pub mod Tracking
pub mod Submission
pub mod Once
pub mod Redelivery
pub mod Drain
