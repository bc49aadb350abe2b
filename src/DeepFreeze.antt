-- ===== src/DeepFreeze.antt =====
-- Deep Freeze: server/deepfreeze.go with its route in server/api.go, and agent/deepfreeze.go.
pub mod Endpoint
pub mod Request
pub mod Answer
