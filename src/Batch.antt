-- ===== src/Batch.antt =====
-- The metrics batcher of the server: server/batcher.go.
pub mod Batcher
pub mod Conservation
