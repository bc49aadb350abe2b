-- ===== src/Tests.antt =====
-- The theorems at concrete inputs.
mod Deploy
mod Agent
mod Policy
mod Sync
mod Kill
mod Auth
mod Shared
mod Lost
mod Batch
mod Alert
mod Command
mod Post
mod Software
mod Wake
mod Catalog
mod DeepFreeze
mod Hub
