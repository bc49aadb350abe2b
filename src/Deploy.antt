-- ===== src/Deploy.antt =====
-- The command queue of the server: server/deploy.go, the deploy queries of server/db.go, and
-- the parts of server/hub.go that deliver a command and take its result in.
pub mod Model
pub mod Store
pub mod Claim
pub mod Order
pub mod Eligible
pub mod Selection
pub mod Statements
pub mod Counting
pub mod Invariant
pub mod Dispatch
pub mod Fencing
pub mod Cancellation
pub mod Report
pub mod Pump
pub mod Sweep
pub mod Fate
pub mod Recovery
pub mod Retries
pub mod Run
pub mod Upkeep
pub mod Creation
pub mod Orphans
pub mod Safety
pub mod Quiet
pub mod Unconfirmed
pub mod Silence
