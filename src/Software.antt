-- ===== src/Software.antt =====
-- The software inventory: server/software.go and the uninstall jobs of agent/softwareinventory.go.
pub mod Inventory
pub mod Reconciliation
pub mod Status
pub mod Uninstall
pub mod Gate
pub mod Endpoint
pub mod Honour
pub mod Request
