-- ===== src/Shared.antt =====
-- The module that the server and the agent share: shared/command.go and shared/software.go.
pub mod Command
pub mod Identity
pub mod Product
pub mod ProductCode
pub mod Version
pub mod VersionOrder
pub mod CommandLine
pub mod Quoting
