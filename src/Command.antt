-- ===== src/Command.antt =====
-- The command API of the server: server/commands.go.
pub mod Target
pub mod Action
pub mod Network
pub mod Create
pub mod Post
pub mod Progress
pub mod Known
pub mod Literal
pub mod Connectivity
pub mod Refusal
pub mod Counts
