-- ===== src/Wake.antt =====
-- Wake-on-LAN: server/wolpacket.go and createWakeCommand of server/commands.go.
pub mod Address
pub mod Subnet
pub mod Packet
pub mod Request
pub mod Unique
pub mod Broadcast
