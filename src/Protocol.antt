-- ===== src/Protocol.antt =====
-- The MySQL wire protocol of pkg/protocol: packets, length-encoded values, response packets,
-- commands, the handshake. A byte slice is a list of numbers below 256.
pub mod Bytes
pub mod Packet
pub mod Lenenc
pub mod Response
pub mod Commands
pub mod Handshake
mod Examples
