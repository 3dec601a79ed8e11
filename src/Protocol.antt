-- ===== src/Protocol.antt =====
-- src/protocol.c: procedure names, packet headers, and the integrity of a packet.
pub mod Name
pub mod Op
pub mod Header
pub mod Buffer
pub mod Checksum
pub mod Mac
pub mod Integrity
