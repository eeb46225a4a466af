-- ===== src/Packets/ConnectParts.antt =====
-- src/v3/packets/connect/mod.rs: the parts of a CONNECT packet.
pub mod Flags
pub mod Header
pub mod ClientId
pub mod Will
