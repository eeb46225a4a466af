-- ===== src/Fixed.antt =====
-- src/v3/packets/common/fixed: the fixed header that every packet starts with.
pub mod RemainingLength
pub mod TypeFlags
pub mod PacketType
pub mod Header
