-- ===== src/Fields.antt =====
-- src/v3/packets/common: the fields that the packets are made of.
pub mod PacketId
pub mod Buff
pub mod Utf8
pub mod MqttStr
pub mod Topic
pub mod TopicFilter
