-- ===== src/Packets.antt =====
-- src/v3/packets: the control packets, a module for each.
pub mod Framed
pub mod Short
pub mod PubAck
pub mod PubRec
pub mod PubRel
pub mod PubComp
pub mod UnsubAck
pub mod PingReq
pub mod PingResp
pub mod Disconnect
pub mod Qos
pub mod Cursor
pub mod Publish
pub mod Subscribe
pub mod Unsubscribe
pub mod SubAck
pub mod ConnAck
pub mod Optional
pub mod ConnectParts
pub mod Connect
pub mod Packet
