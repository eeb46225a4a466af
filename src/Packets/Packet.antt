-- ===== src/Packets/Packet.antt =====
-- src/v3/packets/packet.rs: the packets that a client receives, told apart by their first byte.
pub mod Dispatch
pub mod Local
pub mod Framed
pub mod AnyLength
use mcutt.Common.{ℕ, Bool, true, false, get_elem?}
use mcutt.Bytes.{Bytes, Error, error, invalid, not_enough_space, Result, err, ok_or}
use mcutt.Bytes.Try.{◌>>=◌, map_ok}
use mcutt.External.Zerocopy.{Zerocopy}
use mcutt.External.Bitflags.{Bitflags}
use mcutt.External.Memchr.{Memchr}
use mcutt.Fixed.PacketType
use mcutt.Fixed.PacketType.{ControlPacketType}
use mcutt.Packets.ConnAck
use mcutt.Packets.ConnAck.{ConnAck}
use mcutt.Packets.Publish
use mcutt.Packets.Publish.{Publish}
use mcutt.Packets.PubAck
use mcutt.Packets.PubAck.{PubAck}
use mcutt.Packets.PubRec
use mcutt.Packets.PubRec.{PubRec}
use mcutt.Packets.PubRel
use mcutt.Packets.PubRel.{PubRel}
use mcutt.Packets.PubComp
use mcutt.Packets.PubComp.{PubComp}
use mcutt.Packets.SubAck
use mcutt.Packets.SubAck.{SubAck}
use mcutt.Packets.UnsubAck
use mcutt.Packets.UnsubAck.{UnsubAck}
use mcutt.Packets.PingResp
use mcutt.Packets.PingResp.{PingResp}

pub data Packet : Type 0 where
  conn_ack : ConnAck → Packet
  publish : Publish → Packet
  pub_ack : PubAck → Packet
  pub_rec : PubRec → Packet
  pub_rel : PubRel → Packet
  pub_comp : PubComp → Packet
  sub_ack : SubAck → Packet
  unsub_ack : UnsubAck → Packet
  ping_resp : PingResp → Packet

-- `|(p, rest)| (Packet::X(p), rest)`.
abbrev pub wrap : {A : Type 0} → (A → Packet) → A × Bytes → Packet × Bytes
wrap packet (p, rest) = (packet p, rest)

module _ ⦃z : Zerocopy⦄ ⦃f : Bitflags⦄ ⦃m : Memchr⦄ where
  -- The match of `parse` on the packet type.
  pub parse_as : ControlPacketType → Bytes → Result (Packet × Bytes) Error
  parse_as PacketType.conn_ack buf = map_ok (wrap conn_ack) (ConnAck.parse buf)
  parse_as PacketType.publish buf = map_ok (wrap publish) (Publish.parse buf)
  parse_as PacketType.pub_ack buf = map_ok (wrap pub_ack) (PubAck.parse buf)
  parse_as PacketType.pub_rec buf = map_ok (wrap pub_rec) (PubRec.parse buf)
  parse_as PacketType.pub_rel buf = map_ok (wrap pub_rel) (PubRel.parse buf)
  parse_as PacketType.pub_comp buf = map_ok (wrap pub_comp) (PubComp.parse buf)
  parse_as PacketType.sub_ack buf = map_ok (wrap sub_ack) (SubAck.parse buf)
  parse_as PacketType.unsub_ack buf = map_ok (wrap unsub_ack) (UnsubAck.parse buf)
  parse_as PacketType.ping_resp buf = map_ok (wrap ping_resp) (PingResp.parse buf)
  parse_as PacketType.connect buf = err (error invalid "packet type received")
  parse_as PacketType.subscribe buf = err (error invalid "packet type received")
  parse_as PacketType.unsubscribe buf = err (error invalid "packet type received")
  parse_as PacketType.ping_req buf = err (error invalid "packet type received")
  parse_as PacketType.disconnect buf = err (error invalid "packet type received")

  pub parse : Bytes → Result (Packet × Bytes) Error
  unfolding parse_as
  parse buf = do
    first ← ok_or (error not_enough_space "empty buffer") (get_elem? buf 0)
    (pkg_type, flags) ← PacketType.parse first
    parse_as pkg_type buf
