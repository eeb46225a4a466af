-- ===== src/Packets/Publish.antt =====
-- src/v3/packets/publish/mod.rs: the PUBLISH packet, an application message.
pub mod Builder
pub mod Write
pub mod RoundTrip
pub mod Qos
pub mod Requalified
pub mod Rejects
pub mod Local
use mcutt.Common.{ℕ, Bool, true, false, Option, none, some, split_at_checked, if◌then◌else◌}
use mcutt.Bytes.{Bytes, Error, error, invalid, not_enough_space, Result, ok, err, ok_or}
use mcutt.Bytes.Try.{◌>>=◌, ◌>>◌, map_ok, fail_if}
use mcutt.External.Zerocopy.{Zerocopy}
use mcutt.External.Bitflags.{Bitflags}
use mcutt.External.Memchr.{Memchr}
use mcutt.Fixed.RemainingLength
use mcutt.Fixed.TypeFlags
use mcutt.Fixed.Header
use mcutt.Fixed.Header.{FixedHeader}
use mcutt.Fields.PacketId
use mcutt.Fields.PacketId.{PacketId}
use mcutt.Fields.MqttStr
use mcutt.Fields.MqttStr.{MqttStr}
use mcutt.Fields.Topic.{contains_wildcard_char}

pub record Publish : Type 0 where
  pub fixed : FixedHeader
  pub topic : MqttStr
  pub packet_id : Option PacketId
  pub payload : Bytes

abbrev some_left : PacketId × Bytes → Option PacketId × Bytes
some_left (v, r) = (some v, r)

module _ ⦃m : Memchr⦄ where
  unfoldable pub validate : Publish → Result (Unit {0}) Error
  validate this =
      fail_if (contains_wildcard_char this.topic.text)
        (error invalid "PUBLISH topic contains wildcard character")

module _ ⦃z : Zerocopy⦄ ⦃f : Bitflags⦄ ⦃m : Memchr⦄ where
  -- The identifier, which is there only with a QoS flag.
  pub parse_packet_id : FixedHeader → Bytes → Result (Option PacketId × Bytes) Error
  parse_packet_id fixed rest =
      let has_pkid =
        f.intersects (Header.flags fixed)
          (f.union TypeFlags.publish_qos_1 TypeFlags.publish_qos_2) in
      if has_pkid then map_ok some_left (PacketId.parse rest) else ok (none, rest)

  pub parse : Bytes → Result (Publish × Bytes) Error
  unfolding parse_packet_id validate
  parse buff = do
    (fixed, rest) ← Header.parse buff
    let rem_len = RemainingLength.read_len fixed.remaining_length
    (rest, rem) ← ok_or (error not_enough_space "PUBLISH packet") (split_at_checked rem_len rest)
    (topic, rest) ← MqttStr.parse rest
    (packet_id, rest) ← parse_packet_id fixed rest
    validate (record { fixed = fixed; topic = topic; packet_id = packet_id; payload = rest })
    ok (record { fixed = fixed; topic = topic; packet_id = packet_id; payload = rest }, rem)
