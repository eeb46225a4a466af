-- ===== src/Tests/Messages.antt =====
-- Packets as a client receives them, and a PUBLISH and a SUBACK by themselves.
use mcutt.Common.{
  ℕ, length, replicate, length-replicate, none, ◌≡◌, refl, false, some, [], ◌∷◌, ◌++◌, arith,
}
use mcutt.Bytes.{Bytes}
use mcutt.Bytes.Vec.{vec_write}
use mcutt.Bytes.Emits.{Delivers}
use mcutt.External.Reference.{zerocopy, bitflags, memchr}
use mcutt.Fields.PacketId
use mcutt.Fields.Utf8.{decode, is_utf8, chars}
use mcutt.Fields.MqttStr.{is_valid_char}
use mcutt.Fields.MqttStr.Write.{IsText}
use mcutt.Fields.Topic.{contains_wildcard_char}
use mcutt.Bytes.{error}
use mcutt.Packets.PubAck
use mcutt.Packets.PubRec
use mcutt.Packets.PubRel
use mcutt.Packets.PubComp
use mcutt.Packets.UnsubAck
use mcutt.Packets.Packet
use mcutt.Packets.Packet.{Packet}
use mcutt.Packets.Packet.Dispatch.{publish-Delivers, acks-Delivers}
use mcutt.Packets.SubAck
use mcutt.Packets.SubAck.{SubAck, qos_1, failure}
use mcutt.Packets.SubAck.Write.{SubAckBuilder}
use mcutt.Packets.SubAck.RoundTrip.{SubAck-Delivers}
use mcutt.Packets.Publish
use mcutt.Packets.Publish.Builder.{PublishBuilder, qos, at_most_once, at_least_once}
use mcutt.Bytes.{out_of_range}
use mcutt.Bytes.Emits.{Rejects}
use mcutt.Packets.Publish.Rejects.{write_sync-Rejects_length}
use mcutt.Packets.Publish.Requalified.{at_most_once-qos}
use mcutt.Packets.Publish.RoundTrip.{Same, IsSendable, read_pkid, Publish-Delivers}

abbrev pub two_codes : SubAckBuilder
two_codes = record { pkid = 10; return_codes = qos_1 ∷ failure ∷ [] }

pub two_codes-IsSendable : SubAck.Frame.IsSendable two_codes
two_codes-IsSendable = record { pkid = (omega arith, omega arith); fits = omega arith }

SubAck-Delivers_example :
    Delivers {W = Bytes} (SubAck.Write.write_sync two_codes) SubAck.parse (λ (this : SubAck).
      (PacketId.read this.pkid ≡ some 10) × (this.return_codes ≡ (qos_1 ∷ failure ∷ [])))
SubAck-Delivers_example = SubAck-Delivers two_codes two_codes-IsSendable

-- The topic `a/é`, with the flags of QoS 1 and of a retained message.
abbrev pub message : PublishBuilder
message = record {
  topic = 97 ∷ 47 ∷ 195 ∷ 169 ∷ [];
  payload = 0 ∷ 255 ∷ [];
  flags = 3;
  pkid = some 77;
}

message-IsText : IsText message.topic
unfolding is_utf8 decode chars is_valid_char
message-IsText = record { utf8 = refl; allowed = refl; short = omega arith }

plain_topic : contains_wildcard_char message.topic ≡ false
unfolding contains_wildcard_char
plain_topic = refl

pub message-IsSendable : IsSendable message
message-IsSendable = record {
  topic = message-IsText;
  plain = plain_topic;
  flags = omega arith;
  pkid = (refl, (omega arith, omega arith));
  fits = omega arith;
}

Publish-Delivers_example :
    Delivers {W = Bytes} (Publish.Write.write_sync message) Publish.parse (Same message)
Publish-Delivers_example = Publish-Delivers message message-IsSendable

publish-Delivers_example :
    Delivers {W = Bytes}
      (Publish.Write.write_sync message)
      Packet.parse
      (λ (p : Packet). (this : Publish.Publish) × (p ≡ Packet.publish this) × Same message this)
publish-Delivers_example = publish-Delivers message message-IsSendable

acks-Delivers_example :
    Delivers {W = Bytes} (PubAck.Write.write_sync 9) Packet.parse (λ (p : Packet).
      (this : PubAck.PubAck) × (p ≡ Packet.pub_ack this) × (PacketId.read this.pkid ≡ some 9))
    × Delivers {W = Bytes} (PubRec.Write.write_sync 9) Packet.parse (λ (p : Packet).
      (this : PubRec.PubRec) × (p ≡ Packet.pub_rec this) × (PacketId.read this.pkid ≡ some 9))
    × Delivers {W = Bytes} (PubRel.Write.write_sync 9) Packet.parse (λ (p : Packet).
      (this : PubRel.PubRel) × (p ≡ Packet.pub_rel this) × (PacketId.read this.pkid ≡ some 9))
    × Delivers {W = Bytes} (PubComp.Write.write_sync 9) Packet.parse (λ (p : Packet).
      (this : PubComp.PubComp) × (p ≡ Packet.pub_comp this) × (PacketId.read this.pkid ≡ some 9))
    × Delivers {W = Bytes} (UnsubAck.Write.write_sync 9) Packet.parse (λ (p : Packet).
      (this : UnsubAck.UnsubAck) × (p ≡ Packet.unsub_ack this) × (PacketId.read this.pkid ≡ some 9))
acks-Delivers_example = acks-Delivers 9 (omega arith, omega arith)

-- The message without identifier.
abbrev plain_message : PublishBuilder
plain_message = record {
  topic = 97 ∷ 47 ∷ 195 ∷ 169 ∷ [];
  payload = 0 ∷ 255 ∷ [];
  flags = 1;
  pkid = none;
}

plain_message-IsSendable : IsSendable plain_message
plain_message-IsSendable = record {
  topic = message-IsText;
  plain = plain_topic;
  flags = omega arith;
  pkid = refl;
  fits = omega arith;
}

at_most_once-qos_example :
    ((qos at_most_once (qos (at_least_once false 5) plain_message)).pkid ≡ some 5)
    × Delivers {W = Bytes}
        (Publish.Write.write_sync (qos at_most_once (qos (at_least_once false 5) plain_message)))
        Publish.parse
        (λ (this : Publish.Publish).
          (this.topic.text ≡ plain_message.topic)
          × (this.payload ≡ zerocopy.u16_bytes 5 ++ plain_message.payload)
          × (read_pkid this.packet_id ≡ none))
at_most_once-qos_example =
    at_most_once-qos plain_message false 5 plain_message-IsSendable (omega arith, omega arith)
      (omega arith)

-- A payload of `n` bytes.
zeros : ℕ → Bytes
zeros n = replicate n 0

length-zeros : (n : ℕ) → length (zeros n) ≡ n
unfolding zeros
length-zeros n = length-replicate n 0

abbrev large_message : PublishBuilder
large_message = record { topic = 97 ∷ []; payload = zeros 268435456; flags = 0; pkid = none }

plain_large : contains_wildcard_char large_message.topic ≡ false
unfolding contains_wildcard_char
plain_large = refl

write_sync-Rejects_length_example :
    Rejects {W = Bytes}
      (error out_of_range "remaining length")
      (Publish.Write.write_sync large_message)
write_sync-Rejects_length_example =
    write_sync-Rejects_length large_message plain_large (omega (arith, length-zeros 268435456))
      (omega (arith, length-zeros 268435456))
