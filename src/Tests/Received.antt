-- ===== src/Tests/Received.antt =====
-- Buffers with a packet in front, as `Packet::parse` sees them.
use mcutt.Common.{◌≤◌, ◌≡◌, refl, some, [], ◌∷◌, ◌++◌, length, arith}
use mcutt.Bytes.{Bytes, ok}
use mcutt.External.Reference.{zerocopy, bitflags, memchr}
use mcutt.Fixed.RemainingLength.{len_from_u32}
use mcutt.Fixed.PacketType
use mcutt.Fixed.PacketType.{default_flags, encode_type_and_flags}
use mcutt.Fixed.Header
use mcutt.Packets.PingResp
use mcutt.Packets.SubAck
use mcutt.Packets.Packet
use mcutt.Packets.Packet.{Packet}
use mcutt.Packets.Packet.Dispatch.{parse-sub_ack}
use mcutt.Packets.Packet.Local.{parse-IsLocal}
use mcutt.Packets.Packet.Framed.{parse-next_frame}
use mcutt.Packets.Packet.AnyLength.{Takes, id_of, acks-any_length}
use mcutt.Tests.Messages.{two_codes, two_codes-IsSendable}

-- A SUBACK with two codes and a byte behind it.
abbrev frame : Bytes
frame = SubAck.Frame.frame 1 two_codes

abbrev acked : Packet
acked = Packet.sub_ack (SubAck.Frame.parsed two_codes)

len_of_4 : len_from_u32 4 ≡ ok 1
unfolding len_from_u32
len_of_4 = refl

frame_parsed : Packet.parse (frame ++ (9 ∷ [])) ≡ ok (acked, 9 ∷ [])
frame_parsed = parse-sub_ack two_codes 1 (9 ∷ []) two_codes-IsSendable len_of_4

parse-IsLocal_example :
    (used : Bytes) × (frame ++ (9 ∷ []) ≡ used ++ (9 ∷ []))
    × (2 ≤ length used)
    × ((more : Bytes) → Packet.parse (used ++ more) ≡ ok (acked, more))
parse-IsLocal_example = parse-IsLocal (frame ++ (9 ∷ [])) (9 ∷ []) acked frame_parsed

parse-next_frame_example :
    (used : Bytes) × (frame ++ (9 ∷ []) ≡ used ++ (9 ∷ []))
    × (Header.next_frame (frame ++ (9 ∷ [])) ≡ ok (some (length used)))
parse-next_frame_example = parse-next_frame (frame ++ (9 ∷ [])) (9 ∷ []) acked refl frame_parsed

-- Headers that say that nothing follows.
acks-any_length_example :
    Takes PacketType.pub_ack 0
      (zerocopy.u16_bytes 7 ++ [])
      (Packet.pub_ack (record { pkid = id_of 7 }))
      []
    × Takes PacketType.pub_rec 0
        (zerocopy.u16_bytes 7 ++ [])
        (Packet.pub_rec (record { pkid = id_of 7 }))
        []
    × Takes PacketType.pub_rel 0
        (zerocopy.u16_bytes 7 ++ [])
        (Packet.pub_rel (record { pkid = id_of 7 }))
        []
    × Takes PacketType.pub_comp 0
        (zerocopy.u16_bytes 7 ++ [])
        (Packet.pub_comp (record { pkid = id_of 7 }))
        []
    × Takes PacketType.unsub_ack 0
        (zerocopy.u16_bytes 7 ++ [])
        (Packet.unsub_ack (record { pkid = id_of 7 }))
        []
    × Takes PacketType.ping_resp 0 [] (Packet.ping_resp PingResp.ping_resp) []
acks-any_length_example = acks-any_length 0 7 [] (omega arith) (omega arith, omega arith)
