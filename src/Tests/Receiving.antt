-- ===== src/Tests/Receiving.antt =====
-- Two packets in the socket, and two calls of `recv`.
use mcutt.Common.{
  ◌≡◌, refl, sym, ap, ◌∙◌, inl, inr, [], ◌∷◌, ◌++◌, some, false, length, append-nil, arith,
}
use mcutt.Bytes.{Bytes, ok}
use mcutt.Bytes.Vec.{vec_write}
use mcutt.External.Mio.{Token}
use mcutt.External.Reference.{zerocopy, bitflags, memchr}
use mcutt.Tests.Streams.{byte_slice, byte_slice-IsLive}
use mcutt.Tests.Sockets.{Script, script_poll, script_timer, script_net}
use mcutt.Sync.Reader
use mcutt.Sync.Reader.{Reader}
use mcutt.Sync.Connection.{recv}
use mcutt.Sync.Connection.Open.{IsOpen}
use mcutt.Sync.Connection.Sequence.{HasFrames, ReceivesAll, recv-ReceivesAll}
use mcutt.Sync.Connection.Found.{Retries}
use mcutt.Sync.Connection.Exact.{recv-Exact}
use mcutt.Sync.Reader.Stream.{stream}
use mcutt.Fixed.Header
use mcutt.Fixed.Header.Frame.{next_frame-header_bytes}
use mcutt.Fixed.RemainingLength.{len_from_u32, encode_to_array}
use mcutt.Fixed.PacketType
use mcutt.Fixed.PacketType.{default_flags}
use mcutt.Packets.Short.{length-short_bytes}
use mcutt.Packets.PingResp
use mcutt.Packets.Packet
use mcutt.Packets.Packet.{Packet}
use mcutt.Packets.Packet.Dispatch.{parse-ping_resp, parse-sub_ack}
use mcutt.Packets.SubAck
use mcutt.Tests.Messages.{two_codes, two_codes-IsSendable}
use mcutt.Sync.Connection.Receives.{recv-Receives}
use mcutt.Tests.Sessions.{Session, session, fresh-IsOpen, one_ping, next_frame-ping, given-front}

-- A SUBACK with two codes, and a PINGRESP behind it.
abbrev sub_ack_frame : Bytes
sub_ack_frame = SubAck.Frame.frame 1 two_codes

abbrev both : Bytes
both = sub_ack_frame ++ one_ping

len_of_4 : len_from_u32 4 ≡ ok 1
unfolding len_from_u32
len_of_4 = refl

next_frame-sub_ack : Header.next_frame both ≡ ok (some (length sub_ack_frame))
unfolding encode_to_array
next_frame-sub_ack =
    next_frame-header_bytes PacketType.sub_ack (default_flags PacketType.sub_ack) 1
      (SubAck.Frame.body two_codes) (SubAck.Frame.body two_codes ++ one_ping) len_of_4

sub_ack_long : length sub_ack_frame ≡ 6
unfolding encode_to_array
sub_ack_long = refl

abbrev acked : Packet
acked = Packet.sub_ack (SubAck.Frame.parsed two_codes)

abbrev answered : Packet
answered = Packet.ping_resp PingResp.ping_resp

-- Both polls report the socket.
abbrev two_events : Script
two_events = (Token.reader ∷ []) ∷ (Token.reader ∷ Token.timer ∷ []) ∷ []

both_frames :
    HasFrames
      (acked ∷ answered ∷ [])
      []
      (stream (Reader.consume (session two_events both).reader.inner))
both_frames = (
  sub_ack_frame,
  one_ping,
  record {
    stream = given-front two_events both;
    frame = next_frame-sub_ack;
    fits = omega (arith, sub_ack_long);
    alone = inl (omega (arith, sub_ack_long));
  },
  ap Packet.parse (sym (append-nil sub_ack_frame))
      ∙ parse-sub_ack two_codes 1 [] two_codes-IsSendable len_of_4,
  (
    one_ping,
    [],
    record {
      stream = sym (append-nil one_ping);
      frame = next_frame-ping [];
      fits = omega (arith, length-short_bytes PacketType.ping_resp 0);
      alone = inr refl;
    },
    ap Packet.parse (sym (append-nil one_ping)) ∙ parse-ping_resp [],
    refl,
  ),
)

recv-ReceivesAll_example :
    (last : Session) × ReceivesAll (acked ∷ answered ∷ []) (session two_events both) last
    × IsOpen last
    × (stream (Reader.consume last.reader.inner) ≡ [])
    × (last.writer ≡ record { sent_flag = false; inner = [] })
recv-ReceivesAll_example =
    recv-ReceivesAll (acked ∷ answered ∷ []) (session two_events both) [] byte_slice-IsLive
      (fresh-IsOpen two_events both) ([], _, refl, (Token.timer ∷ [], _, refl, tt)) both_frames

-- The first of the two calls.
first_recv : (next : Session) × (recv 1 (session two_events both) ≡ some (ok acked, next))
first_recv =
    let (bs, behind, is_next, parsed, more) = both_frames in
    let (next, received, still, left, silent, polled) =
      recv-Receives 0 (session two_events both) _ bs behind acked byte_slice-IsLive
        (fresh-IsOpen two_events both) ([], refl) is_next parsed in
    (next, received)

recv-Exact_example :
    (before : Reader Bytes) × (bytes : Bytes) × Retries
      (Reader.consume (session two_events both).reader.inner)
      before
    × (Packet.parse bytes ≡ ok (acked, []))
    × (Header.next_frame bytes ≡ ok (some (length bytes)))
    × (stream before ≡ bytes ++ stream (Reader.consume first_recv.0.reader.inner))
recv-Exact_example =
    recv-Exact 1 (session two_events both) first_recv.0 acked (fresh-IsOpen two_events both) refl
      first_recv.1
