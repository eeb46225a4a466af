-- ===== src/Tests/Sessions.antt =====
-- Connections over the scripted poll: made, ticked, written to and read from.
use mcutt.Common.{
  ℕ, ◌≡◌, refl, ap, ◌∙◌, ◌⊎◌, List, [], ◌∷◌, ◌++◌, none, some, false, length, length-append,
  length-replicate, replicate, arith,
}
use mcutt.Bytes.{Bytes, error, invalid, ok, err}
use mcutt.Bytes.Vec.{vec_write}
use mcutt.External.Mio.{Token}
use mcutt.External.Reference.{zerocopy, bitflags, memchr}
use mcutt.Tests.Streams.{byte_slice, byte_slice-IsLive, byte_slice-IsGreedy}
use mcutt.Tests.Sockets.{Script, script_poll, script_timer, script_net}
use mcutt.Sync.Reader
use mcutt.Sync.Reader.{Reader}
use mcutt.Sync.Connection.{Connection, recv, publish}
use mcutt.Sync.Connection.Create.{create}
use mcutt.Sync.Connection.Opened.{Opens, create-Opens}
use mcutt.Sync.Connection.Open.{IsOpen}
use mcutt.Sync.Connection.Reach.{Reach-IsOpen, created, later, publishes}
use mcutt.Sync.Connection.Loses.{recv-Loses}
use mcutt.Sync.Reader.Stream.{stream}
use mcutt.Sync.Reader.Sound.{with_capacity-IsSound, fresh}
use mcutt.Fixed.Header
use mcutt.Fixed.Header.Frame.{next_frame-header_bytes}
use mcutt.Fixed.RemainingLength.{len_from_u32}
use mcutt.Fixed.PacketType
use mcutt.Fixed.PacketType.{default_flags}
use mcutt.Packets.Short.{short_bytes, length-short_bytes}
use mcutt.Packets.PingResp
use mcutt.Packets.Packet.{Packet}
use mcutt.Packets.Packet.Dispatch.{parse-ping_resp}
use mcutt.Packets.Connect
use mcutt.Packets.Connect.{Connect}
use mcutt.Packets.Connect.RoundTrip.{Same}
use mcutt.Packets.Connect.Setters.{Reach-Agrees}
use mcutt.Sync.Connection.{connect}
use mcutt.Sync.Connection.Handshake.{Connected, NotSent, answer, connect-Connects}
use mcutt.Tests.Acks.{plain_ack}
use mcutt.Tests.Connections.{request, request-Reach, request-HasParts, request_id}
use mcutt.Tests.Messages.{message}

abbrev pub Session : Type 0
Session = Connection Script ℕ Bytes

-- Nothing was sent and `given` waits in the socket.
abbrev pub session : Script → Bytes → Session
session script given = record {
  writer = record { sent_flag = false; inner = [] };
  reader = record {
    poll = script;
    timer_fd = 3;
    inner = record { buf = replicate 8192 0; pos = 0; frame = none; filled = 0; inner = given };
  };
}

-- The first of these does not answer.
abbrev addresses : List ℕ
addresses = 0 ∷ 1 ∷ []

abbrev opened : Session
opened = session ((Token.timer ∷ []) ∷ []) []

create-opened : create (ok addresses) 30000000000 ≡ ok opened
unfolding create Reader.with_capacity
create-opened = refl

create-Opens_example : Opens addresses 30000000000 opened
create-Opens_example = create-Opens addresses 30000000000 opened create-opened

-- A message is published after the connection is made.
Reach-IsOpen_example : IsOpen (publish message opened).1
Reach-IsOpen_example =
    Reach-IsOpen addresses 30000000000 (later (created create-opened) (publishes message))

pub fresh-IsOpen : (script : Script) (given : Bytes) → IsOpen (session script given)
unfolding Reader.with_capacity
fresh-IsOpen script given = record {
  sound = (with_capacity-IsSound given 8192 (fresh given 8192) (omega arith) refl).0;
  room = length-replicate {A = ℕ} 8192 0;
}

-- A PINGRESP, and two more behind it.
abbrev pub one_ping : Bytes
one_ping = short_bytes PacketType.ping_resp 0

abbrev two_pings : Bytes
two_pings = one_ping ++ one_ping

len_of_0 : len_from_u32 0 ≡ ok 1
unfolding len_from_u32
len_of_0 = refl

pub next_frame-ping :
    (rest : Bytes) → Header.next_frame (one_ping ++ rest) ≡ ok (some (length one_ping))
next_frame-ping rest =
    next_frame-header_bytes PacketType.ping_resp (default_flags PacketType.ping_resp) 1 [] rest
      len_of_0
    ∙ ap (λ n. ok (some n)) (omega (arith, length-append one_ping []))

pub given-front :
    (script : Script) (given : Bytes)
    → stream (Reader.consume (session script given).reader.inner) ≡ given
unfolding Reader.consume Reader.buff
given-front script given = refl

recv-Loses_example :
    (next : Session) × (recv 1 (session ((Token.reader ∷ []) ∷ []) (one_ping ++ two_pings))
      ≡ some (err (error invalid "remaining bytes in consumed packet"), next))
    × (stream (Reader.consume next.reader.inner) ≡ two_pings)
unfolding Reader.consume
recv-Loses_example =
    let script = (Token.reader ∷ []) ∷ [] in
    recv-Loses 0 (session ((Token.reader ∷ []) ∷ []) (one_ping ++ two_pings)) [] one_ping two_pings
      (Packet.ping_resp PingResp.ping_resp) byte_slice-IsGreedy
      (fresh-IsOpen ((Token.reader ∷ []) ∷ []) (one_ping ++ two_pings)) ([], refl) refl
      (record {
        stream = given-front ((Token.reader ∷ []) ∷ []) (one_ping ++ two_pings);
        frame = next_frame-ping two_pings;
        short = omega (arith, length-short_bytes PacketType.ping_resp 0);
        arrived = omega (
          arith,
          length-short_bytes PacketType.ping_resp 0,
          length-append one_ping two_pings,
          length-append one_ping one_ping,
        );
      })
      parse-ping_resp

-- A CONNACK waits in the socket of a connection that was just made.
connect-Connects_example :
    (bs : Bytes) × (this : Connect) × ((rest : Bytes)
      → Connect.parse (bs ++ rest) ≡ ok (this, rest))
    × Same request this
    × (Connected bs plain_ack
          (session ((Token.reader ∷ []) ∷ []) (answer plain_ack))
          (connect request 1 (session ((Token.reader ∷ []) ∷ []) (answer plain_ack)))
        ⊎ NotSent bs
            (session ((Token.reader ∷ []) ∷ []) (answer plain_ack))
            (connect request 1 (session ((Token.reader ∷ []) ∷ []) (answer plain_ack))))
unfolding Reader.buff
connect-Connects_example =
    let c = session ((Token.reader ∷ []) ∷ []) (answer plain_ack) in
    connect-Connects 0 request c [] plain_ack request-HasParts (Reach-Agrees request request-Reach)
      request_id byte_slice-IsLive (fresh-IsOpen ((Token.reader ∷ []) ∷ []) (answer plain_ack)) refl
      ([], refl) (omega arith) refl
