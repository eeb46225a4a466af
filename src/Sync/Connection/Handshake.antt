-- ===== src/Sync/Connection/Handshake.antt =====
-- `connect`: the CONNECT that is sent, and the CONNACK that answers it.
use mcutt.Common.{
  ℕ, suc, ◌<◌, ◌≡◌, refl, sym, ap, ◌∙◌, ◌⊎◌, inl, inr, [], ◌++◌, append-nil, Option, none, some,
  true, length, length-append, arith,
}
use mcutt.Bytes.{Bytes, Error, Result, ok, err}
use mcutt.Bytes.Try
use mcutt.Bytes.Io.{Write}
use mcutt.External.Zerocopy.{Zerocopy}
use mcutt.External.Bitflags.{Bitflags}
use mcutt.External.Memchr.{Memchr}
use mcutt.External.Mio.{Poll, Timer}
use mcutt.Fixed.Header
use mcutt.Fixed.Header.Frame.{next_frame-header_bytes}
use mcutt.Fixed.RemainingLength.Encoding.{len_from_u32_small}
use mcutt.Fixed.PacketType.{conn_ack, default_flags}
use mcutt.Packets.Short.{short_bytes, length-short_bytes}
use mcutt.Packets.ConnAck
use mcutt.Packets.ConnAck.{ConnAck, as_bytes}
use mcutt.Packets.ConnAck.Reserved.{parse-as_bytes}
use mcutt.Packets.Connect
use mcutt.Packets.Connect.{Connect}
use mcutt.Packets.Connect.Frame.{Agrees, HasParts}
use mcutt.Packets.Connect.RoundTrip.{Connect-Delivers, Same}
use mcutt.Packets.ConnectParts.ClientId.Write.{IsClientId}
use mcutt.Packets.Connect.Builder.{ConnectBuilder}
use mcutt.Sync.Read.{Read, IsLive}
use mcutt.Sync.Reader
use mcutt.Sync.Reader.Stream.{stream}
use mcutt.Sync.Writer.{WriterHalf, send, store}
use mcutt.Sync.Writer.Sends.{Done, Failed, send-Sends}
use mcutt.Sync.Connection.{
  Connection, with_inner, with_poll, on_writer, consumed, wait_conn_ack, connect,
}
use mcutt.Sync.Connection.Open.{IsOpen, on_writer-IsOpen}
use mcutt.Sync.Connection.Receives.{IsNext, IsReadable, read-Takes, poll_event-Takes}

-- The bytes of a CONNACK.
abbrev pub answer : ConnAck → Bytes
answer ack = short_bytes conn_ack 2 ++ as_bytes ack

answer-IsNext : (ack : ConnAck) (given : Bytes) → given ≡ answer ack → IsNext (answer ack) [] given
answer-IsNext ack given e = record {
  stream = e ∙ sym (append-nil (answer ack));
  frame =
      ap Header.next_frame (append-nil (answer ack))
      ∙ next_frame-header_bytes conn_ack (default_flags conn_ack) 1 (as_bytes ack) (as_bytes ack)
          (len_from_u32_small 2 (omega arith));
  fits =
      omega (
        arith,
        length-append (short_bytes conn_ack 2) (as_bytes ack),
        length-short_bytes conn_ack 2,
      );
  alone = inr refl;
}

module _ ⦃z : Zerocopy⦄ ⦃f : Bitflags⦄ {P F S : Type 0} ⦃polls : Poll P S F⦄ ⦃timer : Timer F⦄
    ⦃reads : Read S⦄ ⦃writer : Write S⦄ where
  -- The CONNECT `bs` was sent, the CONNACK came back, and nothing is left on the stream.
  pub record Connected (bs : Bytes) (ack : ConnAck) (c : Connection P F S)
      (r : Option (Result ConnAck Error × Connection P F S)) : Type 0 where
    pub next : Connection P F S
    pub succeeds : r ≡ some (ok ack, next)
    pub wrote : writer.contents next.writer.inner ≡ writer.contents c.writer.inner ++ bs
    pub flag : next.writer.sent_flag ≡ true
    pub left : stream (Reader.consume next.reader.inner) ≡ []

  -- A write or a flush of the socket failed while `bs` was sent, and its error is returned; the reader
  -- was not asked.
  pub record NotSent (bs : Bytes) (c : Connection P F S)
      (r : Option (Result ConnAck Error × Connection P F S)) : Type 0 where
    pub half : WriterHalf S
    pub error : Error
    pub fails : r ≡ some (err error, record c { writer = half })
    pub sends : Failed bs c.writer (err error, half)

module _ ⦃z : Zerocopy⦄ ⦃f : Bitflags⦄ ⦃m : Memchr⦄ {P F S : Type 0} ⦃polls : Poll P S F⦄
    ⦃timer : Timer F⦄ ⦃reads : Read S⦄ ⦃writer : Write S⦄ where
  answered :
      (rounds : ℕ) (c : Connection P F S) (p : P) (ack : ConnAck)
      → IsLive S
      → IsOpen c
      → c.reader.inner.frame ≡ none
      → IsReadable c p
      → ack.flags < 256
      → stream c.reader.inner ≡ answer ack
      → (next : Connection P F S) × (wait_conn_ack (suc rounds) (ok tt, c) ≡ some (ok ack, next))
        × (next.writer ≡ c.writer)
        × (stream (Reader.consume next.reader.inner) ≡ [])
  answered rounds c p ack live o none_yet readable byte given =
      let inner = c.reader.inner in
      let got =
        read-Takes (answer ack) [] inner live o.sound none_yet o.room
          (answer-IsNext ack (stream inner) given) in
      let next = with_inner (with_poll c p) got.next in
      (
        next,
        ap (consumed (Try.consume ConnAck.parse)) (
              poll_event-Takes rounds c p (answer ack) got.next readable got.succeeds
              ∙ ap (λ b. some (ok b, next)) got.window)
            ∙ ap (λ r. some (r, next))
                ((Try.consume_iff ConnAck.parse (answer ack) ack).1 (parse-as_bytes ack [] byte)),
        refl,
        got.left,
      )

  after_send :
      (rounds : ℕ) (c : Connection P F S) (p : P) (ack : ConnAck) (bs : Bytes)
      (r : Result (Unit {0}) Error × WriterHalf S)
      → IsLive S
      → IsOpen c
      → c.reader.inner.frame ≡ none
      → IsReadable c p
      → ack.flags < 256
      → stream c.reader.inner ≡ answer ack
      → Done bs true c.writer r ⊎ Failed bs c.writer r
      → Connected bs ack c (wait_conn_ack (suc rounds) (on_writer c r))
        ⊎ NotSent bs c (wait_conn_ack (suc rounds) (on_writer c r))
  after_send rounds c p ack bs (err e, w) live o none_yet readable byte given (inl (h, d, e2)) =
      absurd (cc h)
  after_send rounds c p ack bs (err e, w) live o none_yet readable byte given (inr b) =
      inr (record { half = w; error = e; fails = refl; sends = b })
  after_send rounds c p ack bs (ok u, w) live o none_yet readable byte given (inr b) =
      absurd (cc (b.failed))
  after_send rounds c p ack bs (ok u, w) live o none_yet readable byte given
        (inl (h, wrote, flag)) =
      let (next, received, same, left) =
        answered rounds (record c { writer = w }) p ack live (on_writer-IsOpen c (ok u, w) o)
          none_yet readable byte given in
      inl (record {
        next = next;
        succeeds = received;
        wrote = ap (λ (x : WriterHalf S). writer.contents x.inner) same ∙ wrote;
        flag = ap (λ (x : WriterHalf S). x.sent_flag) same ∙ flag;
        left = left;
      })

  -- On an open connection that has given out nothing, whose socket does not fail while it has bytes:
  -- for every CONNECT whose client id a receiver accepts, whose will, user name and password may be
  -- sent and whose flags say which of them are there, when the first event of the next poll is the
  -- socket and exactly a CONNACK is on the stream, `connect` puts a CONNECT on the socket that is read
  -- back as what was given, marks the connection as used, and returns the CONNACK, whichever return
  -- code it has, with nothing left on the stream; or a write or a flush of the socket failed, a front
  -- of the CONNECT is on it, and that error is returned with the flag and the reader as they were.
  pub connect-Connects :
      (rounds : ℕ) (b : ConnectBuilder) (c : Connection P F S) (p : P) (ack : ConnAck)
      → HasParts b
      → Agrees b
      → IsClientId b.client_id
      → IsLive S
      → IsOpen c
      → c.reader.inner.frame ≡ none
      → IsReadable c p
      → ack.flags < 256
      → stream c.reader.inner ≡ answer ack
      → (bs : Bytes) × (this : Connect) × ((rest : Bytes)
          → Connect.parse (bs ++ rest) ≡ ok (this, rest))
        × Same b this
        × (Connected bs ack c (connect b (suc rounds) c) ⊎ NotSent bs c (connect b (suc rounds) c))
  unfolding connect
  connect-Connects rounds b c p ack parts agrees id live o none_yet readable byte given =
      let (bs, this, emits, read, same) = Connect-Delivers b parts agrees id in
      let packet = Connect.Write.write_sync b in
      (
        bs,
        this,
        read,
        same,
        after_send rounds c p ack bs (send packet (store true) c.writer) live o none_yet readable
            byte given (send-Sends bs (length bs) true packet emits c.writer),
      )
