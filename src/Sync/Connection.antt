-- ===== src/Sync/Connection.antt =====
-- `ReaderHalf` and `Connection` of src/sync.rs. Both halves share one `WriterHalf`, so that the state
-- of a connection has it once, and the methods of `ReaderHalf`, which send pings through it, are
-- actions on the connection. The vector of events is only a buffer, and is left out.
pub mod Create
pub mod Loses
pub mod Receives
pub mod Sequence
pub mod Handshake
pub mod Found
pub mod Exact
pub mod Opened
pub mod Reach
pub mod Open
pub mod Pings
use mcutt.Common.{
  ℕ, zero, suc, List, [], ◌∷◌, Option, none, some, Bool, true, false, ◌==◌, if◌then◌else◌,
}
use mcutt.Bytes.{
  Bytes, IoErrorKind, would_block, other, unexpected_eof, ErrorKind, std_io, invalid, out_of_range,
  Error, error, Result, ok, err,
}
use mcutt.Bytes.Try
use mcutt.Bytes.Io.{Write, Io, and_then, ◌>>=◌, ◌>>◌}
use mcutt.External.Zerocopy.{Zerocopy}
use mcutt.External.Bitflags.{Bitflags}
use mcutt.External.Memchr.{Memchr}
use mcutt.External.Mio.{Token, Poll, Timer}
use mcutt.Packets.ConnAck
use mcutt.Packets.ConnAck.{ConnAck}
use mcutt.Packets.Connect
use mcutt.Packets.Connect.Builder.{ConnectBuilder}
use mcutt.Packets.Packet
use mcutt.Packets.Packet.{Packet}
use mcutt.Packets.Publish.Builder.{PublishBuilder}
use mcutt.Packets.Subscribe.{SubscribeBuilder}
use mcutt.Packets.Unsubscribe.{UnsubscribeBuilder}
use mcutt.Sync.Read.{Read}
use mcutt.Sync.Reader
use mcutt.Sync.Reader.{Reader}
use mcutt.Sync.Writer
use mcutt.Sync.Writer.{WriterHalf, store, send}

pub record ReaderHalf (P F S : Type 0) : Type 0 where
  pub poll : P
  pub timer_fd : F
  pub inner : Reader S

pub record Connection (P F S : Type 0) : Type 0 where
  pub writer : WriterHalf S
  pub reader : ReaderHalf P F S

is_would_block : ErrorKind → Bool
is_would_block (std_io would_block) = true
is_would_block (std_io unexpected_eof) = false
is_would_block (std_io (other n)) = false
is_would_block out_of_range = false
is_would_block _ = false

-- The function `would_block`.
unfoldable pub blocks : Error → Bool
unfolding is_would_block
blocks e = is_would_block e.kind

module _ {P F S : Type 0} where
  -- A call on the writer, on the reader, and on the timer.
  abbrev pub on_writer :
      {A : Type 0}
      → Connection P F S
      → Result A Error × WriterHalf S
      → Result A Error × Connection P F S
  on_writer this (r, w) = (r, record this { writer = w })

  abbrev pub with_inner : Connection P F S → Reader S → Connection P F S
  with_inner this inner = record this { reader = record this.reader { inner = inner } }

  abbrev pub with_timer : Connection P F S → F → Connection P F S
  with_timer this fd = record this { reader = record this.reader { timer_fd = fd } }

  abbrev pub with_poll : Connection P F S → P → Connection P F S
  with_poll this p = record this { reader = record this.reader { poll = p } }

  -- The arms of a reader's event: the result says whether the loop is left.
  abbrev pub after_read :
      Connection P F S → Result Bytes Error × Reader S → Result Bool Error × Connection P F S
  after_read this (ok buf, inner) = (ok true, with_inner this inner)
  after_read this (err e, inner) = (if blocks e then ok false else err e, with_inner this inner)

  -- Leave the loop, or go on with `more`.
  abbrev pub or_next : Io (Connection P F S) Bool → Bool → Io (Connection P F S) Bool
  or_next more true this = (ok true, this)
  or_next more false this = more this

  -- A tick is read in full, or it is an error.
  abbrev pub after_tick :
      Connection P F S
      → Io (WriterHalf S) (Unit {0})
      → Result ℕ IoErrorKind × F
      → Result Bool Error × Connection P F S
  after_tick this ping (err e, fd) = (err (error invalid "read"), with_timer this fd)
  after_tick this ping (ok n, fd) =
      let this' = with_timer this fd in
      if n == 8
      then and_then (on_writer this' (ping this'.writer)) (λ u next. (ok false, next))
      else (err (error invalid "read"), this')

module _ ⦃z : Zerocopy⦄ ⦃f : Bitflags⦄ {P F S : Type 0} ⦃polls : Poll P S F⦄ ⦃timer : Timer F⦄
    ⦃reads : Read S⦄ ⦃writer : Write S⦄ where
  -- The match on the token of an event.
  unfoldable pub event : Token → Io (Connection P F S) Bool
  event Token.reader this = after_read this (Reader.read this.reader.inner)
  event Token.timer this = after_tick this Writer.handle_ping (timer.read this.reader.timer_fd)

  -- `for event in self.events.iter()`, up to the first one that leaves the loop: the events behind it
  -- are not looked at.
  unfoldable pub for_events : List Token → Io (Connection P F S) Bool
  unfolding event
  for_events [] this = (ok false, this)
  for_events (t ∷ ts) this = and_then (event t this) (or_next (for_events ts))

  abbrev pub after_poll :
      Connection P F S → Result (List Token) IoErrorKind × P → Result Bool Error × Connection P F S
  after_poll this (err e, p) = (err (error (std_io e) "while polling"), with_poll this p)
  after_poll this (ok events, p) = for_events events (with_poll this p)

  -- One round of the loop.
  unfoldable pub round : Io (Connection P F S) Bool
  unfolding for_events
  round this = after_poll this (polls.poll this.reader.poll)

  -- What the loop does after a round: `more` are the next rounds.
  abbrev pub after_round :
      (Connection P F S → Option (Result Bytes Error × Connection P F S))
      → Result Bool Error × Connection P F S
      → Option (Result Bytes Error × Connection P F S)
  after_round more (err e, next) = some (err e, next)
  after_round more (ok true, next) = some (ok (Reader.buff next.reader.inner), next)
  after_round more (ok false, next) = more next

  -- `poll_event`, for this many rounds; `none` means that it still waits.
  unfoldable pub poll_event : ℕ → Connection P F S → Option (Result Bytes Error × Connection P F S)
  unfolding round
  poll_event zero this = none
  poll_event (suc rounds) this = after_round (poll_event rounds) (round this)

-- What is done with the bytes of an event that came: `?` and the parser.
abbrev pub consumed :
    {A C : Type 0}
    → (Bytes → Result A Error)
    → Option (Result Bytes Error × C)
    → Option (Result A Error × C)
consumed read none = none
consumed read (some (err e, next)) = some (err e, next)
consumed read (some (ok buf, next)) = some (read buf, next)

module _ ⦃z : Zerocopy⦄ ⦃f : Bitflags⦄ ⦃m : Memchr⦄ {P F S : Type 0} ⦃polls : Poll P S F⦄
    ⦃timer : Timer F⦄ ⦃reads : Read S⦄ ⦃writer : Write S⦄ where
  -- `Receiver::recv`.
  unfoldable pub recv : ℕ → Connection P F S → Option (Result Packet Error × Connection P F S)
  unfolding poll_event
  recv rounds this =
      consumed (Try.consume Packet.parse)
        (poll_event rounds (with_inner this (Reader.consume this.reader.inner)))

  -- What `connect` does after it has sent the packet.
  abbrev pub wait_conn_ack :
      ℕ
      → Result (Unit {0}) Error × Connection P F S
      → Option (Result ConnAck Error × Connection P F S)
  wait_conn_ack rounds (err e, next) = some (err e, next)
  wait_conn_ack rounds (ok u, next) = consumed (Try.consume ConnAck.parse) (poll_event rounds next)

  unfoldable pub connect :
      ConnectBuilder → ℕ → Connection P F S → Option (Result ConnAck Error × Connection P F S)
  unfolding poll_event
  connect packet rounds this =
      wait_conn_ack rounds
        (on_writer this (send (Connect.Write.write_sync packet) (store true) this.writer))

  -- `Sender` for a connection: the calls of its writer.
  unfoldable pub publish : PublishBuilder → Io (Connection P F S) (Unit {0})
  publish packet this = on_writer this (Writer.publish packet this.writer)

  unfoldable pub subscribe : SubscribeBuilder → Io (Connection P F S) (Unit {0})
  subscribe packet this = on_writer this (Writer.subscribe packet this.writer)

  unfoldable pub unsubscribe : UnsubscribeBuilder → Io (Connection P F S) (Unit {0})
  unsubscribe packet this = on_writer this (Writer.unsubscribe packet this.writer)

  unfoldable pub disconnect : Io (Connection P F S) (Unit {0})
  disconnect this = on_writer this (Writer.disconnect this.writer)
