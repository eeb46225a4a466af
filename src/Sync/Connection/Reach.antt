-- ===== src/Sync/Connection/Reach.antt =====
-- Every connection that the calls of the library can reach, in any order.
use mathlib.Core.Path.{subst}
use mcutt.Common.{ℕ, ◌≡◌, refl, ◌∙◌, List, Option, none, some, true}
use mcutt.Bytes.{Bytes, Error, Result, ok, err}
use mcutt.Bytes.Try
use mcutt.Bytes.Try.{bind-ok, ok_or-eq-ok}
use mcutt.Bytes.Io.{Write}
use mcutt.External.Zerocopy.{Zerocopy}
use mcutt.External.Bitflags.{Bitflags}
use mcutt.External.Memchr.{Memchr}
use mcutt.External.Mio.{Poll, Timer, Net}
use mcutt.Packets.Connect.Builder.{ConnectBuilder}
use mcutt.Packets.ConnAck.{ConnAck}
use mcutt.Packets.ConnAck
use mcutt.Packets.Packet
use mcutt.Packets.Packet.{Packet}
use mcutt.Packets.Publish.Builder.{PublishBuilder}
use mcutt.Packets.Subscribe.{SubscribeBuilder}
use mcutt.Packets.Unsubscribe.{UnsubscribeBuilder}
use mcutt.Sync.Read.{Read}
use mcutt.Sync.Reader
use mcutt.Sync.Reader.Window.{consume-IsSound}
use mcutt.Sync.Reader.Capacity.{capacity-consume}
use mcutt.Sync.Writer.{send, store}
use mcutt.Packets.Connect
use mcutt.Sync.Connection.{
  Connection, with_inner, on_writer, consumed, wait_conn_ack, recv, connect, publish, subscribe,
  unsubscribe, disconnect, poll_event,
}
use mcutt.Sync.Connection.Create.{create}
use mcutt.Sync.Connection.Opened.{create-Opens, Opens-IsOpen}
use mcutt.Sync.Connection.Open.{IsOpen, same-IsOpen, on_writer-IsOpen, poll_event-IsOpen}

module _ ⦃z : Zerocopy⦄ ⦃f : Bitflags⦄ ⦃m : Memchr⦄ {P F S : Type 0} ⦃polls : Poll P S F⦄
    ⦃timer : Timer F⦄ ⦃reads : Read S⦄ ⦃writer : Write S⦄ where
  -- A call of a connection, with whatever it returned. `connect` and `recv` may take any number of
  -- rounds of the poll loop, in which pings are sent.
  pub data Step (c : Connection P F S) : Connection P F S → Type 0 where
    connects :
        (packet : ConnectBuilder) (rounds : ℕ) {next : Connection P F S} {r : Result ConnAck Error}
        → connect packet rounds c ≡ some (r, next)
        → Step c next
    publishes : (packet : PublishBuilder) → Step c (publish packet c).1
    subscribes : (packet : SubscribeBuilder) → Step c (subscribe packet c).1
    unsubscribes : (packet : UnsubscribeBuilder) → Step c (unsubscribe packet c).1
    disconnects : Step c (disconnect c).1
    receives :
        (rounds : ℕ) {next : Connection P F S} {r : Result Packet Error}
        → recv rounds c ≡ some (r, next)
        → Step c next

  consumed-IsOpen :
      {A : Type 0} (read : Bytes → Result A Error)
      (o : Option (Result Bytes Error × Connection P F S)) (r : Result A Error)
      (next : Connection P F S)
      → ((out : Result Bytes Error × Connection P F S) → o ≡ some out → IsOpen out.1)
      → consumed read o ≡ some (r, next)
      → IsOpen next
  consumed-IsOpen read none r next p h = cc h
  consumed-IsOpen read (some (ok buf, last)) r next p h =
      let same : last ≡ next = cc h in subst IsOpen same (p (ok buf, last) refl)
  consumed-IsOpen read (some (err e, last)) r next p h =
      let same : last ≡ next = cc h in subst IsOpen same (p (err e, last) refl)

  wait_conn_ack-IsOpen :
      (rounds : ℕ) (s : Result (Unit {0}) Error × Connection P F S) (r : Result ConnAck Error)
      (next : Connection P F S)
      → IsOpen s.1
      → wait_conn_ack rounds s ≡ some (r, next)
      → IsOpen next
  wait_conn_ack-IsOpen rounds (err e, last) r next o h =
      let same : last ≡ next = cc h in subst IsOpen same o
  wait_conn_ack-IsOpen rounds (ok u, last) r next o h =
      consumed-IsOpen (Try.consume ConnAck.parse) (poll_event rounds last) r next
        (λ out e. poll_event-IsOpen rounds last out o e) h

  consume-IsOpen :
      (c : Connection P F S) → IsOpen c → IsOpen (with_inner c (Reader.consume c.reader.inner))
  consume-IsOpen c o = record {
    sound = consume-IsSound c.reader.inner o.sound;
    room = capacity-consume c.reader.inner ∙ o.room;
  }

  -- Every call keeps the invariant, also one that fails.
  pub Step-IsOpen : {c next : Connection P F S} → IsOpen c → Step c next → IsOpen next
  unfolding connect publish subscribe unsubscribe disconnect recv
  Step-IsOpen {c} o (connects packet rounds {next} {r} h) =
      wait_conn_ack-IsOpen rounds
        (on_writer c (send (Connect.Write.write_sync packet) (store true) c.writer)) r next
        (on_writer-IsOpen c (send (Connect.Write.write_sync packet) (store true) c.writer) o) h
  Step-IsOpen {c} o (publishes packet) = same-IsOpen c (publish packet c).1 refl o
  Step-IsOpen {c} o (subscribes packet) = same-IsOpen c (subscribe packet c).1 refl o
  Step-IsOpen {c} o (unsubscribes packet) = same-IsOpen c (unsubscribe packet c).1 refl o
  Step-IsOpen {c} o disconnects = same-IsOpen c (disconnect c).1 refl o
  Step-IsOpen {c} o (receives rounds {next} {r} h) =
      consumed-IsOpen (Try.consume Packet.parse) _ r next
        (λ out e. poll_event-IsOpen rounds _ out (consume-IsOpen c o) e) h

module _ ⦃z : Zerocopy⦄ ⦃f : Bitflags⦄ ⦃m : Memchr⦄ {A P F S : Type 0} ⦃net : Net A S⦄
    ⦃polls : Poll P S F⦄ ⦃timer : Timer F⦄ ⦃reads : Read S⦄ ⦃writer : Write S⦄ where
  -- From `create`, through any sequence of calls.
  pub data Reach (list : List A) (timeout : ℕ) : Connection P F S → Type 0 where
    created : {c : Connection P F S} → create (ok list) timeout ≡ ok c → Reach list timeout c
    later :
        {c next : Connection P F S} → Reach list timeout c → Step c next → Reach list timeout next

  -- Whatever the network, the poll and the timer do, and whichever calls are made in whatever order,
  -- failed ones included: the reader of the connection is sound, and its buffer has 8 KiB. Without a
  -- frame a sound reader holds less than five bytes, as `next_frame` asserts, or bytes that are refused
  -- as a header; of these there may be five, and then that assertion fails in a debug build.
  pub Reach-IsOpen :
      (list : List A) (timeout : ℕ) {c : Connection P F S} → Reach list timeout c → IsOpen c
  Reach-IsOpen list timeout (created {c} h) =
      Opens-IsOpen list timeout c (create-Opens list timeout c h)
  Reach-IsOpen list timeout (later r st) = Step-IsOpen (Reach-IsOpen list timeout r) st
