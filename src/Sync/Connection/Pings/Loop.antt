-- ===== src/Sync/Connection/Pings/Loop.antt =====
-- What the poll loop puts on the socket: pings, and nothing else.
use mathlib.Core.Path.{subst}
use mcutt.Common.{
  ℕ, zero, suc, ◌≡◌, refl, sym, ap, ◌∙◌, ◌⊎◌, inl, inr, List, [], ◌∷◌, ◌++◌, append-nil, Option,
  some, Bool, Bool-cases, true, false, ◌==◌,
}
use mcutt.Bytes.{Bytes, IoErrorKind, Error, Result, ok, err}
use mcutt.Bytes.Io.{Write, Io, and_then}
use mcutt.External.Zerocopy.{Zerocopy}
use mcutt.External.Bitflags.{Bitflags}
use mcutt.External.Mio.{Token, Poll, Timer}
use mcutt.Packets.PingReq
use mcutt.Sync.Read.{Read}
use mcutt.Sync.Reader
use mcutt.Sync.Reader.{Reader}
use mcutt.Sync.Writer.{WriterHalf, handle_ping, store, send}
use mcutt.Sync.Writer.Sends.{Done, Failed, send-Sends, handle_ping-if}
use mcutt.Sync.Connection.{
  Connection, on_writer, or_next, with_timer, with_poll, after_read, after_tick, event, for_events,
  after_poll, round, after_round, poll_event,
}
use mcutt.Sync.Connection.Pings.{ping, Pings, Pings-none, Pings-then, Pings-result, Pings-err}

module _ ⦃f : Bitflags⦄ {S : Type 0} ⦃writer : Write S⦄ where
  abbrev WriterPings : WriterHalf S → Result (Unit {0}) Error × WriterHalf S → Type 0
  WriterPings w r = Pings (writer.contents w.inner) (writer.contents r.1.inner) r.0

  sent-Pings :
      (w : WriterHalf S) (r : Result (Unit {0}) Error × WriterHalf S)
      → Done ping false w r ⊎ Failed ping w r
      → WriterPings w r
  sent-Pings w r (inl (h, wrote, flag)) = record {
    count = 1;
    front = [];
    back = ping;
    splits = refl;
    wrote =
        wrote
        ∙ ap (λ t. writer.contents w.inner ++ t)
            (sym (append-nil ping) ∙ sym (append-nil (ping ++ [])));
    whole = λ a e. refl;
  }
  sent-Pings w r (inr b) = record {
    count = 0;
    front = b.front;
    back = b.back;
    splits = b.splits;
    wrote = b.wrote;
    whole = λ a e. absurd (cc (b.failed, e));
  }

module _ ⦃z : Zerocopy⦄ ⦃f : Bitflags⦄ {S : Type 0} ⦃writer : Write S⦄ where
  handle_ping-Pings : (w : WriterHalf S) → WriterPings w (handle_ping w)
  handle_ping-Pings w = elim (Bool-cases w.sent_flag) [
    | inl set ↦
        subst (WriterPings w) (sym (handle_ping-if w true set))
          (Pings-none (writer.contents w.inner) (ok tt))
    | inr clear ↦ subst (WriterPings w) (sym (handle_ping-if w false clear)) (
        sent-Pings w (send PingReq.Write.write_sync (store false) w)
          (send-Sends ping 2 false PingReq.Write.write_sync PingReq.Write.write_sync-Emits w))
  ]

module _ ⦃z : Zerocopy⦄ ⦃f : Bitflags⦄ {P F S : Type 0} ⦃polls : Poll P S F⦄ ⦃timer : Timer F⦄
    ⦃reads : Read S⦄ ⦃writer : Write S⦄ where
  -- A call on a connection that puts pings on the socket.
  abbrev pub sent_by : Connection P F S → Bytes
  sent_by c = writer.contents c.writer.inner

  abbrev pub PingsOnly :
      {A : Type 0} → Connection P F S → Result A Error × Connection P F S → Type 0
  PingsOnly c r = Pings (sent_by c) (sent_by r.1) r.0

  after_read-PingsOnly :
      (c : Connection P F S) (r : Result Bytes Error × Reader S) → PingsOnly c (after_read c r)
  after_read-PingsOnly c (ok buf, inner) = Pings-none (sent_by c) (ok true)
  after_read-PingsOnly c (err e, inner) = Pings-none (sent_by c) (after_read c (err e, inner)).0

  and_then-PingsOnly :
      {A B : Type 0} (c : Connection P F S) (r : Result A Error × Connection P F S)
      (k : A → Connection P F S → Result B Error × Connection P F S)
      → PingsOnly c r
      → ((a : A) (next : Connection P F S) → PingsOnly next (k a next))
      → PingsOnly c (and_then r k)
  and_then-PingsOnly c (ok a, next) k p q = Pings-then (sent_by c) (sent_by next) _ a _ p (q a next)
  and_then-PingsOnly c (err e, next) k p q = Pings-err (sent_by c) (sent_by next) e p

  on_writer-PingsOnly :
      (c : Connection P F S) (r : Result (Unit {0}) Error × WriterHalf S)
      → Pings (sent_by c) (writer.contents r.1.inner) r.0
      → PingsOnly c (on_writer c r)
  on_writer-PingsOnly c (a, w) p = p

  after_tick-PingsOnly :
      (c : Connection P F S) (r : Result ℕ IoErrorKind × F)
      → PingsOnly c (after_tick c handle_ping r)
  after_tick-PingsOnly c (err e, fd) = Pings-none (sent_by c) _
  after_tick-PingsOnly c (ok n, fd) = elim (Bool-cases (n == 8)) [
    | inr short ↦ rw short (Pings-none (sent_by c) _)
    | inl whole ↦ rw whole (
        and_then-PingsOnly c (on_writer (with_timer c fd) (handle_ping c.writer))
          (λ u next. (ok false, next))
          (on_writer-PingsOnly (with_timer c fd) (handle_ping c.writer)
            (handle_ping-Pings c.writer))
          (λ u next. Pings-none (sent_by next) (ok false)))
  ]

  event-PingsOnly : (t : Token) (c : Connection P F S) → PingsOnly c (event t c)
  unfolding event
  event-PingsOnly Token.reader c = after_read-PingsOnly c (Reader.read c.reader.inner)
  event-PingsOnly Token.timer c = after_tick-PingsOnly c (timer.read c.reader.timer_fd)

  or_next-PingsOnly :
      (more : Io (Connection P F S) Bool)
      → ((next : Connection P F S) → PingsOnly next (more next))
      → (leave : Bool) (next : Connection P F S) → PingsOnly next (or_next more leave next)
  or_next-PingsOnly more p true next = Pings-none (sent_by next) (ok true)
  or_next-PingsOnly more p false next = p next

  for_events-PingsOnly : (ts : List Token) (c : Connection P F S) → PingsOnly c (for_events ts c)
  unfolding for_events
  for_events-PingsOnly [] c = Pings-none (sent_by c) (ok false)
  for_events-PingsOnly (t ∷ ts) c =
      and_then-PingsOnly c (event t c) _ (event-PingsOnly t c)
        (or_next-PingsOnly (for_events ts) (for_events-PingsOnly ts))

  after_poll-PingsOnly :
      (c : Connection P F S) (r : Result (List Token) IoErrorKind × P)
      → PingsOnly c (after_poll c r)
  after_poll-PingsOnly c (err e, p) = Pings-none (sent_by c) _
  after_poll-PingsOnly c (ok events, p) = for_events-PingsOnly events (with_poll c p)

  round-PingsOnly : (c : Connection P F S) → PingsOnly c (round c)
  unfolding round
  round-PingsOnly c = after_poll-PingsOnly c (polls.poll c.reader.poll)

  after_round-PingsOnly :
      (c : Connection P F S) (r : Result Bool Error × Connection P F S)
      (more : Connection P F S → Option (Result Bytes Error × Connection P F S))
      (out : Result Bytes Error × Connection P F S)
      → PingsOnly c r
      → ((next : Connection P F S) → more next ≡ some out → PingsOnly next out)
      → after_round more r ≡ some out
      → PingsOnly c out
  after_round-PingsOnly c (err e, next) more out p q h =
      let same : (err e, next) ≡ out = cc h in
      subst (PingsOnly c) same (Pings-err (sent_by c) (sent_by next) e p)
  after_round-PingsOnly c (ok true, next) more out p q h =
      let same : (ok (Reader.buff next.reader.inner), next) ≡ out = cc h in
      subst (PingsOnly c) same (Pings-result (sent_by c) (sent_by next) true _ p)
  after_round-PingsOnly c (ok false, next) more out p q h =
      Pings-then (sent_by c) (sent_by next) (sent_by out.1) false out.0 p (q next h)

  -- However many rounds, whatever the poll reports in whatever order and whatever the socket gives:
  -- when `poll_event` comes back it has put a number of whole PINGREQs on the socket, and at the end
  -- a part of one more only if it failed.
  pub poll_event-PingsOnly :
      (rounds : ℕ) (c : Connection P F S) (out : Result Bytes Error × Connection P F S)
      → poll_event rounds c ≡ some out
      → PingsOnly c out
  unfolding poll_event
  poll_event-PingsOnly zero c out h = cc h
  poll_event-PingsOnly (suc rounds) c out h =
      after_round-PingsOnly c (round c) (poll_event rounds) out (round-PingsOnly c)
        (λ next. poll_event-PingsOnly rounds next out) h
