-- ===== src/Sync/Connection/Found.antt =====
-- Where the bytes that `poll_event` gives come from: from one `read` that succeeds, when the socket is
-- reported, behind some that would block.
use mathlib.Core.Path.{subst}
use mcutt.Common.{
  ℕ, zero, suc, ◌≡◌, refl, sym, ap, ◌∙◌, inl, inr, List, [], ◌∷◌, Option, some, Bool, Bool-cases,
  true, false, ◌==◌,
}
use mcutt.Bytes.{Bytes, IoErrorKind, Error, Result, ok, err}
use mcutt.Bytes.Io.{Write, Io, and_then}
use mcutt.External.Zerocopy.{Zerocopy}
use mcutt.External.Bitflags.{Bitflags}
use mcutt.External.Mio.{Token, Poll, Timer}
use mcutt.Sync.Read.{Read}
use mcutt.Sync.Reader
use mcutt.Sync.Reader.{Reader, buff}
use mcutt.Sync.Reader.Window.{IsSound}
use mcutt.Sync.Reader.Sound.{read-Reads}
use mcutt.Sync.Writer.{WriterHalf, handle_ping}
use mcutt.Sync.Connection.{
  Connection, blocks, with_timer, with_poll, on_writer, or_next, after_read, after_tick, event,
  for_events, after_poll, round, after_round, poll_event,
}
use mcutt.Sync.Connection.Open.{Reads-IsSound}

module _ {S : Type 0} ⦃reads : Read S⦄ where
  -- Reads that would block, one after the other.
  pub data Retries : Reader S → Reader S → Type 0 where
    here : {this : Reader S} → Retries this this
    again :
        {this next last : Reader S} (e : Error)
        → Reader.read this ≡ (err e, next)
        → blocks e ≡ true
        → Retries next last
        → Retries this last

  pub Retries-trans : {a b c : Reader S} → Retries a b → Retries b c → Retries a c
  Retries-trans here q = q
  Retries-trans (again e r b p) q = again e r b (Retries-trans p q)

  pub Retries-IsSound : {a b : Reader S} → Retries a b → IsSound a → IsSound b
  Retries-IsSound here s = s
  Retries-IsSound (again {this} {next} e r b p) s = Retries-IsSound p (
      subst IsSound (ap (λ (x : Result Bytes Error × Reader S). x.1) r)
        (Reads-IsSound this (Reader.read this) (read-Reads this s)))

  -- The read that succeeds.
  pub record Found (this next : Reader S) : Type 0 where
    pub before : Reader S
    pub bytes : Bytes
    pub tried : Retries this before
    pub given : Reader.read before ≡ (ok bytes, next)

  Found-after : {a b next : Reader S} → Retries a b → Found b next → Found a next
  Found-after p q = record {
    before = q.before;
    bytes = q.bytes;
    tried = Retries-trans p q.tried;
    given = q.given;
  }

module _ {P F S : Type 0} ⦃reads : Read S⦄ where
  -- What has become of the reader, by the result: the loop is left with bytes, or goes on.
  abbrev Outcome : Connection P F S → Result Bool Error × Connection P F S → Type 0
  Outcome c (err e, next) = Unit {0}
  Outcome c (ok true, next) = Found c.reader.inner next.reader.inner
  Outcome c (ok false, next) = Retries c.reader.inner next.reader.inner

  Outcome-after :
      (c next : Connection P F S) (r : Result Bool Error × Connection P F S)
      → Retries c.reader.inner next.reader.inner
      → Outcome next r
      → Outcome c r
  Outcome-after c next (err e, last) p o = tt
  Outcome-after c next (ok true, last) p o = Found-after p o
  Outcome-after c next (ok false, last) p o = Retries-trans p o

  after_read-Outcome :
      (c : Connection P F S) (r : Result Bytes Error × Reader S)
      → Reader.read c.reader.inner ≡ r
      → Outcome c (after_read c r)
  after_read-Outcome c (ok bytes, inner) e = record {
    before = c.reader.inner;
    bytes = bytes;
    tried = here;
    given = e;
  }
  after_read-Outcome c (err x, inner) e = elim (Bool-cases (blocks x)) [
    | inl b ↦ rw b (again x e b here)
    | inr b ↦ rw b tt
  ]

  ticked-Outcome :
      (c : Connection P F S) (r : Result (Unit {0}) Error × WriterHalf S)
      → Outcome c (and_then (on_writer c r) (λ u next. (ok false, next)))
  ticked-Outcome c (ok u, w) = here
  ticked-Outcome c (err e, w) = tt

  after_tick-Outcome :
      (c : Connection P F S) (ping : Io (WriterHalf S) (Unit {0})) (r : Result ℕ IoErrorKind × F)
      → Outcome c (after_tick c ping r)
  after_tick-Outcome c ping (err e, fd) = tt
  after_tick-Outcome c ping (ok n, fd) = elim (Bool-cases (n == 8)) [
    | inl whole ↦ rw whole (ticked-Outcome (with_timer c fd) (ping c.writer))
    | inr short ↦ rw short tt
  ]

  or_next-Outcome :
      (c : Connection P F S) (r : Result Bool Error × Connection P F S)
      (more : Io (Connection P F S) Bool)
      → Outcome c r
      → ((next : Connection P F S) → Outcome next (more next))
      → Outcome c (and_then r (or_next more))
  or_next-Outcome c (err e, next) more o q = tt
  or_next-Outcome c (ok true, next) more o q = o
  or_next-Outcome c (ok false, next) more o q = Outcome-after c next (more next) o (q next)

module _ ⦃z : Zerocopy⦄ ⦃f : Bitflags⦄ {P F S : Type 0} ⦃polls : Poll P S F⦄ ⦃timer : Timer F⦄
    ⦃reads : Read S⦄ ⦃writer : Write S⦄ where
  event-Outcome : (t : Token) (c : Connection P F S) → Outcome c (event t c)
  unfolding event
  event-Outcome Token.reader c = after_read-Outcome c (Reader.read c.reader.inner) refl
  event-Outcome Token.timer c = after_tick-Outcome c handle_ping (timer.read c.reader.timer_fd)

  for_events-Outcome : (ts : List Token) (c : Connection P F S) → Outcome c (for_events ts c)
  unfolding for_events
  for_events-Outcome [] c = here
  for_events-Outcome (t ∷ ts) c =
      or_next-Outcome c (event t c) (for_events ts) (event-Outcome t c) (for_events-Outcome ts)

  after_poll-Outcome :
      (c : Connection P F S) (r : Result (List Token) IoErrorKind × P) → Outcome c (after_poll c r)
  after_poll-Outcome c (err e, p) = tt
  after_poll-Outcome c (ok events, p) = for_events-Outcome events (with_poll c p)

  round-Outcome : (c : Connection P F S) → Outcome c (round c)
  unfolding round
  round-Outcome c = after_poll-Outcome c (polls.poll c.reader.poll)

  after_round-Found :
      (c : Connection P F S) (r : Result Bool Error × Connection P F S)
      (more : Connection P F S → Option (Result Bytes Error × Connection P F S)) (buf : Bytes)
      (last : Connection P F S)
      → Outcome c r
      → ((next : Connection P F S)
          → more next ≡ some (ok buf, last)
          → Found next.reader.inner last.reader.inner × (buf ≡ buff last.reader.inner))
      → after_round more r ≡ some (ok buf, last)
      → Found c.reader.inner last.reader.inner × (buf ≡ buff last.reader.inner)
  after_round-Found c (err e, next) more buf last o q h = cc h
  after_round-Found c (ok true, next) more buf last o q h =
      let same : next ≡ last = cc h in
      let bytes : buff next.reader.inner ≡ buf = cc h in
      (
        subst (λ (x : Connection P F S). Found c.reader.inner x.reader.inner) same o,
        sym bytes ∙ ap (λ (x : Connection P F S). buff x.reader.inner) same,
      )
  after_round-Found c (ok false, next) more buf last o q h =
      let (found, bytes) = q next h in (Found-after o found, bytes)

  -- Whatever the poll reports: the bytes that `poll_event` gives are in the window of the reader that
  -- a `read` that succeeds has left.
  pub poll_event-Found :
      (rounds : ℕ) (c : Connection P F S) (buf : Bytes) (last : Connection P F S)
      → poll_event rounds c ≡ some (ok buf, last)
      → Found c.reader.inner last.reader.inner × (buf ≡ buff last.reader.inner)
  unfolding poll_event
  poll_event-Found zero c buf last h = cc h
  poll_event-Found (suc rounds) c buf last h =
      after_round-Found c (round c) (poll_event rounds) buf last (round-Outcome c)
        (λ next. poll_event-Found rounds next buf last) h
