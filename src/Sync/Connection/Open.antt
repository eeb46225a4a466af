-- ===== src/Sync/Connection/Open.antt =====
-- The invariant of a connection, and that the poll loop keeps it.
use mathlib.Core.Path.{subst}
use mcutt.Common.{
  ℕ, zero, suc, ◌≡◌, refl, sym, ap, ◌∙◌, List, [], ◌∷◌, Option, some, Bool, Bool-cases, inl, inr,
  true, false, ◌==◌,
}
use mcutt.Bytes.{Bytes, IoErrorKind, Error, Result, ok, err}
use mcutt.Bytes.Io.{Write, Io, and_then}
use mcutt.External.Zerocopy.{Zerocopy}
use mcutt.External.Bitflags.{Bitflags}
use mcutt.External.Mio.{Token, Poll, Timer}
use mcutt.Sync.Read.{Read}
use mcutt.Sync.Reader
use mcutt.Sync.Reader.{Reader}
use mcutt.Sync.Reader.Window.{IsSound}
use mcutt.Sync.Reader.Whole.{Reads}
use mcutt.Sync.Reader.Sound.{read-Reads}
use mcutt.Sync.Reader.Capacity.{capacity, capacity-read}
use mcutt.Sync.Writer.{WriterHalf, handle_ping}
use mcutt.Sync.Connection.{
  Connection, with_timer, with_poll, on_writer, or_next, after_read, after_tick, event, for_events,
  after_poll, round, after_round, poll_event,
}

-- A sound reader with a buffer of 8 KiB.
pub record IsOpen {P F S : Type 0} (c : Connection P F S) : Type 0 where
  pub sound : IsSound c.reader.inner
  pub room : capacity c.reader.inner ≡ 8192

module _ {P F S : Type 0} where
  -- A call that does not touch the reader.
  pub same-IsOpen :
      (c next : Connection P F S) → next.reader.inner ≡ c.reader.inner → IsOpen c → IsOpen next
  same-IsOpen c next e o = record {
    sound = subst IsSound (sym e) o.sound;
    room = ap capacity e ∙ o.room;
  }

  pub and_then-IsOpen :
      {A B : Type 0} (r : Result A Error × Connection P F S)
      (k : A → Connection P F S → Result B Error × Connection P F S)
      → IsOpen r.1
      → ((a : A) (next : Connection P F S) → IsOpen next → IsOpen (k a next).1)
      → IsOpen (and_then r k).1
  and_then-IsOpen (ok a, next) k o h = h a next o
  and_then-IsOpen (err e, next) k o h = o

  pub on_writer-IsOpen :
      {A : Type 0} (c : Connection P F S) (r : Result A Error × WriterHalf S)
      → IsOpen c
      → IsOpen (on_writer c r).1
  on_writer-IsOpen c (a, w) o = same-IsOpen c (on_writer c (a, w)).1 refl o

  or_next-IsOpen :
      (more : Io (Connection P F S) Bool)
      → ((next : Connection P F S) → IsOpen next → IsOpen (more next).1)
      → (leave : Bool) (next : Connection P F S) → IsOpen next
      → IsOpen (or_next more leave next).1
  or_next-IsOpen more p true next o = o
  or_next-IsOpen more p false next o = p next o

  after_tick-IsOpen :
      (c : Connection P F S) (ping : Io (WriterHalf S) (Unit {0})) (r : Result ℕ IoErrorKind × F)
      → IsOpen c
      → IsOpen (after_tick c ping r).1
  after_tick-IsOpen c ping (err e, fd) o = same-IsOpen c (with_timer c fd) refl o
  after_tick-IsOpen c ping (ok n, fd) o = elim (Bool-cases (n == 8)) [
    | inr short ↦ rw short (same-IsOpen c (with_timer c fd) refl o)
    | inl whole ↦ rw whole (
        and_then-IsOpen (on_writer (with_timer c fd) (ping c.writer)) (λ u next. (ok false, next))
          (on_writer-IsOpen (with_timer c fd) (ping c.writer)
            (same-IsOpen c (with_timer c fd) refl o))
          (λ u next o'. o'))
  ]

module _ {S : Type 0} ⦃reads : Read S⦄ where
  pub Reads-IsSound :
      (this : Reader S) (r : Result Bytes Error × Reader S) → Reads this r → IsSound r.1
  Reads-IsSound this (err e, next) k = k
  Reads-IsSound this (ok bs, next) k = k.sound

module _ ⦃z : Zerocopy⦄ ⦃f : Bitflags⦄ {P F S : Type 0} ⦃polls : Poll P S F⦄ ⦃timer : Timer F⦄
    ⦃reads : Read S⦄ ⦃writer : Write S⦄ where
  after_read-IsOpen :
      (c : Connection P F S) (r : Result Bytes Error × Reader S)
      → IsSound r.1
      → capacity r.1 ≡ 8192
      → IsOpen (after_read c r).1
  after_read-IsOpen c (ok buf, inner) s k = record { sound = s; room = k }
  after_read-IsOpen c (err e, inner) s k = record { sound = s; room = k }

  event-IsOpen : (t : Token) (c : Connection P F S) → IsOpen c → IsOpen (event t c).1
  unfolding event
  event-IsOpen Token.reader c o =
      let inner = c.reader.inner in
      after_read-IsOpen c (Reader.read inner)
        (Reads-IsSound inner (Reader.read inner) (read-Reads inner o.sound))
        (capacity-read inner o.sound.window ∙ o.room)
  event-IsOpen Token.timer c o = after_tick-IsOpen c handle_ping (timer.read c.reader.timer_fd) o

  for_events-IsOpen :
      (ts : List Token) (c : Connection P F S) → IsOpen c → IsOpen (for_events ts c).1
  unfolding for_events
  for_events-IsOpen [] c o = o
  for_events-IsOpen (t ∷ ts) c o =
      and_then-IsOpen (event t c) _ (event-IsOpen t c o)
        (or_next-IsOpen (for_events ts) (for_events-IsOpen ts))

  after_poll-IsOpen :
      (c : Connection P F S) (r : Result (List Token) IoErrorKind × P)
      → IsOpen c
      → IsOpen (after_poll c r).1
  after_poll-IsOpen c (err e, p) o = same-IsOpen c (with_poll c p) refl o
  after_poll-IsOpen c (ok events, p) o =
      for_events-IsOpen events (with_poll c p) (same-IsOpen c (with_poll c p) refl o)

  round-IsOpen : (c : Connection P F S) → IsOpen c → IsOpen (round c).1
  unfolding round
  round-IsOpen c o = after_poll-IsOpen c (polls.poll c.reader.poll) o

  after_round-IsOpen :
      (r : Result Bool Error × Connection P F S)
      (more : Connection P F S → Option (Result Bytes Error × Connection P F S))
      (out : Result Bytes Error × Connection P F S)
      → IsOpen r.1
      → ((next : Connection P F S) → IsOpen next → more next ≡ some out → IsOpen out.1)
      → after_round more r ≡ some out
      → IsOpen out.1
  after_round-IsOpen (err e, next) more out o q h =
      let same : (err e, next) ≡ out = cc h in
      subst IsOpen (ap (λ (r : Result Bytes Error × Connection P F S). r.1) same) o
  after_round-IsOpen (ok true, next) more out o q h =
      let same : (ok (Reader.buff next.reader.inner), next) ≡ out = cc h in
      subst IsOpen (ap (λ (r : Result Bytes Error × Connection P F S). r.1) same) o
  after_round-IsOpen (ok false, next) more out o q h = q next o h

  pub poll_event-IsOpen :
      (rounds : ℕ) (c : Connection P F S) (out : Result Bytes Error × Connection P F S)
      → IsOpen c
      → poll_event rounds c ≡ some out
      → IsOpen out.1
  unfolding poll_event
  poll_event-IsOpen zero c out o h = cc h
  poll_event-IsOpen (suc rounds) c out o h =
      after_round-IsOpen (round c) (poll_event rounds) out (round-IsOpen c o)
        (λ next o'. poll_event-IsOpen rounds next out o') h
