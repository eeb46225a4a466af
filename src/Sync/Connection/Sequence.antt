-- ===== src/Sync/Connection/Sequence.antt =====
-- Several packets on the stream, and as many calls of `recv`.
use mathlib.Core.Path.{subst}
use mcutt.Common.{ℕ, zero, suc, ◌≡◌, refl, sym, ◌∙◌, List, [], ◌∷◌, length, some}
use mcutt.Bytes.{Bytes, IoErrorKind, Result, ok}
use mcutt.Bytes.Io.{Write}
use mcutt.External.Zerocopy.{Zerocopy}
use mcutt.External.Bitflags.{Bitflags}
use mcutt.External.Memchr.{Memchr}
use mcutt.External.Mio.{Token, Poll, Timer}
use mcutt.Packets.Packet
use mcutt.Packets.Packet.{Packet}
use mcutt.Sync.Read.{Read, IsLive}
use mcutt.Sync.Reader
use mcutt.Sync.Reader.Stream.{stream}
use mcutt.Sync.Connection.{Connection, recv}
use mcutt.Sync.Connection.Open.{IsOpen}
use mcutt.Sync.Connection.Receives.{IsNext, recv-Receives}

-- So many polls in a row, with this poll, report the socket first.
abbrev pub ReportsSocket : {P : Type 0} → (P → Result (List Token) IoErrorKind × P) → ℕ → P → Type 0
ReportsSocket poll zero p = Unit {0}
ReportsSocket {P} poll (suc n) p =
    (ts : List Token) × (next : P) × (poll p ≡ (ok (Token.reader ∷ ts), next))
    × ReportsSocket poll n next

module _ ⦃z : Zerocopy⦄ ⦃f : Bitflags⦄ ⦃m : Memchr⦄ where
  -- The stream has the frames of these packets, one behind the other, and then `rest`. No frame can
  -- arrive together with bytes that follow it.
  abbrev pub HasFrames : List Packet → Bytes → Bytes → Type 0
  HasFrames [] rest given = given ≡ rest
  HasFrames (packet ∷ packets) rest given =
      (bs : Bytes) × (behind : Bytes) × IsNext bs behind given
      × (Packet.parse bs ≡ ok (packet, []))
      × HasFrames packets rest behind

module _ ⦃z : Zerocopy⦄ ⦃f : Bitflags⦄ ⦃m : Memchr⦄ {P F S : Type 0} ⦃polls : Poll P S F⦄
    ⦃timer : Timer F⦄ ⦃reads : Read S⦄ ⦃writer : Write S⦄ where
  -- Calls of `recv`, each of one round, that return these packets in this order.
  abbrev pub ReceivesAll : List Packet → Connection P F S → Connection P F S → Type 0
  ReceivesAll [] c last = c ≡ last
  ReceivesAll (packet ∷ packets) c last =
      (next : Connection P F S) × (recv 1 c ≡ some (ok packet, next))
      × ReceivesAll packets next last

  -- On an open connection whose socket does not fail while it has bytes: when the first event of each
  -- of the next polls is the socket, so that no tick comes before it, and the stream has the frames of
  -- a list of packets, each of which fits the buffer and cannot arrive together with what follows it,
  -- then as many calls of `recv`, of one round each, return exactly these packets in their order and
  -- send nothing, the connection stays open, and exactly the bytes behind the last packet are left.
  pub recv-ReceivesAll :
      (packets : List Packet) (c : Connection P F S) (rest : Bytes)
      → IsLive S
      → IsOpen c
      → ReportsSocket polls.poll (length packets) c.reader.poll
      → HasFrames packets rest (stream (Reader.consume c.reader.inner))
      → (last : Connection P F S) × ReceivesAll packets c last
        × IsOpen last
        × (stream (Reader.consume last.reader.inner) ≡ rest)
        × (last.writer ≡ c.writer)
  recv-ReceivesAll [] c rest live o readable frames = (c, refl, o, frames, refl)
  recv-ReceivesAll (packet ∷ packets) c rest live o (ts, p, polled, more)
        (bs, behind, next_one, parsed, frames) =
      let (next, received, still, left, silent, polled_next) =
        recv-Receives 0 c p bs behind packet live o (ts, polled) next_one parsed in
      let (last, all_received, last_open, last_left, last_silent) =
        recv-ReceivesAll packets next rest live still
          (subst (ReportsSocket polls.poll (length packets)) (sym polled_next) more)
          (subst (HasFrames packets rest) (sym left) frames) in
      (last, (next, received, all_received), last_open, last_left, last_silent ∙ silent)
