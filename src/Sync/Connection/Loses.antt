-- ===== src/Sync/Connection/Loses.antt =====
-- A short packet that arrives together with the next one is not received.
use mathlib.Core.Path.{subst}
use mcutt.Common.{
  ℕ, suc, ◌≤◌, ◌<◌, ◌≡◌, refl, sym, ap, ◌∙◌, [], ◌∷◌, ◌++◌, some, take, drop, length, length-drop,
  take_all, take-append_front, take-drop, arith,
}
use mcutt.Bytes.{Bytes, Error, error, invalid, ok, err}
use mcutt.Bytes.Try
use mcutt.Bytes.Try.{no_rest, ◌>>=◌}
use mcutt.Bytes.Io.{Write}
use mcutt.External.Zerocopy.{Zerocopy}
use mcutt.External.Bitflags.{Bitflags}
use mcutt.External.Memchr.{Memchr}
use mcutt.External.Mio.{Poll, Timer}
use mcutt.Fixed.Header
use mcutt.Packets.Packet
use mcutt.Packets.Packet.{Packet}
use mcutt.Sync.Read.{Read, IsGreedy}
use mcutt.Sync.Reader
use mcutt.Sync.Reader.{Reader, buff}
use mcutt.Sync.Reader.Window.{consume-IsSound}
use mcutt.Sync.Reader.Stream.{stream}
use mcutt.Sync.Reader.Whole.{Gives, Reads}
use mcutt.Sync.Reader.Sound.{read-Reads}
use mcutt.Sync.Reader.OverRead.{read-GivesFive}
use mcutt.Sync.Connection.{Connection, with_inner, with_poll, consumed, recv}
use mcutt.Sync.Connection.Open.{IsOpen}
use mcutt.Sync.Connection.Receives.{
  IsReadable, poll_event-Takes, frame-consume, found_length, drop-append_all,
}

-- The longer of two fronts of a list starts with the shorter.
longer_front :
    (w bs p q : Bytes) → w ++ p ≡ bs ++ q → length bs ≤ length w → w ≡ bs ++ drop (length bs) w
longer_front w bs p q e less =
    let n = length bs in
    let front : take n w ≡ bs =
      sym (take-append_front w p n less)
      ∙ (ap (take n) e ∙ (take-append_front bs q n (omega arith) ∙ take_all bs)) in
    sym (take-drop n w) ∙ ap (λ t. t ++ drop n w) front

no_rest-more :
    {A : Type 0} (a : A) (more : Bytes)
    → 0 < length more
    → no_rest (a, more) ≡ err (error invalid "remaining bytes in consumed packet")
no_rest-more a [] h = absurd (omega arith)
no_rest-more a (b ∷ bs) h = refl

abbrev refused : Error
refused = error invalid "remaining bytes in consumed packet"

-- A frame of less than five bytes at the front of at least five, with something behind it.
pub record IsShort (bs rest given : Bytes) : Type 0 where
  pub stream : given ≡ bs ++ rest
  pub frame : Header.next_frame (bs ++ rest) ≡ ok (some (length bs))
  pub short : length bs < 5
  pub arrived : 5 ≤ length (bs ++ rest)

module _ ⦃z : Zerocopy⦄ ⦃f : Bitflags⦄ ⦃m : Memchr⦄ where
  consume-refused :
      (bs w p q : Bytes) (packet : Packet)
      → w ++ p ≡ bs ++ q
      → length bs < length w
      → ((more : Bytes) → Packet.parse (bs ++ more) ≡ ok (packet, more))
      → Try.consume Packet.parse w ≡ err refused
  unfolding Try.consume
  consume-refused bs w p q packet e less parsed =
      let more = drop (length bs) w in
      ap (λ t. Packet.parse t >>= no_rest) (longer_front w bs p q e (omega (arith, less)))
      ∙ (ap (λ r. r >>= no_rest) (parsed more)
          ∙ no_rest-more packet more (omega (arith, less, length-drop (length bs) w)))

module _ ⦃z : Zerocopy⦄ ⦃f : Bitflags⦄ ⦃m : Memchr⦄ {P F S : Type 0} ⦃polls : Poll P S F⦄
    ⦃timer : Timer F⦄ ⦃reads : Read S⦄ ⦃writer : Write S⦄ where
  -- On an open connection that holds no bytes, over a socket that gives all that it has: when the first
  -- event of the next poll is the socket, and a packet of less than five bytes has arrived with bytes
  -- behind it, five in all or more, then `recv` refuses it for its remaining bytes, and the next call
  -- goes on behind it. The packet is lost, although `Packet::parse` reads it.
  pub recv-Loses :
      (rounds : ℕ) (c : Connection P F S) (p : P) (bs rest : Bytes) (packet : Packet)
      → IsGreedy S
      → IsOpen c
      → IsReadable c p
      → (Reader.consume c.reader.inner).filled ≡ (Reader.consume c.reader.inner).pos
      → IsShort bs rest (stream (Reader.consume c.reader.inner))
      → ((more : Bytes) → Packet.parse (bs ++ more) ≡ ok (packet, more))
      → (next : Connection P F S) × (recv (suc rounds) c
          ≡ some (err (error invalid "remaining bytes in consumed packet"), next))
        × (stream (Reader.consume next.reader.inner) ≡ rest)
  unfolding recv
  recv-Loses rounds c p bs rest packet greedy o readable empty h parsed =
      let inner = Reader.consume c.reader.inner in
      let sound = consume-IsSound c.reader.inner o.sound in
      let starts : Header.next_frame (stream inner) ≡ ok (some (length bs)) =
        ap Header.next_frame h.stream ∙ h.frame in
      let (w, taken, e, five) =
        read-GivesFive greedy (length bs) inner sound (frame-consume c.reader.inner) empty starts
          (omega (arith, h.short)) (omega (arith, ap length h.stream, h.arrived)) in
      let g : Gives inner taken w = subst (Reads inner) e (read-Reads inner sound) in
      let parts : w ++ reads.pending taken.inner ≡ bs ++ rest =
        ap (λ t. t ++ reads.pending taken.inner) g.window ∙ (g.kept ∙ h.stream) in
      let next = with_inner (with_poll c p) taken in
      (
        next,
        ap (consumed (Try.consume Packet.parse))
              (poll_event-Takes rounds (with_inner c inner) p w taken readable e)
            ∙ ap (λ r. some (r, next))
                (ap (Try.consume Packet.parse) (sym g.window)
                  ∙ consume-refused bs w (reads.pending taken.inner) rest packet parts
                      (omega (arith, h.short, five)) parsed),
        g.consumed
            ∙ (ap (λ n. drop n (stream inner)) (found_length (length bs) inner taken w g starts)
                ∙ (ap (drop (length bs)) h.stream ∙ drop-append_all bs rest)),
      )
