-- ===== src/Sync/Connection/Receives.antt =====
-- `recv` and the frames of the stream: a packet that has arrived is received, and the next call goes
-- on behind it.
use mcutt.Common.{
  ℕ, suc, ◌≤◌, ◌≡◌, refl, sym, ap, ◌∙◌, ◌⊎◌, inl, inr, List, [], ◌∷◌, ◌++◌, append_assoc, Option,
  none, some, take, drop, length, length-append, take_all, take-append_front, arith,
}
use mcutt.Bytes.{Bytes, Error, Result, ok}
use mcutt.Bytes.Try
use mcutt.Bytes.Io.{Write, and_then}
use mcutt.External.Zerocopy.{Zerocopy}
use mcutt.External.Bitflags.{Bitflags}
use mcutt.External.Memchr.{Memchr}
use mcutt.External.Mio.{Token, Poll, Timer}
use mcutt.Fixed.Header
use mcutt.Fixed.Header.Prefix.{next_frame-append}
use mcutt.Packets.Packet
use mcutt.Packets.Packet.{Packet}
use mcutt.Sync.Read.{Read, IsLive}
use mcutt.Sync.Reader
use mcutt.Sync.Reader.{Reader, buff, consume_frame}
use mcutt.Sync.Reader.Window.{IsSound, consume-IsSound}
use mcutt.Sync.Reader.Stream.{stream}
use mcutt.Sync.Reader.Capacity.{capacity, capacity-consume, capacity-read}
use mcutt.Sync.Reader.Whole.{Gives}
use mcutt.Sync.Reader.Progress.{Arrives, read-Arrives}
use mcutt.Sync.Connection.{
  Connection, with_inner, with_poll, consumed, recv, poll_event, round, for_events, event,
  after_poll, after_read, after_round, or_next,
}
use mcutt.Sync.Connection.Open.{IsOpen}

-- Two ways to cut a list, at the same place.
same_front : (w bs : Bytes) (p rest : Bytes) → w ++ p ≡ bs ++ rest → length w ≡ length bs → w ≡ bs
same_front w bs p rest e same =
    let cut = λ (xs ys : Bytes). take-append_front xs ys (length xs) (omega arith) ∙ take_all xs in
    sym (cut w p) ∙ (ap (take (length w)) e ∙ (ap (λ n. take n (bs ++ rest)) same ∙ cut bs rest))

pub drop-append_all : (bs rest : Bytes) → drop (length bs) (bs ++ rest) ≡ rest
drop-append_all [] rest = refl
drop-append_all (b ∷ bs) rest = drop-append_all bs rest

consume_frame-none :
    {R : Type 0} (o : Option ℕ) (this : Reader R)
    → this.frame ≡ o
    → (consume_frame o this).frame ≡ none
consume_frame-none none this e = e
consume_frame-none (some n) this e = refl

pub frame-consume : {R : Type 0} (this : Reader R) → (Reader.consume this).frame ≡ none
unfolding Reader.consume
frame-consume this = consume_frame-none this.frame this refl

-- The frame `bs` stands at the front of the stream, fits the buffer, and nothing of what follows it
-- can arrive with it: it has five bytes or more, or nothing follows.
pub record IsNext (bs rest given : Bytes) : Type 0 where
  pub stream : given ≡ bs ++ rest
  pub frame : Header.next_frame (bs ++ rest) ≡ ok (some (length bs))
  pub fits : length bs ≤ 8192
  pub alone : (5 ≤ length bs) ⊎ (rest ≡ [])

-- What arrives with the frame is the frame.
alone-length :
    (bs rest w more : Bytes)
    → w ++ more ≡ bs ++ rest
    → length bs ≤ length w
    → (length w ≡ length bs) ⊎ (length w ≤ 5)
    → (5 ≤ length bs) ⊎ (rest ≡ [])
    → length w ≡ length bs
alone-length bs rest w more e whole (inl same) a = same
alone-length bs rest w more e whole (inr few) (inl long) = omega (arith, whole, few, long)
alone-length bs rest w more e whole (inr few) (inr none_left) =
    omega
      (arith, whole, ap length e, length-append w more, length-append bs rest, ap length none_left)

module _ {S : Type 0} ⦃reads : Read S⦄ where
  -- The length that a call found is that of the frame at the front of the stream.
  pub found_length :
      (n : ℕ) (this next : Reader S) (w : Bytes) (g : Gives this next w)
      → Header.next_frame (stream this) ≡ ok (some n)
      → g.len ≡ n
  found_length n this next w g starts =
      let (head, rest, e, found) = g.starts in
      let given = reads.pending next.inner in
      let whole : head ++ (rest ++ given) ≡ stream this =
        sym (append_assoc head rest given) ∙ (ap (λ t. t ++ given) (sym e ∙ g.window) ∙ g.kept) in
      cc (next_frame-append head (rest ++ given) g.len found, ap Header.next_frame whole, starts)

  -- The call gives the frame, and `consume` then leaves the rest of the stream.
  pub record Takes (bs rest : Bytes) (this : Reader S) (r : Result Bytes Error × Reader S)
      : Type 0 where
    pub next : Reader S
    pub succeeds : r ≡ (ok bs, next)
    pub window : buff next ≡ bs
    pub sound : IsSound next
    pub left : stream (Reader.consume next) ≡ rest

  Arrives-Takes :
      (bs rest : Bytes) (this : Reader S) (r : Result Bytes Error × Reader S)
      → IsNext bs rest (stream this)
      → Arrives (length bs) this r
      → Takes bs rest this r
  Arrives-Takes bs rest this r h a =
      let g = a.gives in
      let starts : Header.next_frame (stream this) ≡ ok (some (length bs)) =
        ap Header.next_frame h.stream ∙ h.frame in
      let len = found_length (length bs) this a.next a.bytes g starts in
      let more = reads.pending a.next.inner in
      let parts : a.bytes ++ more ≡ bs ++ rest =
        ap (λ t. t ++ more) g.window ∙ (g.kept ∙ h.stream) in
      let size =
        alone-length bs rest a.bytes more parts (omega (arith, len, g.whole)) a.size h.alone in
      let same = same_front a.bytes bs more rest parts size in
      record {
        next = a.next;
        succeeds = a.succeeds ∙ ap (λ t. (ok t, a.next)) same;
        window = sym g.window ∙ same;
        sound = g.sound;
        left =
            g.consumed
            ∙ (ap (λ n. drop n (stream this)) len
                ∙ (ap (drop (length bs)) h.stream ∙ drop-append_all bs rest));
      }

  pub read-Takes :
      (bs rest : Bytes) (this : Reader S)
      → IsLive S
      → IsSound this
      → this.frame ≡ none
      → capacity this ≡ 8192
      → IsNext bs rest (stream this)
      → Takes bs rest this (Reader.read this)
  read-Takes bs rest this live s none_yet room h = Arrives-Takes bs rest this (Reader.read this) h (
      read-Arrives live (length bs) this s none_yet (ap Header.next_frame h.stream ∙ h.frame)
        (omega (arith, room, h.fits)) (omega (arith, ap length h.stream, length-append bs rest)))

module _ ⦃z : Zerocopy⦄ ⦃f : Bitflags⦄ {P F S : Type 0} ⦃polls : Poll P S F⦄ ⦃timer : Timer F⦄
    ⦃reads : Read S⦄ ⦃writer : Write S⦄ where
  -- The poll reports the socket first.
  abbrev pub IsReadable : Connection P F S → P → Type 0
  IsReadable c p = (ts : List Token) × (polls.poll c.reader.poll ≡ (ok (Token.reader ∷ ts), p))

  -- A round in which the socket is readable and `read` succeeds ends the loop.
  pub poll_event-Takes :
      (rounds : ℕ) (c : Connection P F S) (p : P) (bs : Bytes) (next : Reader S)
      → IsReadable c p
      → Reader.read c.reader.inner ≡ (ok bs, next)
      → poll_event (suc rounds) c ≡ some (ok (buff next), with_inner (with_poll c p) next)
  unfolding poll_event round for_events event
  poll_event-Takes rounds c p bs next (ts, e) r =
      ap (λ x. after_round (poll_event rounds) (after_poll c x)) e
      ∙ ap
          (λ x.
            after_round (poll_event rounds)
              (and_then (after_read (with_poll c p) x) (or_next (for_events ts))))
          r

module _ ⦃z : Zerocopy⦄ ⦃f : Bitflags⦄ ⦃m : Memchr⦄ {P F S : Type 0} ⦃polls : Poll P S F⦄
    ⦃timer : Timer F⦄ ⦃reads : Read S⦄ ⦃writer : Write S⦄ where
  -- On an open connection whose socket does not fail: when the poll reports the socket first, and a
  -- packet stands at the front of what is still to be handed out, fits the buffer, and nothing that
  -- follows it can arrive with it, then `recv` returns that packet in the first round and sends nothing, and
  -- for the next call exactly the bytes behind the packet are left.
  pub recv-Receives :
      (rounds : ℕ) (c : Connection P F S) (p : P) (bs rest : Bytes) (packet : Packet)
      → IsLive S
      → IsOpen c
      → IsReadable c p
      → IsNext bs rest (stream (Reader.consume c.reader.inner))
      → Packet.parse bs ≡ ok (packet, [])
      → (next : Connection P F S) × (recv (suc rounds) c ≡ some (ok packet, next))
        × IsOpen next
        × (stream (Reader.consume next.reader.inner) ≡ rest)
        × (next.writer ≡ c.writer)
        × (next.reader.poll ≡ p)
  unfolding recv
  recv-Receives rounds c p bs rest packet live o readable h parsed =
      let inner = Reader.consume c.reader.inner in
      let sound = consume-IsSound c.reader.inner o.sound in
      let room = capacity-consume c.reader.inner ∙ o.room in
      let got = read-Takes bs rest inner live sound (frame-consume c.reader.inner) room h in
      let next = with_inner (with_poll c p) got.next in
      (
        next,
        ap (consumed (Try.consume Packet.parse)) (
              poll_event-Takes rounds (with_inner c inner) p bs got.next readable got.succeeds
              ∙ ap (λ b. some (ok b, next)) got.window)
            ∙ ap (λ r. some (r, next)) ((Try.consume_iff Packet.parse bs packet).1 parsed),
        record {
          sound = got.sound;
          room =
              ap (λ r. capacity r.1) (sym got.succeeds) ∙ (capacity-read inner sound.window ∙ room);
        },
        got.left,
        refl,
        refl,
      )
