-- ===== src/Sync/Connection/Exact.antt =====
-- What `recv` returns, and the frame that it takes off the stream.
use mathlib.Core.Path.{subst}
use mcutt.Common.{
  ℕ, ◌≡◌, sym, ap, ◌∙◌, Option, none, some, [], ◌++◌, append-nil, true, drop, length,
}
use mcutt.Bytes.{Bytes, Error, Result, ok, err}
use mcutt.Bytes.Try
use mcutt.Bytes.Io.{Write}
use mcutt.External.Zerocopy.{Zerocopy}
use mcutt.External.Bitflags.{Bitflags}
use mcutt.External.Memchr.{Memchr}
use mcutt.External.Mio.{Poll, Timer}
use mcutt.Fixed.Header
use mcutt.Fixed.Header.Prefix.{next_frame-append}
use mcutt.Packets.Packet
use mcutt.Packets.Packet.{Packet}
use mcutt.Packets.Packet.Framed.{is_variable, parse-next_frame}
use mcutt.Sync.Read.{Read}
use mcutt.Sync.Reader
use mcutt.Sync.Reader.{Reader, buff}
use mcutt.Sync.Reader.Window.{consume-IsSound}
use mcutt.Sync.Reader.Stream.{stream}
use mcutt.Sync.Reader.Whole.{Gives, Reads}
use mcutt.Sync.Reader.Sound.{read-Reads}
use mcutt.Sync.Connection.{Connection, with_inner, consumed, recv}
use mcutt.Sync.Connection.Open.{IsOpen}
use mcutt.Sync.Connection.Receives.{drop-append_all}
use mcutt.Sync.Connection.Found.{Retries, Retries-IsSound, poll_event-Found}

consumed-ok :
    {A C : Type 0} (read : Bytes → Result A Error) (o : Option (Result Bytes Error × C)) (a : A)
    (next : C)
    → consumed read o ≡ some (ok a, next)
    → (buf : Bytes) × (o ≡ some (ok buf, next)) × (read buf ≡ ok a)
consumed-ok read none a next h = cc h
consumed-ok read (some (err e, last)) a next h = cc h
consumed-ok read (some (ok buf, last)) a next h =
    let same : last ≡ next = cc h in
    let got : read buf ≡ ok a = cc h in (buf, ap (λ c. some (ok buf, c)) same, got)

module _ {S : Type 0} ⦃reads : Read S⦄ where
  -- When the frame that was found is all of the window, `consume` leaves what the socket has.
  whole_window :
      (before next : Reader S) (bytes : Bytes) (g : Gives before next bytes)
      → g.len ≡ length bytes
      → stream before ≡ bytes ++ stream (Reader.consume next)
  whole_window before next bytes g all_of =
      let given = reads.pending next.inner in
      let parts : stream before ≡ bytes ++ given =
        sym g.kept ∙ ap (λ t. t ++ given) (sym g.window) in
      let left : stream (Reader.consume next) ≡ given =
        g.consumed
        ∙ (ap (λ n. drop n (stream before)) all_of
            ∙ (ap (drop (length bytes)) parts ∙ drop-append_all bytes given)) in
      parts ∙ ap (λ t. bytes ++ t) (sym left)

module _ ⦃z : Zerocopy⦄ ⦃f : Bitflags⦄ ⦃m : Memchr⦄ where
  -- What was parsed to its end is the frame that was found at its front.
  frame_length :
      (bytes head rest : Bytes) (n : ℕ) (packet : Packet)
      → is_variable packet ≡ true
      → Packet.parse bytes ≡ ok (packet, [])
      → bytes ≡ head ++ rest
      → Header.next_frame head ≡ ok (some n)
      → (n ≡ length bytes) × (Header.next_frame bytes ≡ ok (some (length bytes)))
  frame_length bytes head rest n packet v parsed splits found =
      let (used, all_of, framed) = parse-next_frame bytes [] packet v parsed in
      let same : bytes ≡ used = all_of ∙ append-nil used in
      let here : Header.next_frame bytes ≡ ok (some (length bytes)) =
        framed ∙ ap (λ t. ok (some (length t))) (sym same) in
      let first : Header.next_frame bytes ≡ ok (some n) =
        ap Header.next_frame splits ∙ next_frame-append head rest n found in
      (cc (here, first), here)

module _ ⦃z : Zerocopy⦄ ⦃f : Bitflags⦄ ⦃m : Memchr⦄ {P F S : Type 0} ⦃polls : Poll P S F⦄
    ⦃timer : Timer F⦄ ⦃reads : Read S⦄ ⦃writer : Write S⦄ where
  -- Whatever the poll, the timer and the socket do: when `recv` on an open connection returns a
  -- PUBLISH or a SUBACK, then behind reads that would block there was one that gave the bytes of
  -- that packet. They are exactly the frame at the front of the stream, `parse` reads the packet from
  -- them to the last byte, and the next call goes on exactly behind them.
  pub recv-Exact :
      (rounds : ℕ) (c next : Connection P F S) (packet : Packet)
      → IsOpen c
      → is_variable packet ≡ true
      → recv rounds c ≡ some (ok packet, next)
      → (before : Reader S) × (bytes : Bytes) × Retries (Reader.consume c.reader.inner) before
        × (Packet.parse bytes ≡ ok (packet, []))
        × (Header.next_frame bytes ≡ ok (some (length bytes)))
        × (stream before ≡ bytes ++ stream (Reader.consume next.reader.inner))
  unfolding recv
  recv-Exact rounds c next packet o v h =
      let inner = Reader.consume c.reader.inner in
      let (buf, got, read) = consumed-ok (Try.consume Packet.parse) _ packet next h in
      let parsed = (Try.consume_iff Packet.parse buf packet).0 read in
      let (found, window) = poll_event-Found rounds (with_inner c inner) buf next got in
      let sound = Retries-IsSound found.tried (consume-IsSound c.reader.inner o.sound) in
      let g : Gives found.before next.reader.inner found.bytes =
        subst (Reads found.before) found.given (read-Reads found.before sound) in
      let same : buf ≡ found.bytes = window ∙ sym g.window in
      let parsed' = rw same at parsed in
      let (head, rest, splits, framed) = g.starts in
      let (len, frame) = frame_length found.bytes head rest g.len packet v parsed' splits framed in
      (
        found.before,
        found.bytes,
        found.tried,
        parsed',
        frame,
        whole_window found.before next.reader.inner found.bytes g len,
      )
