-- ===== src/Sync/Writer/KeepAlive.antt =====
-- Between two ticks something is sent: the connection is never silent for two intervals.
use mathlib.Core.Path.{subst}
use mcutt.Common.{
  ◌<◌, ◌≡◌, ap, List, [], ◌∷◌, ◌++◌, All, Bool, true, false, length, length-append, arith,
}
use mcutt.Bytes.{Bytes, Error, Result, ok, err}
use mcutt.Bytes.Io.{Write}
use mcutt.External.Zerocopy.{Zerocopy}
use mcutt.External.Bitflags.{Bitflags}
use mcutt.External.Memchr.{Memchr}
use mcutt.Fixed.PacketType
use mcutt.Packets.Short.{length-short_bytes}
use mcutt.Packets.Publish
use mcutt.Packets.Subscribe
use mcutt.Packets.Unsubscribe
use mcutt.Sync.Writer.{WriterHalf}
use mcutt.Sync.Writer.Trace.{
  Call, publishes, subscribes, unsubscribes, ticks, IsSendable, CallWrites, Written, run,
  run-Written,
}

-- No bytes are a packet.
not_empty :
    {A : Type 0} (parse : Bytes → Result (A × Bytes) Error) (e : Error) (front : Bytes) (this : A)
    → parse [] ≡ err e
    → ((rest : Bytes) → parse (front ++ rest) ≡ ok (this, rest))
    → 0 < length front
not_empty parse e [] this h read = absurd (cc (h, read []))
not_empty parse e (b ∷ bs) this h read = omega arith

module _ ⦃z : Zerocopy⦄ ⦃f : Bitflags⦄ ⦃m : Memchr⦄ where
  cleared :
      (flag : Bool) (front : Bytes) (next : Bool) → CallWrites ticks flag front next → next ≡ false
  cleared true front next (e, set) = set
  cleared false front next (e, set) = set

  -- Calls of which the last is a tick send something, if the flag is clear at the start.
  ticks-Written :
      (cs : List Call) (bs : Bytes) (last : Bool)
      → Written (cs ++ (ticks ∷ [])) false bs last
      → 0 < length bs
  ticks-Written [] bs last (front, back, next, parts, (e, set), rest) = omega (
    arith,
    ap length parts,
    length-append front back,
    ap length e,
    length-short_bytes PacketType.ping_req 0,
  )
  ticks-Written (ticks ∷ cs) bs last (front, back, next, parts, (e, set), rest) = omega (
    arith,
    ap length parts,
    length-append front back,
    ap length e,
    length-short_bytes PacketType.ping_req 0,
  )
  ticks-Written (publishes p ∷ cs) bs last
        (front, back, next, parts, (set, this, read, same), rest) =
      omega (
        arith,
        ap length parts,
        length-append front back,
        not_empty Publish.parse _ front this Publish.Rejects.parse-nil read,
      )
  ticks-Written (subscribes s ∷ cs) bs last
        (front, back, next, parts, (set, this, read, same, more), rest) =
      omega (
        arith,
        ap length parts,
        length-append front back,
        not_empty Subscribe.parse _ front this Subscribe.Received.parse-nil read,
      )
  ticks-Written (unsubscribes u ∷ cs) bs last
        (front, back, next, parts, (set, this, read, same, more), rest) =
      omega (
        arith,
        ap length parts,
        length-append front back,
        not_empty Unsubscribe.parse _ front this Unsubscribe.Received.parse-nil read,
      )

module _ ⦃z : Zerocopy⦄ ⦃f : Bitflags⦄ ⦃m : Memchr⦄ {W : Type 0} ⦃writer : Write W⦄ where
  -- From any state of the writer's half, for two ticks of the keep-alive timer and any sequence between
  -- them of further ticks and of calls of `publish`, `subscribe` and `unsubscribe`, each with a builder
  -- that may be sent: when all of these succeed, together they put something on the socket.
  pub run-KeepsAlive :
      (cs : List Call) (this : WriterHalf W)
      → All IsSendable (cs ++ (ticks ∷ []))
      → (run (ticks ∷ (cs ++ (ticks ∷ []))) this).0 ≡ ok tt
      → length (writer.contents this.inner)
        < length (writer.contents (run (ticks ∷ (cs ++ (ticks ∷ []))) this).1.inner)
  run-KeepsAlive cs this s h =
      let (bs, wrote, all_calls) = run-Written (ticks ∷ (cs ++ (ticks ∷ []))) this (tt, s) h in
      let (front, back, next, parts, call, calls) = all_calls in
      let last = (run (ticks ∷ (cs ++ (ticks ∷ []))) this).1.sent_flag in
      let more = ticks-Written cs back last (
        subst (λ b. Written (cs ++ (ticks ∷ [])) b back last)
          (cleared this.sent_flag front next call) calls) in
      omega (
        arith,
        ap length wrote,
        length-append (writer.contents this.inner) bs,
        ap length parts,
        length-append front back,
        more,
      )
