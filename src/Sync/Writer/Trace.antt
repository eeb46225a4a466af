-- ===== src/Sync/Writer/Trace.antt =====
-- Sequences of calls of the writer's half, with the ticks of the keep-alive timer between them.
use mathlib.Core.Path.{subst}
use mcutt.Common.{
  ◌≡◌, refl, sym, ap, ◌∙◌, ◌⊎◌, inl, inr, List, [], ◌∷◌, ◌++◌, append-nil, append_assoc, All, Bool,
  true, false, some, map,
}
use mcutt.Bytes.{Bytes, Error, Result, ok, err}
use mcutt.Bytes.Io.{Write, Io, and_then}
use mcutt.External.Zerocopy.{Zerocopy}
use mcutt.External.Bitflags.{Bitflags}
use mcutt.External.Memchr.{Memchr}
use mcutt.Fields.PacketId
use mcutt.Fields.TopicFilter.Write.{read_back}
use mcutt.Fixed.PacketType
use mcutt.Packets.PingReq
use mcutt.Packets.Short.{short_bytes}
use mcutt.Packets.Publish
use mcutt.Packets.Publish.Builder.{PublishBuilder}
use mcutt.Packets.Subscribe
use mcutt.Packets.Subscribe.{SubscribeBuilder, filters}
use mcutt.Packets.Unsubscribe
use mcutt.Packets.Unsubscribe.{UnsubscribeBuilder, filters as unsubscribe_filters}
use mcutt.Sync.Writer.{WriterHalf, handle_ping, publish, subscribe, unsubscribe}
use mcutt.Sync.Writer.Sends.{
  Done, Failed, ping_if, handle_ping-if, send-Sends, publish-SendsPacket, subscribe-SendsPacket,
  unsubscribe-SendsPacket,
}

pub data Call : Type 0 where
  publishes : PublishBuilder → Call
  subscribes : SubscribeBuilder → Call
  unsubscribes : UnsubscribeBuilder → Call
  ticks : Call

abbrev ping : Bytes
ping = short_bytes PacketType.ping_req 0

module _ ⦃f : Bitflags⦄ ⦃m : Memchr⦄ where
  -- The builders may be sent.
  abbrev pub IsSendable : Call → Type 0
  IsSendable (publishes p) = Publish.RoundTrip.IsSendable p
  IsSendable (subscribes s) = Subscribe.RoundTrip.IsSendable s
  IsSendable (unsubscribes u) = Unsubscribe.RoundTrip.IsSendable u
  IsSendable ticks = Unit

module _ ⦃z : Zerocopy⦄ ⦃f : Bitflags⦄ ⦃m : Memchr⦄ where
  -- What a call puts on the socket, by itself: for a tick a ping, unless the flag was set; for the
  -- others a packet that is read back as what was sent. A tick clears the flag, the others set it.
  abbrev pub CallWrites : Call → Bool → Bytes → Bool → Type 0
  CallWrites ticks true front next = (front ≡ []) × (next ≡ false)
  CallWrites ticks false front next = (front ≡ ping) × (next ≡ false)
  CallWrites (publishes p) flag front next =
      (next ≡ true)
      × (this : Publish.Publish) × ((rest : Bytes)
          → Publish.parse (front ++ rest) ≡ ok (this, rest))
      × Publish.RoundTrip.Same p this
  CallWrites (subscribes s) flag front next =
      (next ≡ true)
      × (this : Subscribe.Subscribe) × ((rest : Bytes)
          → Subscribe.parse (front ++ rest) ≡ ok (this, rest))
      × (PacketId.read this.pkid ≡ some s.pkid)
      × (filters this ≡ some (map read_back s.filters))
  CallWrites (unsubscribes u) flag front next =
      (next ≡ true)
      × (this : Unsubscribe.Unsubscribe) × ((rest : Bytes)
          → Unsubscribe.parse (front ++ rest) ≡ ok (this, rest))
      × (PacketId.read this.pkid ≡ some u.pkid)
      × (unsubscribe_filters this ≡ some (map Unsubscribe.RoundTrip.read_back u.filters))

  -- The calls in their order, from one value of the flag to another.
  abbrev pub Written : List Call → Bool → Bytes → Bool → Type 0
  Written [] flag bs last = (bs ≡ []) × (last ≡ flag)
  Written (c ∷ cs) flag bs last =
      (front : Bytes) × (back : Bytes) × (next : Bool) × (bs ≡ front ++ back)
      × CallWrites c flag front next
      × Written cs next back last

module _ ⦃z : Zerocopy⦄ ⦃f : Bitflags⦄ ⦃m : Memchr⦄ {W : Type 0} ⦃writer : Write W⦄ where
  abbrev pub perform : Call → Io (WriterHalf W) (Unit {0})
  perform (publishes p) = publish p
  perform (subscribes s) = subscribe s
  perform (unsubscribes u) = unsubscribe u
  perform ticks = handle_ping

  -- One call after the other, up to the first that fails.
  abbrev pub run : List Call → Io (WriterHalf W) (Unit {0})
  run [] this = (ok tt, this)
  run (c ∷ cs) this = and_then (perform c this) (λ u. run cs)

module _ ⦃z : Zerocopy⦄ ⦃f : Bitflags⦄ ⦃m : Memchr⦄ {W : Type 0} ⦃writer : Write W⦄ where
  -- A call that succeeded has put these bytes on the socket.
  abbrev After : Call → Bool → WriterHalf W → Result (Unit {0}) Error × WriterHalf W → Type 0
  After c flag this r =
      (front : Bytes) × (writer.contents r.1.inner ≡ writer.contents this.inner ++ front)
      × CallWrites c flag front r.1.sent_flag

  sent-After :
      (bs : Bytes) (flag : Bool) (this : WriterHalf W) (r : Result (Unit {0}) Error × WriterHalf W)
      → r.0 ≡ ok tt
      → Done bs flag this r ⊎ Failed bs this r
      → (writer.contents r.1.inner ≡ writer.contents this.inner ++ bs) × (r.1.sent_flag ≡ flag)
  sent-After bs flag this r h (inl (e, wrote, set)) = (wrote, set)
  sent-After bs flag this r h (inr b) = absurd (cc (h, b.failed))

  tick-After :
      (this : WriterHalf W) (flag : Bool)
      → this.sent_flag ≡ flag
      → (ping_if flag this).0 ≡ ok tt
      → After ticks flag this (ping_if flag this)
  tick-After this true e h = ([], sym (append-nil (writer.contents this.inner)), (refl, refl))
  tick-After this false e h =
      let (wrote, set) =
        sent-After ping false this (ping_if false this) h
          (send-Sends ping 2 false PingReq.Write.write_sync PingReq.Write.write_sync-Emits this) in
      (ping, wrote, (refl, set))

  perform-After :
      (c : Call) (this : WriterHalf W)
      → IsSendable c
      → (perform c this).0 ≡ ok tt
      → After c this.sent_flag this (perform c this)
  perform-After ticks this s h =
      let flag = this.sent_flag in
      let e = handle_ping-if this flag refl in
      subst (After ticks flag this) (sym e) (
        tick-After this flag refl
          (ap (λ (r : Result (Unit {0}) Error × WriterHalf W). r.0) (sym e) ∙ h))
  perform-After (publishes p) this s h =
      let (bs, packet, sends, read, holds) = publish-SendsPacket p s in
      let (wrote, set) = sent-After bs true this (publish p this) h (sends this) in
      (bs, wrote, (set, packet, read, holds))
  perform-After (subscribes b) this s h =
      let (bs, packet, sends, read, holds) = subscribe-SendsPacket b s in
      let (wrote, set) = sent-After bs true this (subscribe b this) h (sends this) in
      (bs, wrote, (set, packet, read, holds.0, holds.1))
  perform-After (unsubscribes b) this s h =
      let (bs, packet, sends, read, holds) = unsubscribe-SendsPacket b s in
      let (wrote, set) = sent-After bs true this (unsubscribe b this) h (sends this) in
      (bs, wrote, (set, packet, read, holds.0, holds.1))

  -- All calls succeeded.
  abbrev Wrote : List Call → Bool → WriterHalf W → Result (Unit {0}) Error × WriterHalf W → Type 0
  Wrote cs flag this r =
      (bs : Bytes) × (writer.contents r.1.inner ≡ writer.contents this.inner ++ bs)
      × Written cs flag bs r.1.sent_flag

  then-Wrote :
      (c : Call) (cs : List Call) (flag : Bool) (this : WriterHalf W)
      (r : Result (Unit {0}) Error × WriterHalf W)
      → (r.0 ≡ ok tt → After c flag this r)
      → ((run cs r.1).0 ≡ ok tt → Wrote cs r.1.sent_flag r.1 (run cs r.1))
      → (and_then r (λ u. run cs)).0 ≡ ok tt
      → Wrote (c ∷ cs) flag this (and_then r (λ u. run cs))
  then-Wrote c cs flag this (err e, next) p q h = absurd (cc h)
  then-Wrote c cs flag this (ok u, next) p q h =
      let (front, wrote, call) = p refl in
      let (back, more, calls) = q h in
      (
        front ++ back,
        more ∙ (ap (λ t. t ++ back) wrote ∙ append_assoc (writer.contents this.inner) front back),
        (front, back, next.sent_flag, refl, call, calls),
      )

  -- When a sequence of calls of `publish`, `subscribe` and `unsubscribe`, each with a builder that may
  -- be sent, and of ticks, in any order, succeeds, it has put on the socket, in their order and with
  -- nothing between them, one whole packet for each call, which is read back as what was sent, and a
  -- PINGREQ for each tick that found the flag clear.
  pub run-Written :
      (cs : List Call) (this : WriterHalf W)
      → All IsSendable cs
      → (run cs this).0 ≡ ok tt
      → (bs : Bytes) × (writer.contents (run cs this).1.inner ≡ writer.contents this.inner ++ bs)
        × Written cs this.sent_flag bs (run cs this).1.sent_flag
  run-Written [] this s h = ([], sym (append-nil (writer.contents this.inner)), (refl, refl))
  run-Written (c ∷ cs) this (s, ss) h =
      then-Wrote c cs this.sent_flag this (perform c this) (perform-After c this s)
        (run-Written cs (perform c this).1 ss) h
