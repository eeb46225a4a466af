-- ===== src/Sync/Writer/Sends.antt =====
-- What the calls of the writer's half put on the socket, and what becomes of the flag.
use mathlib.Core.Path.{subst}
use mcutt.Common.{
  ℕ, ◌≡◌, refl, sym, ap, ◌∙◌, ◌⊎◌, inl, inr, [], ◌++◌, append-nil, Bool, Bool-cases, true, false,
  length, String, some, map, if◌then◌else◌,
}
use mcutt.Bytes.{Bytes, IoErrorKind, std_io, Error, error, Result, ok, err}
use mcutt.Bytes.Io.{Write, Io, from_io, and_then}
use mcutt.Bytes.Emits.{Emits, Sent, Broken, Delivers}
use mcutt.Fields.PacketId
use mcutt.Fields.TopicFilter.Write.{read_back}
use mcutt.Packets.PingReq
use mcutt.Packets.Publish
use mcutt.Packets.Publish.Builder.{PublishBuilder}
use mcutt.Packets.Subscribe
use mcutt.Packets.Subscribe.{SubscribeBuilder, filters}
use mcutt.Packets.Unsubscribe
use mcutt.Packets.Unsubscribe.{UnsubscribeBuilder, filters as unsubscribe_filters}
use mcutt.External.Zerocopy.{Zerocopy}
use mcutt.External.Bitflags.{Bitflags}
use mcutt.External.Memchr.{Memchr}
use mcutt.Sync.Writer.{
  WriterHalf, with_inner, store, flush, send, handle_ping, publish, subscribe, unsubscribe,
}

-- A call of the socket that fails in this way: a write of some bytes, or a flush.
abbrev pub SocketFails : (W : Type 0) → ⦃writer : Write W⦄ → IoErrorKind → Type 0
SocketFails W ⦃writer⦄ kind =
    ((buffer : Bytes) × (before : W) × ((writer.write_all buffer before).0 ≡ err kind))
    ⊎ ((before : W) × ((writer.flush before).0 ≡ err kind))

module _ {W : Type 0} ⦃writer : Write W⦄ where
  -- All of `bs` was passed on to the socket, and the flag is `flag`.
  abbrev pub Done : Bytes → Bool → WriterHalf W → Result (Unit {0}) Error × WriterHalf W → Type 0
  Done bs flag this r =
      (r.0 ≡ ok tt)
      × (writer.contents r.1.inner ≡ writer.contents this.inner ++ bs)
      × (r.1.sent_flag ≡ flag)

  -- A call of the socket failed, and its error is returned: a front of `bs` was passed on, and the
  -- flag is as it was.
  pub record Failed (bs : Bytes) (this : WriterHalf W) (r : Result (Unit {0}) Error × WriterHalf W)
      : Type 0 where
    pub kind : IoErrorKind
    pub msg : String
    pub blame : SocketFails W kind
    pub failed : r.0 ≡ err (error (std_io kind) msg)
    pub front : Bytes
    pub back : Bytes
    pub splits : bs ≡ front ++ back
    pub wrote : writer.contents r.1.inner ≡ writer.contents this.inner ++ front
    pub flag : r.1.sent_flag ≡ this.sent_flag

  -- From any state, one or the other.
  abbrev pub Sends : Bytes → Bool → Io (WriterHalf W) (Unit {0}) → Type 0
  Sends bs flag action =
      (this : WriterHalf W) → Done bs flag this (action this) ⊎ Failed bs this (action this)

  Ends : Bytes → Bool → WriterHalf W → Result (Unit {0}) Error × WriterHalf W → Type 0
  Ends bs flag this r = Done bs flag this r ⊎ Failed bs this r

  -- The flush and the store, on what the flush returned.
  stored :
      (bs : Bytes) (flag : Bool) (this next : WriterHalf W) (msg : String)
      (r : Result (Unit {0}) IoErrorKind × W)
      → r ≡ writer.flush next.inner
      → next.sent_flag ≡ this.sent_flag
      → writer.contents r.1 ≡ writer.contents this.inner ++ bs
      → Ends bs flag this (and_then (with_inner next (from_io msg r)) (λ u. store flag))
  unfolding Ends
  stored bs flag this next msg (ok u, w) is same e = inl (refl, e, refl)
  stored bs flag this next msg (err k, w) is same e = inr (record {
    kind = k;
    msg = msg;
    blame = inr (next.inner, sym (ap (λ r. r.0) is));
    failed = refl;
    front = bs;
    back = [];
    splits = sym (append-nil bs);
    wrote = e;
    flag = same;
  })

  flushed :
      (bs : Bytes) (flag : Bool) (this next : WriterHalf W)
      → next.sent_flag ≡ this.sent_flag
      → writer.contents next.inner ≡ writer.contents this.inner ++ bs
      → Ends bs flag this (and_then (flush next) (λ u. store flag))
  unfolding flush
  flushed bs flag this next same e =
      stored bs flag this next "while flusing the writer" (writer.flush next.inner) refl same
        (writer.flush_contents next.inner ∙ e)

  sent :
      (bs : Bytes) (n : ℕ) (flag : Bool) (this : WriterHalf W) (r : Result ℕ Error × W)
      → Sent bs n this.inner r ⊎ Broken bs this.inner r
      → Ends bs flag this
          (and_then (with_inner this r) (λ written next. and_then (flush next) (λ u. store flag)))
  unfolding Ends
  sent bs n flag this (ok written, w) (inl (h, c)) =
      flushed bs flag this (record this { inner = w }) refl c
  sent bs n flag this (err e, w) (inl (h, c)) = absurd (cc h)
  sent bs n flag this (ok written, w) (inr b) = absurd (cc (b.failed))
  sent bs n flag this (err e, w) (inr b) = inr (record {
    kind = b.io;
    msg = b.msg;
    blame = inl (b.buffer, b.before, b.blame);
    failed = cc (b.failed);
    front = b.front;
    back = b.back;
    splits = b.splits;
    wrote = b.wrote;
    flag = refl;
  })

  pub send-Sends :
      (bs : Bytes) (n : ℕ) (flag : Bool) (packet : Io W ℕ)
      → Emits bs n packet
      → Sends bs flag (send packet (store flag))
  unfolding Ends
  send-Sends bs n flag packet emits this =
      sent bs n flag this (packet this.inner) (emits.at this.inner)

  -- A packet that is sent, marks the connection as used, and is read back.
  abbrev pub SendsPacket :
      {A : Type 0}
      → Io (WriterHalf W) (Unit {0})
      → (Bytes → Result (A × Bytes) Error)
      → (A → Type 0)
      → Type 0
  SendsPacket {A} action parse P =
      (bs : Bytes) × (this : A) × Sends bs true action
      × ((rest : Bytes) → parse (bs ++ rest) ≡ ok (this, rest))
      × P this

  Delivers-SendsPacket :
      {A : Type 0} (packet : Io W ℕ) (parse : Bytes → Result (A × Bytes) Error) (P : A → Type 0)
      → Delivers {W = W} packet parse P
      → SendsPacket (send packet (store true)) parse P
  Delivers-SendsPacket packet parse P (bs, this, emits, read, holds) =
      (bs, this, send-Sends bs (length bs) true packet emits, read, holds)

module _ ⦃z : Zerocopy⦄ ⦃f : Bitflags⦄ ⦃m : Memchr⦄ {W : Type 0} ⦃writer : Write W⦄ where
  pub publish-SendsPacket :
      (p : PublishBuilder)
      → Publish.RoundTrip.IsSendable p
      → SendsPacket {W = W} (publish p) Publish.parse (Publish.RoundTrip.Same p)
  unfolding publish
  publish-SendsPacket p a =
      Delivers-SendsPacket _ Publish.parse _ (Publish.RoundTrip.Publish-Delivers p a)

  pub subscribe-SendsPacket :
      (s : SubscribeBuilder)
      → Subscribe.RoundTrip.IsSendable s
      → SendsPacket {W = W} (subscribe s) Subscribe.parse (λ (this : Subscribe.Subscribe).
        (PacketId.read this.pkid ≡ some s.pkid) × (filters this ≡ some (map read_back s.filters)))
  unfolding subscribe
  subscribe-SendsPacket s b =
      Delivers-SendsPacket _ Subscribe.parse _ (Subscribe.RoundTrip.Subscribe-Delivers s b)

  pub unsubscribe-SendsPacket :
      (u : UnsubscribeBuilder)
      → Unsubscribe.RoundTrip.IsSendable u
      → SendsPacket {W = W} (unsubscribe u) Unsubscribe.parse (λ (this : Unsubscribe.Unsubscribe).
        (PacketId.read this.pkid ≡ some u.pkid)
        × (unsubscribe_filters this ≡ some (map Unsubscribe.RoundTrip.read_back u.filters)))
  unfolding unsubscribe
  unsubscribe-SendsPacket u c =
      Delivers-SendsPacket _ Unsubscribe.parse _ (Unsubscribe.RoundTrip.Unsubscribe-Delivers u c)

  -- For every message that may be sent and every subscription and unsubscription that may be: from
  -- any state of the writer's half the call either puts one whole packet on the socket and sets the
  -- flag, or a write or a flush of the socket failed, its error is returned, a front of the packet is
  -- on the socket and the flag is as it was; and that packet is read back as what was sent.
  pub messages-SendsPacket :
      (p : PublishBuilder) (s : SubscribeBuilder) (u : UnsubscribeBuilder)
      → Publish.RoundTrip.IsSendable p
      → Subscribe.RoundTrip.IsSendable s
      → Unsubscribe.RoundTrip.IsSendable u
      → SendsPacket {W = W} (publish p) Publish.parse (Publish.RoundTrip.Same p)
        × SendsPacket {W = W} (subscribe s) Subscribe.parse (λ (this : Subscribe.Subscribe).
          (PacketId.read this.pkid ≡ some s.pkid) × (filters this ≡ some (map read_back s.filters)))
        × SendsPacket {W = W} (unsubscribe u) Unsubscribe.parse (λ (this : Unsubscribe.Unsubscribe).
          (PacketId.read this.pkid ≡ some u.pkid)
          × (unsubscribe_filters this ≡ some (map Unsubscribe.RoundTrip.read_back u.filters)))
  messages-SendsPacket p s u a b c =
      (publish-SendsPacket p a, subscribe-SendsPacket s b, unsubscribe-SendsPacket u c)

module _ ⦃z : Zerocopy⦄ ⦃f : Bitflags⦄ {W : Type 0} ⦃writer : Write W⦄ where
  abbrev pub ping_if : Bool → WriterHalf W → Result (Unit {0}) Error × WriterHalf W
  ping_if flag this =
      if flag
      then (ok tt, record this { sent_flag = false })
      else send PingReq.Write.write_sync (store false) this

  pub handle_ping-if :
      (this : WriterHalf W) (flag : Bool)
      → this.sent_flag ≡ flag
      → handle_ping this ≡ ping_if flag this
  unfolding handle_ping
  handle_ping-if this flag e = ap (λ b. ping_if b this) e

  -- A tick with the flag set clears it and writes nothing; a tick with the flag clear sends a whole
  -- PINGREQ and leaves the flag clear, unless the socket fails.
  pub handle_ping-Sends :
      (this : WriterHalf W)
      → ((this.sent_flag ≡ true) × (handle_ping this ≡ (ok tt, record this { sent_flag = false })))
        ⊎ ((this.sent_flag ≡ false)
            × (bs : Bytes) × ((rest : Bytes)
                → PingReq.parse (bs ++ rest) ≡ ok (PingReq.ping_req, rest))
            × (Done bs false this (handle_ping this) ⊎ Failed bs this (handle_ping this)))
  unfolding Ends
  handle_ping-Sends this =
      let (bs, ping, emits, read, holds) = PingReq.Write.PingReq-Delivers {W = W} in
      elim (Bool-cases this.sent_flag) [
        | inl set ↦ inl (set, handle_ping-if this true set)
        | inr clear ↦ inr (
          clear,
          bs,
          λ rest. read rest ∙ ap (λ p. ok (p, rest)) holds,
          subst (Ends bs false this) (sym (handle_ping-if this false clear))
              (send-Sends bs (length bs) false PingReq.Write.write_sync emits this),
        )
      ]
