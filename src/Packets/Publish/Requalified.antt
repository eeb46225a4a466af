-- ===== src/Packets/Publish/Requalified.antt =====
-- `PublishBuilder::qos` of src/v3/packets/publish/builder.rs called twice: the identifier that stays.
use Prim.Native.Nat.{bit_and}
use mathlib.Core.Path.{subst}
use mcutt.Common.{
  ℕ, ◌+◌, ◌<◌, ◌≡◌, refl, sym, ap, ◌∙◌, Bool, none, some, ◌++◌, length, length-append, arith,
}
use mcutt.Bytes.Io.{Write}
use mcutt.Bytes.Emits.{Emits, Delivers}
use mcutt.External.Zerocopy.{Zerocopy}
use mcutt.External.Bitflags.{Bitflags}
use mcutt.External.Memchr.{Memchr}
use mcutt.Fixed.RemainingLength.Encoding.{len_from_u32_total}
use mcutt.Fixed.RemainingLength.{len_from_u32}
use mcutt.Fields.Buff.Write.{buff_bytes}
use mcutt.Fields.PacketId.{IsNonZero}
use mcutt.Fields.PacketId.Write.{length-u16_bytes}
use mcutt.Packets.Publish.{Publish, parse}
use mcutt.Packets.Publish.Builder.{PublishBuilder, at_most_once, at_least_once, qos}
use mcutt.Packets.Publish.Write.{write_sync}
use mcutt.Packets.Publish.RoundTrip.{
  IsSendable, Same, pkid_len, pkid_part, body, body_len, frame, length-body, read_pkid, frame-Reads,
  write_sync-frame,
}
use mcutt.Packets.Publish.Qos.{
  set_flags, set_qos_1, clear_qos, intersects_qos, qos_1_flags, qos_0_flags,
}

module _ ⦃f : Bitflags⦄ where
  -- The message with QoS 1 and this identifier, and then with QoS 0.
  abbrev pub requalified : Bool → ℕ → PublishBuilder → PublishBuilder
  requalified dup v b = qos at_most_once (qos (at_least_once dup v) b)

  requalified_fields :
      (dup : Bool) (v : ℕ) (b : PublishBuilder)
      → ((requalified dup v b).pkid ≡ some v)
        × ((requalified dup v b).topic ≡ b.topic)
        × ((requalified dup v b).payload ≡ b.payload)
  unfolding qos
  requalified_fields dup v b = (refl, refl, refl)

module _ ⦃z : Zerocopy⦄ where
  -- The message as a receiver takes it that does not expect the identifier.
  abbrev misread : ℕ → PublishBuilder → PublishBuilder
  misread v b = record b { pkid = none; payload = z.u16_bytes v ++ b.payload }

  body_len-misread :
      (v : ℕ) (b : PublishBuilder)
      → v < 65536
      → b.pkid ≡ some v
      → body_len b ≡ body_len (misread v b)
  body_len-misread v b small e =
      omega
        (arith, ap pkid_len e, length-append (z.u16_bytes v) b.payload, length-u16_bytes v small)

  body-misread : (v : ℕ) (b : PublishBuilder) → b.pkid ≡ some v → body b ≡ body (misread v b)
  body-misread v b e = ap (λ o. buff_bytes b.topic ++ (pkid_part o ++ b.payload)) e

  frame-misread :
      (n v : ℕ) (b : PublishBuilder)
      → v < 65536
      → b.pkid ≡ some v
      → frame n b ≡ frame n (misread v b)
  frame-misread n v b small e = rw (body_len-misread v b small e, body-misread v b e) refl

module _ ⦃z : Zerocopy⦄ ⦃f : Bitflags⦄ ⦃m : Memchr⦄ {W : Type 0} ⦃writer : Write W⦄ where
  -- With an identifier that the flags do not announce, the message is written in full, and the
  -- identifier is read as the first two bytes of the payload.
  misread-Delivers :
      (v : ℕ) (b : PublishBuilder)
      → v < 65536
      → b.pkid ≡ some v
      → IsSendable (misread v b)
      → Delivers {W = W} (write_sync b) parse (Same (misread v b))
  misread-Delivers v b small e s =
      let len = body_len-misread v b small e in
      let (n, k) = len_from_u32_total (body_len (misread v b)) s.fits in
      let (this, reads, same) = frame-Reads (misread v b) n s k in
      let wrote = ap length (body-misread v b e) ∙ (length-body (misread v b) s ∙ sym len) in
      (
        frame n (misread v b),
        this,
        subst (λ bs. Emits {W = W} bs (length bs) (write_sync b)) (frame-misread n v b small e)
            (write_sync-frame b n s.topic s.plain wrote (omega (arith, len, s.fits))
              (ap len_from_u32 len ∙ k)),
        reads,
        same,
      )

module _ ⦃z : Zerocopy⦄ ⦃f : Bitflags⦄ ⦃m : Memchr⦄ where
  requalified-IsSendable :
      (dup : Bool) (v : ℕ) (b : PublishBuilder)
      → IsSendable b
      → v < 65536
      → 4 + length b.topic + length b.payload < 268435456
      → IsSendable (misread v (requalified dup v b))
  unfolding qos
  requalified-IsSendable dup v b s small room =
      let again : PublishBuilder = requalified dup v b in
      let set : set_flags dup 2 b.flags < 16 = omega (arith, (set_qos_1 dup b.flags s.flags).0) in
      let clear = clear_qos (set_flags dup 2 b.flags) set in
      let flags : again.flags ≡ bit_and (set_flags dup 2 b.flags) 9 =
        qos_0_flags (qos (at_least_once dup v) b) ∙ ap (λ x. bit_and x 9) (qos_1_flags dup v b) in
      record {
        topic = s.topic;
        plain = s.plain;
        flags = rw flags (omega (arith, clear.0));
        pkid = intersects_qos again.flags ∙ rw (flags, clear.1) refl;
        fits =
            omega (arith, room, length-append (z.u16_bytes v) b.payload, length-u16_bytes v small);
      }

module _ ⦃z : Zerocopy⦄ ⦃f : Bitflags⦄ ⦃m : Memchr⦄ {W : Type 0} ⦃writer : Write W⦄ where
  -- Back at QoS 0 after QoS 1, with an identifier that is not zero, the builder of a message that may
  -- be sent, with room for an identifier, still has the identifier: `write_sync` writes it in full on
  -- any writer that does not fail, and `parse` takes exactly that packet off any buffer, as a message
  -- with no identifier whose payload has the two bytes of the identifier in front.
  pub at_most_once-qos :
      (b : PublishBuilder) (dup : Bool) (v : ℕ)
      → IsSendable b
      → IsNonZero v
      → 4 + length b.topic + length b.payload < 268435456
      → ((qos at_most_once (qos (at_least_once dup v) b)).pkid ≡ some v)
        × Delivers {W = W}
            (write_sync (qos at_most_once (qos (at_least_once dup v) b)))
            parse
            (λ (this : Publish).
              (this.topic.text ≡ b.topic)
              × (this.payload ≡ z.u16_bytes v ++ b.payload)
              × (read_pkid this.packet_id ≡ none))
  at_most_once-qos b dup v s nonzero room =
      let again : PublishBuilder = requalified dup v b in
      let (pkid, topic, payload) = requalified_fields dup v b in
      let (bs, this, wrote, reads, (text, left, flags, none_read)) =
        misread-Delivers v again nonzero.1 pkid (requalified-IsSendable dup v b s nonzero.1 room) in
      (
        pkid,
        (
          bs,
          this,
          wrote,
          reads,
          (text ∙ topic, left ∙ ap (λ p. z.u16_bytes v ++ p) payload, none_read),
        ),
      )
