-- ===== src/Packets/Packet/Dispatch.antt =====
-- What is written as a packet of one type is received as that packet.
use mcutt.Common.{Bool, true, false, ℕ, ◌<◌, ◌≡◌, refl, ap, ◌∙◌, some, ◌∷◌, ◌++◌}
use mcutt.Bytes.{Bytes, Error, error, invalid, Result, ok, err}
use mcutt.Bytes.Try.{map_ok}
use mcutt.Bytes.Io.{Write, Io}
use mcutt.Bytes.Emits.{Delivers}
use mcutt.External.Zerocopy.{Zerocopy}
use mcutt.External.Bitflags.{Bitflags}
use mcutt.External.Memchr.{Memchr}
use mcutt.Fixed.RemainingLength.{len_from_u32}
use mcutt.Fixed.PacketType
use mcutt.Fixed.PacketType.{
  ControlPacketType, encode_type_and_flags, validate_type_flags, default_flags,
}
use mcutt.Fixed.PacketType.RoundTrip.{
  parse-encode_type_and_flags, default_flags_small, default_flags-valid, publish_valid,
}
use mcutt.Fields.PacketId
use mcutt.Fields.PacketId.{PacketId, IsNonZero}
use mcutt.Packets.Framed.{DeliversAs}
use mcutt.Packets.Short.{short_bytes}
use mcutt.Packets.PubAck
use mcutt.Packets.PubRec
use mcutt.Packets.PubRel
use mcutt.Packets.PubComp
use mcutt.Packets.UnsubAck
use mcutt.Packets.PingResp
use mcutt.Packets.SubAck
use mcutt.Packets.Publish
use mcutt.Packets.Publish.Builder.{PublishBuilder}
use mcutt.Packets.SubAck.Write.{SubAckBuilder}
use mcutt.Packets.Packet.{
  Packet, publish, pub_ack, pub_rec, pub_rel, pub_comp, sub_ack, unsub_ack, ping_resp, wrap,
  parse_as, parse,
}

module _ ⦃z : Zerocopy⦄ ⦃f : Bitflags⦄ ⦃m : Memchr⦄ where
  -- The first byte decides which parser reads the packet.
  pub parse_typed :
      (t : ControlPacketType) (fl : ℕ) (tail : Bytes)
      → fl < 16
      → validate_type_flags t fl ≡ ok tt
      → parse (encode_type_and_flags t fl ∷ tail) ≡ parse_as t (encode_type_and_flags t fl ∷ tail)
  unfolding parse
  parse_typed t fl tail small valid = rw (parse-encode_type_and_flags t fl small valid)

  -- The bytes of a PINGRESP.
  pub parse-ping_resp :
      (rest : Bytes)
      → parse (short_bytes PacketType.ping_resp 0 ++ rest) ≡ ok (ping_resp PingResp.ping_resp, rest)
  unfolding parse_as
  parse-ping_resp rest =
      parse_typed PacketType.ping_resp (default_flags PacketType.ping_resp) _
        (default_flags_small PacketType.ping_resp) (default_flags-valid PacketType.ping_resp)
      ∙ ap (map_ok (wrap ping_resp)) (PingResp.Write.parse-short_bytes rest)

  -- The bytes of a SUBACK.
  pub parse-sub_ack :
      (b : SubAckBuilder) (n : ℕ) (rest : Bytes)
      → SubAck.Frame.IsSendable b
      → len_from_u32 (SubAck.Frame.body_len b) ≡ ok n
      → parse (SubAck.Frame.frame n b ++ rest) ≡ ok (sub_ack (SubAck.Frame.parsed b), rest)
  unfolding parse_as
  parse-sub_ack b n rest s e =
      parse_typed PacketType.sub_ack (default_flags PacketType.sub_ack) _
        (default_flags_small PacketType.sub_ack) (default_flags-valid PacketType.sub_ack)
      ∙ ap (map_ok (wrap sub_ack)) (SubAck.RoundTrip.parse-frame_bytes b n rest s e)

module _ ⦃z : Zerocopy⦄ ⦃f : Bitflags⦄ ⦃m : Memchr⦄ {W : Type 0} ⦃writer : Write W⦄ where
  received :
      {A : Type 0} (t : ControlPacketType) (fl : ℕ) (packet : A → Packet)
      (one : Bytes → Result (A × Bytes) Error) {send : Io W ℕ} {P : A → Type 0}
      → fl < 16
      → validate_type_flags t fl ≡ ok tt
      → ((buf : Bytes) → parse_as t buf ≡ map_ok (wrap packet) (one buf))
      → DeliversAs {W = W} t fl send one P
      → Delivers {W = W} send parse (λ (p : Packet). (this : A) × (p ≡ packet this) × P this)
  received t fl packet one small valid same (tail, this, emits, read, holds) = (
    encode_type_and_flags t fl ∷ tail,
    packet this,
    emits,
    λ rest.
        parse_typed t fl (tail ++ rest) small valid
        ∙ same _
        ∙ ap (map_ok (wrap packet)) (read rest),
    (this, refl, holds),
  )

  -- Every PUBLISH that may be sent is received as that PUBLISH, whatever follows it, with the
  -- topic, payload, flags and identifier that were given.
  pub publish-Delivers :
      (b : PublishBuilder)
      → Publish.RoundTrip.IsSendable b
      → Delivers {W = W} (Publish.Write.write_sync b) parse (λ (p : Packet).
        (this : Publish.Publish) × (p ≡ publish this) × Publish.RoundTrip.Same b this)
  unfolding parse_as
  publish-Delivers b s =
      received PacketType.publish b.flags publish Publish.parse s.flags (publish_valid b.flags)
        (λ buf. refl) (Publish.RoundTrip.Publish-DeliversAs b s)

  -- The same for a SUBACK with a non-zero identifier whose codes fit the remaining length.
  pub sub_ack-Delivers :
      (b : SubAckBuilder)
      → SubAck.Frame.IsSendable b
      → Delivers {W = W} (SubAck.Write.write_sync b) parse (λ (p : Packet).
        (this : SubAck.SubAck) × (p ≡ sub_ack this)
        × ((PacketId.read this.pkid ≡ some b.pkid) × (this.return_codes ≡ b.return_codes)))
  unfolding parse_as
  sub_ack-Delivers b s =
      received PacketType.sub_ack (default_flags PacketType.sub_ack) sub_ack SubAck.parse
        (default_flags_small PacketType.sub_ack) (default_flags-valid PacketType.sub_ack)
        (λ buf. refl) (SubAck.RoundTrip.SubAck-DeliversAs b s)

  -- A packet with its default flags.
  received_default :
      {A : Type 0} (t : ControlPacketType) (packet : A → Packet)
      (one : Bytes → Result (A × Bytes) Error) {send : Io W ℕ} {P : A → Type 0}
      → ((buf : Bytes) → parse_as t buf ≡ map_ok (wrap packet) (one buf))
      → DeliversAs {W = W} t (default_flags t) send one P
      → Delivers {W = W} send parse (λ (p : Packet). (this : A) × (p ≡ packet this) × P this)
  received_default t packet one =
      received t (default_flags t) packet one (default_flags_small t) (default_flags-valid t)

  -- For every non-zero identifier: each of the five acknowledgements that carry only that
  -- identifier is received as that packet, with the identifier, whatever follows it.
  pub acks-Delivers :
      (v : ℕ)
      → IsNonZero v
      → Delivers {W = W} (PubAck.Write.write_sync v) parse (λ (p : Packet).
        (this : PubAck.PubAck) × (p ≡ pub_ack this) × (PacketId.read this.pkid ≡ some v))
        × Delivers {W = W} (PubRec.Write.write_sync v) parse (λ (p : Packet).
          (this : PubRec.PubRec) × (p ≡ pub_rec this) × (PacketId.read this.pkid ≡ some v))
        × Delivers {W = W} (PubRel.Write.write_sync v) parse (λ (p : Packet).
          (this : PubRel.PubRel) × (p ≡ pub_rel this) × (PacketId.read this.pkid ≡ some v))
        × Delivers {W = W} (PubComp.Write.write_sync v) parse (λ (p : Packet).
          (this : PubComp.PubComp) × (p ≡ pub_comp this) × (PacketId.read this.pkid ≡ some v))
        × Delivers {W = W} (UnsubAck.Write.write_sync v) parse (λ (p : Packet).
          (this : UnsubAck.UnsubAck) × (p ≡ unsub_ack this) × (PacketId.read this.pkid ≡ some v))
  unfolding parse_as
  acks-Delivers v h = (
    received_default PacketType.pub_ack pub_ack PubAck.parse (λ buf. refl)
        (PubAck.Write.PubAck-DeliversAs v h),
    received_default PacketType.pub_rec pub_rec PubRec.parse (λ buf. refl)
        (PubRec.Write.PubRec-DeliversAs v h),
    received_default PacketType.pub_rel pub_rel PubRel.parse (λ buf. refl)
        (PubRel.Write.PubRel-DeliversAs v h),
    received_default PacketType.pub_comp pub_comp PubComp.parse (λ buf. refl)
        (PubComp.Write.PubComp-DeliversAs v h),
    received_default PacketType.unsub_ack unsub_ack UnsubAck.parse (λ buf. refl)
        (UnsubAck.Write.UnsubAck-DeliversAs v h),
  )

  -- A PINGRESP is received as a PINGRESP, whatever follows it.
  pub ping_resp-Delivers : Delivers {W = W} PingResp.Write.write_sync parse (λ (p : Packet).
      (this : PingResp.PingResp) × (p ≡ ping_resp this) × (this ≡ PingResp.ping_resp))
  unfolding parse_as
  ping_resp-Delivers =
      received_default PacketType.ping_resp ping_resp PingResp.parse (λ buf. refl)
        PingResp.Write.PingResp-DeliversAs

-- The packets that only a client sends.
abbrev pub is_from_client : ControlPacketType → Bool
is_from_client PacketType.connect = true
is_from_client PacketType.subscribe = true
is_from_client PacketType.unsubscribe = true
is_from_client PacketType.ping_req = true
is_from_client PacketType.disconnect = true
is_from_client _ = false

module _ ⦃z : Zerocopy⦄ ⦃f : Bitflags⦄ ⦃m : Memchr⦄ where
  parse_as-client :
      (t : ControlPacketType) (buf : Bytes)
      → is_from_client t ≡ true
      → parse_as t buf ≡ err (error invalid "packet type received")
  unfolding parse_as
  parse_as-client PacketType.connect buf h = refl
  parse_as-client PacketType.subscribe buf h = refl
  parse_as-client PacketType.unsubscribe buf h = refl
  parse_as-client PacketType.ping_req buf h = refl
  parse_as-client PacketType.disconnect buf h = refl
  parse_as-client _ buf h = cc

  -- A buffer that starts with the type and flags of a packet that only a client sends is refused,
  -- whatever follows.
  pub parse-is_from_client :
      (t : ControlPacketType) (tail : Bytes)
      → is_from_client t ≡ true
      → parse (encode_type_and_flags t (default_flags t) ∷ tail)
        ≡ err (error invalid "packet type received")
  parse-is_from_client t tail h =
      parse_typed t (default_flags t) tail (default_flags_small t) (default_flags-valid t)
      ∙ parse_as-client t _ h
