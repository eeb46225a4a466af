-- ===== src/Packets/Packet/AnyLength.antt =====
-- The packets of fixed length, whose parsers do not look at the remaining length of the header.
use mcutt.Common.{
  ℕ, ◌≡◌, refl, ap, ◌∙◌, some, ◌++◌, length, ◌+◌, ◌<◌, replicate, length-replicate, length-append,
  arith,
}
use mcutt.Bytes.{Bytes, Error, Result, ok}
use mcutt.Bytes.Try.{map_ok}
use mcutt.External.Zerocopy.{Zerocopy}
use mcutt.External.Bitflags.{Bitflags}
use mcutt.External.Memchr.{Memchr}
use mcutt.Fixed.PacketType
use mcutt.Fixed.PacketType.{ControlPacketType, default_flags}
use mcutt.Fixed.Header
use mcutt.Fixed.Header.Frame.{next_frame-header_bytes}
use mcutt.Fixed.RemainingLength.Encoding.{len_from_u32_small}
use mcutt.Fixed.PacketType.RoundTrip.{default_flags_small, default_flags-valid}
use mcutt.Fields.PacketId.{PacketId, IsNonZero}
use mcutt.Packets.Short.{short_bytes, length-short_bytes}
use mcutt.Packets.Packet.Dispatch.{parse_typed}
use mcutt.Packets.PubAck
use mcutt.Packets.PubRec
use mcutt.Packets.PubRel
use mcutt.Packets.PubComp
use mcutt.Packets.UnsubAck
use mcutt.Packets.PingResp
use mcutt.Packets.Packet.{
  Packet, pub_ack, pub_rec, pub_rel, pub_comp, unsub_ack, ping_resp, wrap, parse_as, parse,
}

next_frame-short_bytes :
    (t : ControlPacketType) (len : ℕ) (body : Bytes)
    → len < 128
    → Header.next_frame (short_bytes t len ++ body) ≡ ok (some (2 + len))
next_frame-short_bytes t len body small =
    let zeros : Bytes = replicate len 0 in
    let count : length zeros ≡ len = length-replicate len 0 in
    let framed =
      next_frame-header_bytes t (default_flags t) 1 zeros body
        (len_from_u32_small (length zeros) (omega (arith, count, small))) in
    (rw count at framed)
    ∙ ap (λ k. ok (some k))
        (omega (arith, count, length-append (short_bytes t len) zeros, length-short_bytes t len))

module _ ⦃z : Zerocopy⦄ ⦃f : Bitflags⦄ ⦃m : Memchr⦄ where
  abbrev pub id_of : ℕ → PacketId
  id_of v = record { pkid = z.u16_bytes v }

  -- `next_frame` goes by the header, and `parse` takes the packet and leaves `rest`.
  abbrev pub Takes : ControlPacketType → ℕ → Bytes → Packet → Bytes → Type 0
  Takes t len body packet rest =
      (Header.next_frame (short_bytes t len ++ body) ≡ ok (some (2 + len)))
      × (parse (short_bytes t len ++ body) ≡ ok (packet, rest))

  as_typed :
      (t : ControlPacketType) (len : ℕ) (body : Bytes)
      → parse (short_bytes t len ++ body) ≡ parse_as t (short_bytes t len ++ body)
  as_typed t len body =
      parse_typed t (default_flags t) _ (default_flags_small t) (default_flags-valid t)

  takes :
      {A : Type 0} (t : ControlPacketType) (packet : A → Packet)
      (one : Bytes → Result (A × Bytes) Error) (len : ℕ) (body rest : Bytes) (a : A)
      → len < 128
      → ((buf : Bytes) → parse_as t buf ≡ map_ok (wrap packet) (one buf))
      → one (short_bytes t len ++ body) ≡ ok (a, rest)
      → Takes t len body (packet a) rest
  takes t packet one len body rest a small same h = (
    next_frame-short_bytes t len body small,
    as_typed t len body ∙ same _ ∙ ap (map_ok (wrap packet)) h,
  )

  -- Whatever remaining length below 128 the header gives, and so wherever `next_frame` ends the
  -- packet: as each of the five acknowledgements that carry only an identifier `parse` takes the
  -- identifier and leaves what follows it, and as a PINGRESP it takes the header only.
  pub acks-any_length :
      (len v : ℕ) (rest : Bytes)
      → len < 128
      → IsNonZero v
      → Takes PacketType.pub_ack len
          (z.u16_bytes v ++ rest)
          (pub_ack (record { pkid = id_of v }))
          rest
        × Takes PacketType.pub_rec len
            (z.u16_bytes v ++ rest)
            (pub_rec (record { pkid = id_of v }))
            rest
        × Takes PacketType.pub_rel len
            (z.u16_bytes v ++ rest)
            (pub_rel (record { pkid = id_of v }))
            rest
        × Takes PacketType.pub_comp len
            (z.u16_bytes v ++ rest)
            (pub_comp (record { pkid = id_of v }))
            rest
        × Takes PacketType.unsub_ack len
            (z.u16_bytes v ++ rest)
            (unsub_ack (record { pkid = id_of v }))
            rest
        × Takes PacketType.ping_resp len rest (ping_resp PingResp.ping_resp) rest
  unfolding parse_as
  acks-any_length len v rest small h =
      let body = z.u16_bytes v ++ rest in
      (
        takes PacketType.pub_ack pub_ack PubAck.parse len body rest _ small (λ buf. refl)
            (PubAck.Write.parse-any_length len v rest small h),
        takes PacketType.pub_rec pub_rec PubRec.parse len body rest _ small (λ buf. refl)
            (PubRec.Write.parse-any_length len v rest small h),
        takes PacketType.pub_rel pub_rel PubRel.parse len body rest _ small (λ buf. refl)
            (PubRel.Write.parse-any_length len v rest small h),
        takes PacketType.pub_comp pub_comp PubComp.parse len body rest _ small (λ buf. refl)
            (PubComp.Write.parse-any_length len v rest small h),
        takes PacketType.unsub_ack unsub_ack UnsubAck.parse len body rest _ small (λ buf. refl)
            (UnsubAck.Write.parse-any_length len v rest small h),
        takes PacketType.ping_resp ping_resp PingResp.parse len rest rest _ small (λ buf. refl)
            (PingResp.Write.parse-any_length len rest small),
      )
