-- ===== src/Packets/Packet/Framed.antt =====
-- The packets that are parsed up to the remaining length of their header, which `next_frame` finds.
use mcutt.Common.{◌≡◌, refl, ap, Bool, true, false, some, ◌++◌, length, get_elem?}
use mcutt.Bytes.{Bytes, Error, error, not_enough_space, Result, ok, err, ok_or}
use mcutt.Bytes.Try.{map_ok, bind-ok}
use mcutt.External.Zerocopy.{Zerocopy}
use mcutt.External.Bitflags.{Bitflags}
use mcutt.External.Memchr.{Memchr}
use mcutt.Fixed.PacketType
use mcutt.Fixed.PacketType.{ControlPacketType, default_flags}
use mcutt.Fixed.Header
use mcutt.Fixed.Header.Cuts.{Cuts, next_frame-Cuts}
use mcutt.Packets.Publish
use mcutt.Packets.SubAck
use mcutt.Packets.Packet.{
  Packet, publish, conn_ack, pub_ack, pub_rec, pub_rel, pub_comp, sub_ack, unsub_ack, ping_resp,
  wrap, parse_as, parse,
}

-- The packets of varying length: PUBLISH and SUBACK.
abbrev pub is_variable : Packet → Bool
is_variable (publish p) = true
is_variable (sub_ack p) = true
is_variable _ = false

-- A wrapped result comes from a result.
unwrap :
    {A : Type 0} (g : A → Packet) (r : Result (A × Bytes) Error) (packet : Packet) (rest : Bytes)
    → map_ok (wrap g) r ≡ ok (packet, rest)
    → (a : A) × (r ≡ ok (a, rest)) × (g a ≡ packet)
unwrap g (err e) packet rest h = cc h
unwrap g (ok (a, left)) packet rest h =
    let behind : left ≡ rest = cc h in
    let same : g a ≡ packet = cc h in (a, ap (λ t. ok (a, t)) behind, same)

not_variable :
    {A : Type 0} (g : A → Packet) (r : Result (A × Bytes) Error) (packet : Packet) (rest : Bytes)
    → ((a : A) → is_variable (g a) ≡ false)
    → is_variable packet ≡ true
    → map_ok (wrap g) r ≡ ok (packet, rest)
    → ⊥
not_variable g r packet rest fixed variable h =
    let (a, e, same) = unwrap g r packet rest h in cc (fixed a, ap is_variable same, variable)

module _ ⦃z : Zerocopy⦄ ⦃f : Bitflags⦄ ⦃m : Memchr⦄ where
  parse_as-Cuts :
      (t : ControlPacketType) (buf rest : Bytes) (packet : Packet)
      → is_variable packet ≡ true
      → parse_as t buf ≡ ok (packet, rest)
      → Cuts buf rest
  unfolding parse_as
  parse_as-Cuts PacketType.publish buf rest packet v h =
      let (a, e, same) = unwrap publish _ packet rest h in Publish.Local.parse-Cuts buf rest a e
  parse_as-Cuts PacketType.sub_ack buf rest packet v h =
      let (a, e, same) = unwrap sub_ack _ packet rest h in SubAck.Local.parse-Cuts buf rest a e
  parse_as-Cuts PacketType.conn_ack buf rest packet v h =
      absurd (not_variable conn_ack _ packet rest (λ a. refl) v h)
  parse_as-Cuts PacketType.pub_ack buf rest packet v h =
      absurd (not_variable pub_ack _ packet rest (λ a. refl) v h)
  parse_as-Cuts PacketType.pub_rec buf rest packet v h =
      absurd (not_variable pub_rec _ packet rest (λ a. refl) v h)
  parse_as-Cuts PacketType.pub_rel buf rest packet v h =
      absurd (not_variable pub_rel _ packet rest (λ a. refl) v h)
  parse_as-Cuts PacketType.pub_comp buf rest packet v h =
      absurd (not_variable pub_comp _ packet rest (λ a. refl) v h)
  parse_as-Cuts PacketType.unsub_ack buf rest packet v h =
      absurd (not_variable unsub_ack _ packet rest (λ a. refl) v h)
  parse_as-Cuts PacketType.ping_resp buf rest packet v h =
      absurd (not_variable ping_resp _ packet rest (λ a. refl) v h)
  parse_as-Cuts _ buf rest packet v h = cc h

  -- Of every buffer that `parse` accepts as a PUBLISH or a SUBACK, `next_frame` finds
  -- exactly the front that `parse` took.
  pub parse-next_frame :
      (buf rest : Bytes) (packet : Packet)
      → is_variable packet ≡ true
      → parse buf ≡ ok (packet, rest)
      → (used : Bytes) × (buf ≡ used ++ rest) × (Header.next_frame buf ≡ ok (some (length used)))
  unfolding parse
  parse-next_frame buf rest packet v h =
      let (first, h', got) =
        bind-ok _ (ok_or (error not_enough_space "empty buffer") (get_elem? buf 0)) h in
      let ((t, flags), h'', typed) = bind-ok _ (PacketType.parse first) h' in
      next_frame-Cuts buf rest (parse_as-Cuts t buf rest packet v h'')
