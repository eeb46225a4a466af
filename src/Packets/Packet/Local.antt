-- ===== src/Packets/Packet/Local.antt =====
-- The packet that a client receives depends on its own bytes only.
use mcutt.Common.{ℕ, ◌≤◌, ◌≡◌, refl, sym, ap, ◌∙◌, some, [], ◌∷◌, ◌++◌, length, get_elem?, arith}
use mcutt.Bytes.{Bytes, Error, error, invalid, not_enough_space, ok, err, ok_or}
use mcutt.Bytes.Try.{bind-ok, ok_or-eq-ok}
use mcutt.Bytes.Local.{IsLocal, IsLocal-map_ok}
use mcutt.External.Zerocopy.{Zerocopy}
use mcutt.External.Bitflags.{Bitflags}
use mcutt.External.Memchr.{Memchr}
use mcutt.Fixed.PacketType
use mcutt.Fixed.PacketType.{ControlPacketType}
use mcutt.Packets.ConnAck
use mcutt.Packets.Publish
use mcutt.Packets.PubAck
use mcutt.Packets.PubRec
use mcutt.Packets.PubRel
use mcutt.Packets.PubComp
use mcutt.Packets.SubAck
use mcutt.Packets.UnsubAck
use mcutt.Packets.PingResp
use mcutt.Packets.Packet.{
  Packet, publish, conn_ack, pub_ack, pub_rec, pub_rel, pub_comp, sub_ack, unsub_ack, ping_resp,
  parse_as, parse,
}

IsLocal-err : {A : Type 0} (n : ℕ) (e : Error) → IsLocal {A = A} n (λ bs. err e)
IsLocal-err n e bs a rest h = cc h

same_first :
    (used rest more : Bytes)
    → 2 ≤ length used
    → get_elem? (used ++ more) 0 ≡ get_elem? (used ++ rest) 0
same_first [] rest more h = absurd (omega arith)
same_first (b ∷ bs) rest more h = refl

module _ ⦃z : Zerocopy⦄ ⦃f : Bitflags⦄ ⦃m : Memchr⦄ where
  parse_first :
      (bs : Bytes) (first flags : ℕ) (t : ControlPacketType)
      → get_elem? bs 0 ≡ some first
      → PacketType.parse first ≡ ok (t, flags)
      → parse bs ≡ parse_as t bs
  unfolding parse
  parse_first bs first flags t got typed = rw (got, typed)

  parse_as-IsLocal : (t : ControlPacketType) → IsLocal 2 (parse_as t)
  unfolding parse_as
  parse_as-IsLocal PacketType.conn_ack = IsLocal-map_ok 2 _ conn_ack ConnAck.Local.parse-IsLocal
  parse_as-IsLocal PacketType.publish = IsLocal-map_ok 2 _ publish Publish.Local.parse-IsLocal
  parse_as-IsLocal PacketType.pub_ack = IsLocal-map_ok 2 _ pub_ack PubAck.Write.parse-IsLocal
  parse_as-IsLocal PacketType.pub_rec = IsLocal-map_ok 2 _ pub_rec PubRec.Write.parse-IsLocal
  parse_as-IsLocal PacketType.pub_rel = IsLocal-map_ok 2 _ pub_rel PubRel.Write.parse-IsLocal
  parse_as-IsLocal PacketType.pub_comp = IsLocal-map_ok 2 _ pub_comp PubComp.Write.parse-IsLocal
  parse_as-IsLocal PacketType.sub_ack = IsLocal-map_ok 2 _ sub_ack SubAck.Local.parse-IsLocal
  parse_as-IsLocal PacketType.unsub_ack = IsLocal-map_ok 2 _ unsub_ack UnsubAck.Write.parse-IsLocal
  parse_as-IsLocal PacketType.ping_resp = IsLocal-map_ok 2 _ ping_resp PingResp.Write.parse-IsLocal
  parse_as-IsLocal _ = IsLocal-err 2 (error invalid "packet type received")

  -- Of every buffer that `parse` accepts: a front of two bytes or more was taken, what follows is left
  -- as it was, and behind that front any other bytes are left and the same packet is returned.
  pub parse-IsLocal :
      (buf rest : Bytes) (packet : Packet)
      → parse buf ≡ ok (packet, rest)
      → (used : Bytes) × (buf ≡ used ++ rest)
        × (2 ≤ length used)
        × ((more : Bytes) → parse (used ++ more) ≡ ok (packet, more))
  unfolding parse
  parse-IsLocal buf rest packet h =
      let (first, h', got) =
        bind-ok _ (ok_or (error not_enough_space "empty buffer") (get_elem? buf 0)) h in
      let ((t, flags), h'', typed) = bind-ok _ (PacketType.parse first) h' in
      let l = parse_as-IsLocal t buf packet rest h'' in
      let here : get_elem? buf 0 ≡ some first = ok_or-eq-ok _ _ got in
      (
        l.used,
        l.splits,
        l.least,
        λ more.
            parse_first (l.used ++ more) first flags t
              (same_first l.used rest more l.least
                ∙ (ap (λ bs. get_elem? bs 0) (sym l.splits) ∙ here))
              typed
            ∙ l.again more,
      )
