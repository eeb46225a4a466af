-- ===== src/Packets/Publish/RoundTrip.antt =====
-- A PUBLISH that is written is read back.
use mcutt.Common.{
  ℕ, ◌+◌, ◌<◌, ◌≡◌, refl, sym, true, false, Option, none, some, [], ◌++◌, append_assoc, length,
  length-append, split_at_checked-append, arith,
}
use mcutt.Bytes.{usize_mod, Bytes, ok, usize_add}
use mcutt.Bytes.Io.{Write}
use mcutt.Bytes.Emits.{
  Emits, Delivers, Emits-pure, Emits-bind, Emits-lift_bind, Emits-return, Emits-write_all,
}
use mcutt.External.Zerocopy.{Zerocopy}
use mcutt.External.Bitflags.{Bitflags}
use mcutt.External.Memchr.{Memchr}
use mcutt.Fixed.RemainingLength
use mcutt.Fixed.RemainingLength.{len_from_u32, encode_to_array}
use mcutt.Fixed.RemainingLength.Encoding.{
  len_from_u32_total, len_from_u32-Needs, length-encode_to_array,
}
use mcutt.Fixed.TypeFlags
use mcutt.Fixed.PacketType
use mcutt.Fixed.PacketType.RoundTrip.{publish_valid}
use mcutt.Fixed.Header
use mcutt.Fixed.Header.{FixedHeader}
use mcutt.Fixed.Header.Builder.Emits.{header_bytes, write_header-Emits}
use mcutt.Fixed.Header.RoundTrip.{header, parse-header_bytes}
use mcutt.Fields.PacketId
use mcutt.Fields.PacketId.{PacketId, IsNonZero}
use mcutt.Fields.PacketId.Write.{length-u16_bytes, parse-u16_bytes}
use mcutt.Fields.Buff.Write.{buff_bytes, length-buff_bytes}
use mcutt.Fields.MqttStr
use mcutt.Fields.MqttStr.{MqttStr}
use mcutt.Fields.MqttStr.Write.{IsText, parse-buff_bytes-IsText}
use mcutt.Fields.Topic.{contains_wildcard_char}
use mcutt.Packets.Framed.{DeliversAs, DeliversAs-Delivers}
use mcutt.Packets.Publish.{Publish, validate, parse_packet_id, parse}
use mcutt.Packets.Publish.Builder.{PublishBuilder}
use mcutt.Packets.Publish.Write.{validate_value, encode_len, add_pkid, write_pkid, write_sync}

abbrev pub pkid_len : Option ℕ → ℕ
pkid_len none = 0
pkid_len (some v) = 2

-- The remaining length of the packet.
abbrev pub body_len : PublishBuilder → ℕ
body_len b = 2 + length b.topic + pkid_len b.pkid + length b.payload

add_pkid-ok :
    (o : Option ℕ) (len : ℕ) → len + pkid_len o < usize_mod → add_pkid o len ≡ ok (len + pkid_len o)
add_pkid-ok none len h = ground arith
add_pkid-ok (some v) len h = rw (PacketId.Write.encode_len_lem v) (ground arith)

-- The length is computed as long as a `usize` holds it.
pub encode_len-fits : (b : PublishBuilder) → body_len b < usize_mod → encode_len b ≡ ok (body_len b)
unfolding encode_len
encode_len-fits b h =
    rw
      (
        MqttStr.Write.encode_len_fits b.topic (omega (arith, h)),
        add_pkid-ok b.pkid (2 + length b.topic) (omega (arith, h)),
      )
      (ground (arith, h))

module _ ⦃f : Bitflags⦄ where
  -- The identifier is there exactly with a QoS flag, and is not zero.
  abbrev pub HasPkid : ℕ → Option ℕ → Type 0
  HasPkid flags none =
      f.intersects flags (f.union TypeFlags.publish_qos_1 TypeFlags.publish_qos_2) ≡ false
  HasPkid flags (some v) =
      (f.intersects flags (f.union TypeFlags.publish_qos_1 TypeFlags.publish_qos_2) ≡ true)
      × IsNonZero v

module _ ⦃f : Bitflags⦄ ⦃m : Memchr⦄ where
  -- What a message must satisfy to be sent.
  pub record IsSendable (b : PublishBuilder) : Type 0 where
    pub topic : IsText b.topic
    pub plain : contains_wildcard_char b.topic ≡ false
    pub flags : b.flags < 16
    pub pkid : HasPkid b.flags b.pkid
    pub fits : body_len b < 268435456

module _ ⦃z : Zerocopy⦄ where
  abbrev pub pkid_part : Option ℕ → Bytes
  pkid_part none = []
  pkid_part (some v) = z.u16_bytes v

  abbrev pub body : PublishBuilder → Bytes
  body b = buff_bytes b.topic ++ (pkid_part b.pkid ++ b.payload)

  -- `PacketId::read` on the identifier of a packet.
  abbrev pub read_pkid : Option PacketId → Option ℕ
  read_pkid none = none
  read_pkid (some p) = PacketId.read p

  abbrev parsed_pkid : Option ℕ → Option PacketId
  parsed_pkid none = none
  parsed_pkid (some v) = some (record { pkid = z.u16_bytes v })

module _ ⦃z : Zerocopy⦄ ⦃f : Bitflags⦄ where
  length-pkid_part :
      (flags : ℕ) (o : Option ℕ) → HasPkid flags o → length (pkid_part o) ≡ pkid_len o
  length-pkid_part flags none h = refl
  length-pkid_part flags (some v) h = length-u16_bytes v h.1.1

  read_pkid-parsed : (flags : ℕ) (o : Option ℕ) → HasPkid flags o → read_pkid (parsed_pkid o) ≡ o
  read_pkid-parsed flags none h = refl
  read_pkid-parsed flags (some v) h = (parse-u16_bytes v [] h.1).1

module _ ⦃z : Zerocopy⦄ ⦃f : Bitflags⦄ ⦃m : Memchr⦄ where
  pub length-body : (b : PublishBuilder) → IsSendable b → length (body b) ≡ body_len b
  length-body b s = omega (
    arith,
    length-append (buff_bytes b.topic) (pkid_part b.pkid ++ b.payload),
    length-append (pkid_part b.pkid) b.payload,
    length-buff_bytes b.topic s.topic.short,
    length-pkid_part b.flags b.pkid s.pkid,
  )

  parse_packet_id-lem :
      (h : FixedHeader) (o : Option ℕ) (payload : Bytes)
      → HasPkid (Header.flags h) o
      → parse_packet_id h (pkid_part o ++ payload) ≡ ok (parsed_pkid o, payload)
  unfolding parse_packet_id
  parse_packet_id-lem h none payload c = rw c
  parse_packet_id-lem h (some v) payload c = rw (c.0, (parse-u16_bytes v payload c.1).0)

  validate_value-ok :
      (b : PublishBuilder) → contains_wildcard_char b.topic ≡ false → validate_value b ≡ ok tt
  unfolding validate_value
  validate_value-ok b plain = rw plain

-- What `write_sync` adds up.
abbrev total : ℕ → PublishBuilder → ℕ
total n b =
    usize_add (usize_add (usize_add (n + 1) (2 + length b.topic)) (pkid_len b.pkid))
      (length b.payload)

-- The frame of a message whose remaining length takes `n` bytes.
module _ ⦃z : Zerocopy⦄ where
  abbrev pub frame : ℕ → PublishBuilder → Bytes
  frame n b = header_bytes PacketType.publish b.flags n (body_len b) ++ body b

module _ ⦃z : Zerocopy⦄ ⦃f : Bitflags⦄ ⦃m : Memchr⦄ {W : Type 0} ⦃writer : Write W⦄ where
  write_pkid-Emits : (o : Option ℕ) → Emits {W = W} (pkid_part o) (pkid_len o) (write_pkid o)
  write_pkid-Emits none = Emits-pure 0
  write_pkid-Emits (some v) = PacketId.Write.write_sync-Emits v

  write_sync-total :
      (b : PublishBuilder) (n : ℕ)
      → IsText b.topic
      → contains_wildcard_char b.topic ≡ false
      → body_len b < 268435456
      → len_from_u32 (body_len b) ≡ ok n
      → Emits {W = W} (frame n b) (total n b) (write_sync b)
  unfolding write_sync
  write_sync-total b n topic plain fits h = Emits-lift_bind _ (validate_value-ok b plain) (
      Emits-lift_bind _ (encode_len-fits b (omega (arith, fits))) (
        Emits-bind _
          (write_header-Emits PacketType.publish b.flags (body_len b) n (publish_valid b.flags) h)
          (Emits-bind _ (MqttStr.Write.write_sync-Emits b.topic topic) (
            Emits-bind _ (write_pkid-Emits b.pkid)
              (Emits-return (λ u. total n b) (Emits-write_all _ _))))))

module _ ⦃z : Zerocopy⦄ ⦃f : Bitflags⦄ ⦃m : Memchr⦄ where
  total-length :
      (b : PublishBuilder) (n : ℕ)
      → length (body b) ≡ body_len b
      → len_from_u32 (body_len b) ≡ ok n
      → body_len b < 268435456
      → total n b ≡ length (frame n b)
  total-length b n len h fits = omega (
    arith,
    length-append (encode_to_array n (body_len b)) (body b),
    length-encode_to_array n (body_len b),
    len,
    (len_from_u32-Needs (body_len b) n h).1,
    fits,
  )

  -- What was sent, as the receiver reads it.
  abbrev pub Same : PublishBuilder → Publish → Type 0
  Same b this =
      (this.topic.text ≡ b.topic)
      × (this.payload ≡ b.payload)
      × (Header.flags this.fixed ≡ b.flags)
      × (read_pkid this.packet_id ≡ b.pkid)

  abbrev parsed : PublishBuilder → FixedHeader → Publish
  parsed b h = record {
    fixed = h;
    topic = record { len = z.u16_bytes (length b.topic); text = b.topic };
    packet_id = parsed_pkid b.pkid;
    payload = b.payload;
  }

  parse-frame :
      (b : PublishBuilder) (n : ℕ) (rest : Bytes) (h : FixedHeader)
      → IsSendable b
      → Header.parse (frame n b ++ rest) ≡ ok (h, body b ++ rest)
      → Header.flags h ≡ b.flags
      → RemainingLength.read_len h.remaining_length ≡ body_len b
      → parse (frame n b ++ rest) ≡ ok (parsed b h, rest)
  unfolding parse validate
  parse-frame b n rest h s header fl len = rw (
    header,
    len,
    split_at_checked-append (body b) rest (body_len b) (sym (length-body b s)),
    parse-buff_bytes-IsText b.topic (pkid_part b.pkid ++ b.payload) s.topic,
    parse_packet_id-lem h b.pkid b.payload (rw fl s.pkid),
    s.plain,
  )

  -- The frame of a message that may be sent is parsed as that message.
  pub frame-Reads :
      (b : PublishBuilder) (n : ℕ)
      → IsSendable b
      → len_from_u32 (body_len b) ≡ ok n
      → (this : Publish) × ((rest : Bytes) → parse (frame n b ++ rest) ≡ ok (this, rest))
        × Same b this
  frame-Reads b n s e =
      let read = λ (rest : Bytes).
        parse-header_bytes PacketType.publish b.flags (body_len b) n rest s.flags
          (publish_valid b.flags) e in
      let h : FixedHeader = header PacketType.publish b.flags n (body_len b) in
      (
        parsed b h,
        λ rest.
            let (p, t, fl, len) = read (body b ++ rest) in
            parse-frame b n rest h s
              (rw (append_assoc (encode_to_array n (body_len b)) (body b) rest) p) fl len,
        (refl, refl, (read []).2, read_pkid-parsed b.flags b.pkid s.pkid),
      )

module _ ⦃z : Zerocopy⦄ ⦃f : Bitflags⦄ ⦃m : Memchr⦄ {W : Type 0} ⦃writer : Write W⦄ where
  -- A message is written as its frame, whatever the flags say of the identifier.
  pub write_sync-frame :
      (b : PublishBuilder) (n : ℕ)
      → IsText b.topic
      → contains_wildcard_char b.topic ≡ false
      → length (body b) ≡ body_len b
      → body_len b < 268435456
      → len_from_u32 (body_len b) ≡ ok n
      → Emits {W = W} (frame n b) (length (frame n b)) (write_sync b)
  write_sync-frame b n topic plain len fits e =
      rw (← total-length b n len e fits) (write_sync-total b n topic plain fits e)

  -- The packet starts with the first byte of its type.
  pub Publish-DeliversAs :
      (b : PublishBuilder)
      → IsSendable b
      → DeliversAs {W = W} PacketType.publish b.flags (write_sync b) parse (Same b)
  Publish-DeliversAs b s =
      let (n, e) = len_from_u32_total (body_len b) s.fits in
      let (this, reads, same) = frame-Reads b n s e in
      (
        encode_to_array n (body_len b) ++ body b,
        this,
        write_sync-frame b n s.topic s.plain (length-body b s) s.fits e,
        reads,
        same,
      )

  -- For every message that may be sent: on any writer `write_sync` writes a PUBLISH and returns its
  -- length, unless the writer fails, and `parse` takes exactly that packet off any buffer, with
  -- the topic, payload, flags and identifier that were given.
  pub Publish-Delivers :
      (b : PublishBuilder) → IsSendable b → Delivers {W = W} (write_sync b) parse (Same b)
  Publish-Delivers b s =
      DeliversAs-Delivers PacketType.publish b.flags parse (Publish-DeliversAs b s)
