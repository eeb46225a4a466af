-- ===== src/Packets/Connect/RoundTrip.antt =====
-- A CONNECT that is written is read back.
use mathlib.Core.Option
use mcutt.Common.{◌≡◌, refl, ◌∙◌, ap, ◌++◌, append_assoc, arith}
use mcutt.Bytes.{Bytes, ok}
use mcutt.Bytes.Io.{Write}
use mcutt.Bytes.Emits.{Delivers}
use mcutt.External.Zerocopy.{Zerocopy}
use mcutt.External.Bitflags.{Bitflags}
use mcutt.Fixed.PacketType
use mcutt.Fixed.PacketType.{default_flags}
use mcutt.Fixed.Header.{FixedHeader}
use mcutt.Fields.Buff
use mcutt.Fields.Buff.{Buff}
use mcutt.Fields.Buff.Write.{buff_bytes, length-buff_bytes, parse-buff_bytes}
use mcutt.Fields.MqttStr
use mcutt.Fields.MqttStr.{MqttStr}
use mcutt.Fields.MqttStr.Write.{IsText, encode_len_fits, parse-buff_bytes-IsText}
use mcutt.Packets.Framed.{DeliversAs-Delivers}
use mcutt.Packets.Framed.Body.{Reads, body-DeliversAs}
use mcutt.Packets.Optional.Reading.{part_bytes, IfSome-map, validate_part-map, parse_part-lem}
use mcutt.Packets.ConnectParts.Flags
use mcutt.Packets.ConnectParts.Header.{as_bytes}
use mcutt.Packets.ConnectParts.Header
use mcutt.Packets.ConnectParts.Header.Write.{header_of}
use mcutt.Packets.ConnectParts.ClientId
use mcutt.Packets.ConnectParts.ClientId.Write.{IsClientId, read_client_id}
use mcutt.Packets.ConnectParts.Will.{Will, WillMsg}
use mcutt.Packets.ConnectParts.Will
use mcutt.Packets.ConnectParts.Will.Write.{
  IsWill, will_len, will_bytes, length-will_bytes, read_will,
}
use mcutt.Packets.Connect.{Connect, validate, parse}
use mcutt.Packets.Connect.Builder.{ConnectBuilder}
use mcutt.Packets.Connect.Write.{write_sync}
use mcutt.Packets.Connect.Frame.{
  Agrees, HasParts, IsShort, tail_parts, regroup_head, body, read_str, read_buff, parsed,
  body_len_lt, length-body, write_sync-Writes,
}

module _ ⦃z : Zerocopy⦄ ⦃f : Bitflags⦄ {b : ConnectBuilder} (p : HasParts b) (g : Agrees b)
    (i : IsClientId b.client_id) where
  validate-parsed :
      (h : FixedHeader)
      → mcutt.Fixed.Header.packet_type h ≡ ok PacketType.connect
      → validate (parsed b h) ≡ ok tt
  unfolding validate
  validate-parsed h ty = rw (
    ty,
    Header.Write.validate-header_of b.flags b.keepalive g.reserved,
    ClientId.Write.validate-read_client_id b.client_id i,
    validate_part-map Will.validate read_will b.will
        (IfSome-map (λ w (k : IsWill w). Will.Write.validate_lem (read_will w)) b.will p.will),
    validate_part-map MqttStr.validate read_str b.username (
        IfSome-map (λ s (t : IsText s). MqttStr.Write.validate-ok (read_str s) t.allowed) b.username
          p.username),
    validate_part-map Buff.validate read_buff b.password (
        IfSome-map (λ s (t : IsShort s). Buff.Write.validate_lem (read_buff s)) b.password
          p.password),
  )

  regroup :
      (rest : Bytes)
      → body b ++ rest
        ≡ as_bytes (header_of b.flags b.keepalive)
          ++ (buff_bytes b.client_id
              ++ (part_bytes will_bytes b.will
                  ++ (part_bytes buff_bytes b.username
                      ++ (part_bytes buff_bytes b.password ++ rest))))
  regroup rest =
      let pass = part_bytes buff_bytes b.password in
      let user = part_bytes buff_bytes b.username in
      let will_at = part_bytes will_bytes b.will in
      let hdr = as_bytes (header_of b.flags b.keepalive) in
      let tail : tail_parts b ++ rest ≡ will_at ++ (user ++ (pass ++ rest)) =
        append_assoc will_at (user ++ pass) rest
        ∙ ap (λ t. will_at ++ t) (append_assoc user pass rest) in
      regroup_head b rest ∙ ap (λ t. hdr ++ (buff_bytes b.client_id ++ t)) tail

  parse-Reads : Reads PacketType.connect parse (body b) (parsed b)
  unfolding parse
  parse-Reads buf rest h head ty len =
      let will_at = part_bytes will_bytes b.will in
      let pass_at = part_bytes buff_bytes b.password ++ rest in
      let user_at = part_bytes buff_bytes b.username ++ pass_at in
      rw (
        head,
        regroup rest,
        Header.Write.parse-header_of b.flags b.keepalive
            (buff_bytes b.client_id ++ (will_at ++ user_at)) g.reserved p.keepalive,
        ClientId.Write.parse-client_id b.client_id (will_at ++ user_at) i,
        parse_part-lem Will.parse will_bytes read_will (f.contains b.flags Flags.will_flag) b.will
            user_at g.will (IfSome-map (λ w. Will.Write.parse-will_bytes w user_at) b.will p.will),
        parse_part-lem MqttStr.parse buff_bytes read_str (f.contains b.flags Flags.username)
            b.username pass_at g.username
            (IfSome-map (λ s. parse-buff_bytes-IsText s pass_at) b.username p.username),
        parse_part-lem Buff.parse buff_bytes read_buff (f.contains b.flags Flags.password)
            b.password rest g.password
            (IfSome-map (λ s. parse-buff_bytes s rest) b.password p.password),
        validate-parsed h ty,
      )

module _ ⦃z : Zerocopy⦄ where
  -- What was sent, as the receiver reads it.
  abbrev pub Same : ConnectBuilder → Connect → Type 0
  Same b this =
      (this.header ≡ header_of b.flags b.keepalive)
      × (this.client_id.id.text ≡ b.client_id)
      × (this.will ≡ Option.map read_will b.will)
      × (this.username ≡ Option.map read_str b.username)
      × (this.password ≡ Option.map read_buff b.password)

module _ ⦃z : Zerocopy⦄ ⦃f : Bitflags⦄ {W : Type 0} ⦃writer : Write W⦄ where
  -- For every request whose client id is one that a receiver accepts, whose will, user name and
  -- password may be sent, and whose flags say which of them are there: on any writer `write_sync`
  -- writes it and returns its length, unless the writer fails, and `parse` takes exactly that packet
  -- off any buffer, with the header, client id, will, user name and password that were given.
  pub Connect-Delivers :
      (b : ConnectBuilder)
      → HasParts b
      → Agrees b
      → IsClientId b.client_id
      → Delivers {W = W} (write_sync b) parse (Same b)
  Connect-Delivers b p g i =
      DeliversAs-Delivers PacketType.connect (default_flags PacketType.connect) parse (
        body-DeliversAs PacketType.connect (body b) (parsed b) parse
          (omega (arith, length-body p, body_len_lt p)) (write_sync-Writes p g) (parse-Reads p g i)
          (λ h. (refl, refl, refl, refl, refl)))
