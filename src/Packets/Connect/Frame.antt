-- ===== src/Packets/Connect/Frame.antt =====
-- The bytes of a CONNECT, and that they are written.
use mathlib.Core.Option
use mcutt.Common.{
  ℕ, ◌+◌, ◌<◌, ◌≡◌, ◌∙◌, ap, ◌++◌, append_assoc, Option, none, some, false, length, length-append,
  arith,
}
use mcutt.Bytes.{Bytes, ok, usize_add, checked_add}
use mcutt.Bytes.Io.{Write}
use mcutt.Bytes.Emits.{Emits-bind, Emits-lift_bind}
use mcutt.External.Zerocopy.{Zerocopy}
use mcutt.External.Bitflags.{Bitflags}
use mcutt.Fixed.PacketType
use mcutt.Fixed.PacketType.{default_flags}
use mcutt.Fixed.Header.{FixedHeader}
use mcutt.Fixed.Header.Builder.Emits.{write_header-new-Emits}
use mcutt.Fields.Buff
use mcutt.Fields.Buff.{Buff}
use mcutt.Fields.Buff.Write.{buff_bytes, length-buff_bytes, parse-buff_bytes}
use mcutt.Fields.MqttStr
use mcutt.Fields.MqttStr.{MqttStr}
use mcutt.Fields.MqttStr.Write.{IsText, encode_len_fits, parse-buff_bytes-IsText}
use mcutt.Packets.Framed.Body.{Writes}
use mcutt.Packets.Optional.{is_some}
use mcutt.Packets.Optional.Reading.{
  part_bytes, part_len, IfSome, IfSome-map, length-part_bytes, add_len-ok, add_written-Emits,
}
use mcutt.Packets.ConnectParts.Flags
use mcutt.Packets.ConnectParts.Header.{as_bytes}
use mcutt.Packets.ConnectParts.Header
use mcutt.Packets.ConnectParts.Header.Write.{header_of}
use mcutt.Packets.ConnectParts.ClientId
use mcutt.Packets.ConnectParts.ClientId.Write.{IsClientId, read_client_id}
use mcutt.Packets.ConnectParts.Will.{Will, WillMsg}
use mcutt.Packets.ConnectParts.Will
use mcutt.Packets.ConnectParts.Will.Write.{
  IsWill, will_len, will_bytes, length-will_bytes, read_will,
}
use mcutt.Packets.Connect.{Connect}
use mcutt.Packets.Connect.Builder.{ConnectBuilder}
use mcutt.Packets.Connect.Write.{encode_len, write_sync}

module _ ⦃f : Bitflags⦄ where
  -- The flags say which parts are there, and the reserved one is not set.
  pub record Agrees (b : ConnectBuilder) : Type 0 where
    pub reserved : f.contains b.flags Flags.reserved ≡ false
    pub will : f.contains b.flags Flags.will_flag ≡ is_some b.will
    pub username : f.contains b.flags Flags.username ≡ is_some b.username
    pub password : f.contains b.flags Flags.password ≡ is_some b.password

abbrev pub IsShort : Bytes → Type 0
IsShort v = length v < 65536

-- What the parts of a connection request must satisfy to be sent.
pub record HasParts (b : ConnectBuilder) : Type 0 where
  pub client_id : IsText b.client_id
  pub keepalive : length b.keepalive.seconds ≡ 2
  pub will : IfSome IsWill b.will
  pub username : IfSome IsText b.username
  pub password : IfSome IsShort b.password

abbrev str_len : Bytes → ℕ
str_len s = 2 + length s

abbrev pub body_len : ConnectBuilder → ℕ
body_len b =
    10
    + (2 + length b.client_id)
    + part_len will_len b.will
    + part_len str_len b.username
    + part_len str_len b.password

-- A part is at most as long as its length fields allow.
short_will : (o : Option Will) → IfSome IsWill o → part_len will_len o < 131075
short_will none h = omega arith
short_will (some w) h = omega (arith, h.topic.short, h.message)

short_str : (o : Option Bytes) → IfSome IsShort o → part_len str_len o < 65538
short_str none h = omega arith
short_str (some s) h = omega (arith, h)

module _ {b : ConnectBuilder} (p : HasParts b) where
  pub short_username : IfSome IsShort b.username
  short_username = IfSome-map (λ s (t : IsText s). t.short) b.username p.username

  pub body_len_lt : body_len b < 268435456
  body_len_lt = omega (
    arith,
    p.client_id.short,
    short_will b.will p.will,
    short_str b.username short_username,
    short_str b.password p.password,
  )

  pub encode_len-ok : encode_len b ≡ ok (body_len b)
  unfolding encode_len
  encode_len-ok =
      let n1 = 10 + (2 + length b.client_id) in
      let n2 = n1 + part_len will_len b.will in
      let n3 = n2 + part_len str_len b.username in
      let first : checked_add 10 (2 + length b.client_id) ≡ some n1 =
        ground (arith, p.client_id.short) in
      rw (
        Header.Write.encode_len_lem b.flags b.keepalive,
        ClientId.Write.encode_len-ok b.client_id p.client_id,
        first,
        add_len-ok Will.encode_len will_len b.will n1 (omega (arith, body_len_lt))
            (IfSome-map Will.Write.encode_len-ok b.will p.will),
        add_len-ok MqttStr.encode_len str_len b.username n2 (omega (arith, body_len_lt)) (
            IfSome-map (λ s (t : IsText s). encode_len_fits s (omega (arith, t.short))) b.username
              p.username),
        add_len-ok Buff.encode_len str_len b.password n3 (omega (arith, body_len_lt))
            (IfSome-map (λ s (t : IsShort s). Buff.Write.encode_len-ok s t) b.password p.password),
      )

module _ ⦃z : Zerocopy⦄ where
  -- The parts behind the client id, and all parts.
  abbrev pub tail_parts : ConnectBuilder → Bytes
  tail_parts b =
      part_bytes will_bytes b.will
      ++ (part_bytes buff_bytes b.username ++ part_bytes buff_bytes b.password)

  abbrev pub body : ConnectBuilder → Bytes
  body b = as_bytes (header_of b.flags b.keepalive) ++ (buff_bytes b.client_id ++ tail_parts b)

  abbrev pub read_str : Bytes → MqttStr
  read_str s = record { len = z.u16_bytes (length s); text = s }

  abbrev pub read_buff : Bytes → Buff
  read_buff s = record { len = z.u16_bytes (length s); data_bytes = s }

  -- The packet as it is read back.
  abbrev pub parsed : ConnectBuilder → FixedHeader → Connect
  parsed b h = record {
    fixed = h;
    header = header_of b.flags b.keepalive;
    client_id = read_client_id b.client_id;
    will = Option.map read_will b.will;
    username = Option.map read_str b.username;
    password = Option.map read_buff b.password;
  }

  pub regroup_head :
      (b : ConnectBuilder) (rest : Bytes)
      → body b ++ rest
        ≡ as_bytes (header_of b.flags b.keepalive)
          ++ (buff_bytes b.client_id ++ (tail_parts b ++ rest))
  regroup_head b rest =
      append_assoc (as_bytes (header_of b.flags b.keepalive))
        (buff_bytes b.client_id ++ tail_parts b) rest
      ∙ ap (λ t. as_bytes (header_of b.flags b.keepalive) ++ t)
          (append_assoc (buff_bytes b.client_id) (tail_parts b) rest)

module _ ⦃z : Zerocopy⦄ {b : ConnectBuilder} (p : HasParts b) where
  pub length-body : length (body b) ≡ body_len b
  length-body = omega (
    arith,
    length-append (as_bytes (header_of b.flags b.keepalive))
        (buff_bytes b.client_id ++ tail_parts b),
    p.keepalive,
    length-append (buff_bytes b.client_id) (tail_parts b),
    length-buff_bytes b.client_id p.client_id.short,
    length-append (part_bytes will_bytes b.will)
        (part_bytes buff_bytes b.username ++ part_bytes buff_bytes b.password),
    length-part_bytes will_bytes will_len b.will (IfSome-map length-will_bytes b.will p.will),
    length-append (part_bytes buff_bytes b.username) (part_bytes buff_bytes b.password),
    length-part_bytes buff_bytes str_len b.username
        (IfSome-map length-buff_bytes b.username (short_username p)),
    length-part_bytes buff_bytes str_len b.password
        (IfSome-map length-buff_bytes b.password p.password),
  )

module _ ⦃z : Zerocopy⦄ ⦃f : Bitflags⦄ {b : ConnectBuilder} (p : HasParts b) (g : Agrees b)
    {W : Type 0} ⦃writer : Write W⦄ where
  pub write_sync-Writes : Writes {W = W} PacketType.connect (body b) (write_sync b)
  unfolding write_sync
  write_sync-Writes n e fits =
      let len = length-body p in
      let n1 = n + 1 + 10 + (2 + length b.client_id) in
      let n2 = n1 + part_len will_len b.will in
      let n3 = n2 + part_len str_len b.username in
      let acc : usize_add (usize_add (n + 1) 10) (2 + length b.client_id) ≡ n1 =
        omega (arith, fits, len) in
      let sum : n + 1 + length (body b) ≡ n3 + part_len str_len b.password = omega (arith, len) in
      rw (sum, len)
        (Emits-lift_bind _ (encode_len-ok p) (
          Emits-bind _ (write_header-new-Emits PacketType.connect (body_len b) n (rw (← len) e)) (
            Emits-bind _ (Header.Write.write_sync-Emits b.flags b.keepalive g.reserved) (
              Emits-bind _ (ClientId.Write.write_sync-Emits b.client_id p.client_id) (
                rw acc (
                  Emits-bind _
                    (add_written-Emits Will.Write.write_sync will_bytes will_len b.will n1
                      (omega (arith, fits, len))
                      (IfSome-map Will.Write.write_sync-Emits b.will p.will))
                    (Emits-bind _
                      (add_written-Emits MqttStr.Write.write_sync buff_bytes str_len b.username n2
                        (omega (arith, fits, len))
                        (IfSome-map MqttStr.Write.write_sync-Emits b.username p.username))
                      (add_written-Emits Buff.Write.write_sync buff_bytes str_len b.password n3
                        (omega (arith, fits, len))
                        (IfSome-map Buff.Write.write_sync-Emits b.password p.password)))))))))
