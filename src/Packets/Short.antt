-- ===== src/Packets/Short.antt =====
-- The packets with a header of two bytes: how their frames are written and read back.
use mcutt.Common.{ℕ, ◌<◌, ◌≡◌, ◌++◌, length, length-append, arith}
use mcutt.Bytes.{Bytes, Error, Result, ok, usize_add}
use mcutt.Bytes.Io.{Write, pure, lift, ◌>>=◌}
use mcutt.Bytes.Try
use mcutt.Bytes.Local.{IsLocal, IsLocal-bind, IsLocal-pure}
use mcutt.Bytes.Emits.{Emits, Emits-bind, Emits-lift_bind, Emits-return}
use mcutt.External.Zerocopy.{Zerocopy}
use mcutt.External.Bitflags.{Bitflags}
use mcutt.Fixed.RemainingLength.{encode_to_array}
use mcutt.Fixed.RemainingLength.Encoding.{len_from_u32_small, length-encode_to_array}
use mcutt.Fixed.PacketType.{ControlPacketType, default_flags, encode_type_and_flags}
use mcutt.Fixed.PacketType.RoundTrip.{default_flags-valid, default_flags_small}
use mcutt.Fixed.Header.{FixedHeader}
use mcutt.Fixed.Header
use mcutt.Fixed.Header.Builder.{new, write_header}
use mcutt.Fixed.Header.Builder.Emits.{header_bytes, write_header-new-Emits}
use mcutt.Fixed.Header.RoundTrip.{parse_array-header_bytes}
use mcutt.Fields.PacketId
use mcutt.Fields.PacketId.{PacketId}
use mcutt.Fields.PacketId.Write.{encode_len_lem, length-u16_bytes}

-- The header of a packet of this type with `v` bytes behind it.
abbrev pub short_header : ControlPacketType → ℕ → FixedHeader
short_header t v = record {
  type_and_flags = encode_type_and_flags t (default_flags t);
  remaining_length = encode_to_array 1 v;
}

abbrev pub short_bytes : ControlPacketType → ℕ → Bytes
short_bytes t v = header_bytes t (default_flags t) 1 v

pub length-short_bytes : (t : ControlPacketType) (v : ℕ) → length (short_bytes t v) ≡ 2
length-short_bytes t v = omega (arith, length-encode_to_array 1 v)

module _ ⦃z : Zerocopy⦄ ⦃f : Bitflags⦄ where
  pub parse_array-short_bytes :
      (t : ControlPacketType) (v : ℕ) (rest : Bytes)
      → v < 128
      → Header.parse_array 1 (short_bytes t v ++ rest) ≡ ok (short_header t v, rest)
  parse_array-short_bytes t v rest h =
      parse_array-header_bytes t (default_flags t) v rest (default_flags_small t)
        (default_flags-valid t) h

module _ ⦃z : Zerocopy⦄ where
  -- The whole packet with an identifier as its only field.
  abbrev pub pkid_bytes : ControlPacketType → ℕ → Bytes
  pkid_bytes t v = short_bytes t 2 ++ z.u16_bytes v

  pub length-pkid_bytes : (t : ControlPacketType) (v : ℕ) → v < 65536 → length (pkid_bytes t v) ≡ 4
  length-pkid_bytes t v h = omega (
    arith,
    length-append (short_bytes t 2) (z.u16_bytes v),
    length-short_bytes t 2,
    length-u16_bytes v h,
  )

module _ ⦃z : Zerocopy⦄ ⦃f : Bitflags⦄ {W : Type 0} ⦃writer : Write W⦄ where
  -- The body that the five `write_sync` functions of these packets share.
  pub pkid_packet-Emits :
      (t : ControlPacketType) (v : ℕ) {r : Result ℕ Error}
      → r ≡ ok 2
      → Emits {W = W} (pkid_bytes t v) 4 (do
        len ← lift r
        written ← write_header (new t) len
        more ← PacketId.Write.write_sync v
        pure (usize_add written more))
  pkid_packet-Emits t v h = Emits-lift_bind _ h (
      Emits-bind _ (write_header-new-Emits t 2 1 (len_from_u32_small 2 (omega arith)))
        (Emits-return (λ (n : ℕ). usize_add 2 n) (PacketId.Write.write_sync-Emits v)))

module _ ⦃z : Zerocopy⦄ ⦃f : Bitflags⦄ where
  -- The parser of a packet with an identifier as its only field depends on the bytes that it takes
  -- only.
  pub pkid_packet-IsLocal :
      {A : Type 0} (packet : PacketId → A)
      → IsLocal 2 (λ buf.
        Try.◌>>=◌
          (Header.parse_array 1 buf)
          λ r. Try.◌>>=◌ (PacketId.parse r.1) λ q. ok (packet q.0, q.1))
  pkid_packet-IsLocal packet =
      IsLocal-bind 2 2 (Header.parse_array 1)
        (λ fixed rest. Try.◌>>=◌ (PacketId.parse rest) λ q. ok (packet q.0, q.1))
        (Header.Local.parse_array-IsLocal 1)
        (λ fixed.
          IsLocal-bind 2 0 PacketId.parse (λ pkid rest. ok (packet pkid, rest))
            PacketId.Takes.parse-IsLocal (λ pkid. IsLocal-pure (packet pkid)))
