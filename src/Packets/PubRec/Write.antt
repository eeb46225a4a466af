-- ===== src/Packets/PubRec/Write.antt =====
-- Writing PUBREC, and reading it back.
use mcutt.Common.{ℕ, ◌≡◌, [], ◌++◌, append_assoc, some, arith, ◌<◌, ◌∙◌, ap}
use mcutt.Bytes.{Bytes, ok, usize_add}
use mcutt.Bytes.Io.{Write, Io, pure, lift, ◌>>=◌}
use mcutt.Bytes.Local.{IsLocal}
use mcutt.Bytes.Emits.{Emits, Delivers}
use mcutt.External.Zerocopy.{Zerocopy}
use mcutt.External.Bitflags.{Bitflags}
use mcutt.Fixed.PacketType.{pub_rec, default_flags}
use mcutt.Fixed.Header.Builder.{new, write_header}
use mcutt.Fixed.RemainingLength.{encode_to_array}
use mcutt.Packets.Framed.{DeliversAs, DeliversAs-Delivers}
use mcutt.Fields.PacketId
use mcutt.Fields.PacketId.{IsNonZero}
use mcutt.Fields.PacketId.Write.{encode_len_lem, parse-u16_bytes}
use mcutt.Packets.Short.{
  short_bytes, parse_array-short_bytes, pkid_bytes, length-pkid_bytes, pkid_packet-Emits,
  pkid_packet-IsLocal,
}
use mcutt.Packets.PubRec.{PubRec, validate, encode_len, parse}

module _ ⦃z : Zerocopy⦄ ⦃f : Bitflags⦄ {W : Type 0} ⦃writer : Write W⦄ where
  pub write_sync : ℕ → Io W ℕ
  write_sync value = do
    len ← lift (encode_len value)
    written ← write_header (new pub_rec) len
    more ← PacketId.Write.write_sync value
    pure (usize_add written more)

  pub write_sync-Emits : (v : ℕ) → Emits {W = W} (pkid_bytes pub_rec v) 4 (write_sync v)
  unfolding write_sync encode_len
  write_sync-Emits v = pkid_packet-Emits pub_rec v (encode_len_lem v)

module _ ⦃z : Zerocopy⦄ ⦃f : Bitflags⦄ where
  pub parse-IsLocal : IsLocal 2 parse
  unfolding parse validate
  parse-IsLocal = pkid_packet-IsLocal (λ pkid. record { pkid = pkid })

  -- The remaining length that the header gives is not looked at.
  pub parse-any_length :
      (len v : ℕ) (rest : Bytes)
      → len < 128
      → IsNonZero v
      → parse (short_bytes pub_rec len ++ (z.u16_bytes v ++ rest))
        ≡ ok (record { pkid = record { pkid = z.u16_bytes v } }, rest)
  unfolding parse validate
  parse-any_length len v rest small h = rw (
    parse_array-short_bytes pub_rec len (z.u16_bytes v ++ rest) small,
    (parse-u16_bytes v rest h).0,
  )

  parse-pkid_bytes :
      (v : ℕ) (rest : Bytes)
      → IsNonZero v
      → parse (pkid_bytes pub_rec v ++ rest)
        ≡ ok (record { pkid = record { pkid = z.u16_bytes v } }, rest)
  parse-pkid_bytes v rest h =
      ap parse (append_assoc (short_bytes pub_rec 2) (z.u16_bytes v) rest)
      ∙ parse-any_length 2 v rest (omega arith) h

module _ ⦃z : Zerocopy⦄ ⦃f : Bitflags⦄ {W : Type 0} ⦃writer : Write W⦄ where
  -- The packet starts with the first byte of its type.
  pub PubRec-DeliversAs :
      (v : ℕ)
      → IsNonZero v
      → DeliversAs {W = W} pub_rec
          (default_flags pub_rec)
          (write_sync v)
          parse
          (λ (this : PubRec). PacketId.read this.pkid ≡ some v)
  PubRec-DeliversAs v h = (
    encode_to_array 1 2 ++ z.u16_bytes v,
    record { pkid = record { pkid = z.u16_bytes v } },
    rw (length-pkid_bytes pub_rec v h.1) (write_sync-Emits v),
    λ rest. parse-pkid_bytes v rest h,
    (parse-u16_bytes v [] h).1,
  )

  -- For every packet identifier, which is a non-zero 16-bit value: on any writer `write_sync`
  -- writes a PUBREC and returns its length, unless the writer fails, and `parse` takes exactly that
  -- packet off any buffer, with the identifier that was written.
  pub PubRec-Delivers :
      (v : ℕ)
      → IsNonZero v
      → Delivers {W = W} (write_sync v) parse (λ (this : PubRec). PacketId.read this.pkid ≡ some v)
  PubRec-Delivers v h =
      DeliversAs-Delivers pub_rec (default_flags pub_rec) parse (PubRec-DeliversAs v h)
