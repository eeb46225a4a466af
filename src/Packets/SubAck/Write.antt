-- ===== src/Packets/SubAck/Write.antt =====
-- The `Encode` of src/v3/packets/subscribe/ack.rs, and the builder of
-- src/v3/packets/subscribe/builder.rs.
use mcutt.Common.{ℕ, List, map, length}
use mcutt.Bytes.{Error, error, overflow, Result, ok_or, checked_add, usize_add}
use mcutt.Bytes.Try
use mcutt.Bytes.Io.{Write, Io, pure, lift, write_all, ◌>>=◌, ◌>>◌}
use mcutt.External.Zerocopy.{Zerocopy}
use mcutt.External.Bitflags.{Bitflags}
use mcutt.Fixed.PacketType.{sub_ack}
use mcutt.Fixed.Header.Builder.{new, write_header}
use mcutt.Fields.PacketId
use mcutt.Packets.SubAck.{SubAckCode, code_byte}

pub record SubAckBuilder : Type 0 where
  pub pkid : ℕ
  pub return_codes : List SubAckCode

unfoldable pub encode_len : SubAckBuilder → Result ℕ Error
encode_len value =
    Try.◌>>=◌ (PacketId.Write.encode_len value.pkid) λ len.
      ok_or (error overflow "SUBACK encode len") (checked_add len (length value.return_codes))

module _ ⦃z : Zerocopy⦄ ⦃f : Bitflags⦄ {W : Type 0} ⦃writer : Write W⦄ where
  unfoldable pub write_sync : SubAckBuilder → Io W ℕ
  unfolding encode_len
  write_sync value = do
    remaining_length ← lift (encode_len value)
    written ← write_header (new sub_ack) remaining_length
    more ← PacketId.Write.write_sync value.pkid
    let written' = usize_add written more
    let bytes = map code_byte value.return_codes
    write_all bytes "while writing SUBACK return codes"
    pure (usize_add written' (length bytes))
