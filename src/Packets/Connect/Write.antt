-- ===== src/Packets/Connect/Write.antt =====
-- The `Input` and `Encode` of src/v3/packets/connect/mod.rs.
use mcutt.Common.{ℕ}
use mcutt.Bytes.{Error, error, overflow, Result, ok_or, checked_add, usize_add}
use mcutt.Bytes.Try
use mcutt.Bytes.Io.{Write, Io, lift, ◌>>=◌}
use mcutt.External.Zerocopy.{Zerocopy}
use mcutt.External.Bitflags.{Bitflags}
use mcutt.Fixed.PacketType
use mcutt.Fixed.Header.Builder.{new, write_header}
use mcutt.Fields.Buff
use mcutt.Fields.MqttStr
use mcutt.Packets.Optional.{validate_part, add_len, add_written}
use mcutt.Packets.ConnectParts.Header
use mcutt.Packets.ConnectParts.ClientId
use mcutt.Packets.ConnectParts.Will
use mcutt.Packets.Connect.Builder.{ConnectBuilder}

module _ ⦃f : Bitflags⦄ where
  -- `validate_value`, which `write_sync` does not call.
  unfoldable pub validate_value : ConnectBuilder → Result (Unit {0}) Error
  validate_value value = Try.◌>>=◌ (Header.Write.validate_value value.flags value.keepalive) λ this.
      Try.◌>>=◌ (ClientId.validate_value value.client_id) λ u.
        Try.◌>>=◌ (validate_part Will.validate_value value.will) λ u.
          Try.◌>>=◌ (validate_part MqttStr.validate_value value.username) λ u.
            validate_part (λ bs. Try.map_ok (λ len. tt) (Buff.validate_value bs)) value.password

unfoldable pub encode_len : ConnectBuilder → Result ℕ Error
encode_len value = Try.◌>>=◌ (Header.Write.encode_len value.flags value.keepalive) λ header.
    Try.◌>>=◌ (ClientId.Write.encode_len value.client_id) λ client_id.
      let len = checked_add header client_id in
      Try.◌>>=◌ (add_len Will.encode_len value.will len) λ len.
        Try.◌>>=◌ (add_len MqttStr.encode_len value.username len) λ len.
          Try.◌>>=◌ (add_len Buff.encode_len value.password len)
            λ len. ok_or (error overflow "CONNECT encode len") len

module _ ⦃z : Zerocopy⦄ ⦃f : Bitflags⦄ {W : Type 0} ⦃writer : Write W⦄ where
  unfoldable pub write_sync : ConnectBuilder → Io W ℕ
  unfolding encode_len
  write_sync value = do
    rlen ← lift (encode_len value)
    written ← write_header (new PacketType.connect) rlen
    header ← Header.Write.write_sync value.flags value.keepalive
    client_id ← ClientId.Write.write_sync value.client_id
    let written = usize_add (usize_add written header) client_id
    written ← add_written Will.Write.write_sync value.will written
    written ← add_written MqttStr.Write.write_sync value.username written
    add_written Buff.Write.write_sync value.password written
