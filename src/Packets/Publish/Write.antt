-- ===== src/Packets/Publish/Write.antt =====
-- The `Input` and `Encode` of src/v3/packets/publish/mod.rs.
use mcutt.Common.{ℕ, Option, none, some, length}
use mcutt.Bytes.{Error, error, invalid, overflow, Result, ok, ok_or, checked_add, usize_add}
use mcutt.Bytes.Try
use mcutt.Bytes.Try.{fail_if}
use mcutt.Bytes.Io.{Write, Io, pure, lift, write_all, ◌>>=◌, ◌>>◌}
use mcutt.External.Zerocopy.{Zerocopy}
use mcutt.External.Bitflags.{Bitflags}
use mcutt.External.Memchr.{Memchr}
use mcutt.Fixed.PacketType
use mcutt.Fixed.Header.Builder.{with_flags, write_header}
use mcutt.Fields.PacketId
use mcutt.Fields.MqttStr
use mcutt.Fields.Topic.{contains_wildcard_char}
use mcutt.Packets.Publish.Builder.{PublishBuilder}

module _ ⦃m : Memchr⦄ where
  unfoldable pub validate_value : PublishBuilder → Result (Unit {0}) Error
  validate_value value =
      fail_if (contains_wildcard_char value.topic)
        (error invalid "PUBLISH topic contains wildcard character")

-- The length with the identifier, if there is one.
abbrev pub add_pkid : Option ℕ → ℕ → Result ℕ Error
add_pkid none len = ok len
add_pkid (some pkid) len =
    Try.◌>>=◌ (PacketId.Write.encode_len pkid)
      λ packet_id. ok_or (error overflow "PUBLISH encode len") (checked_add len packet_id)

unfoldable pub encode_len : PublishBuilder → Result ℕ Error
encode_len value = Try.◌>>=◌ (MqttStr.encode_len value.topic) λ len.
    Try.◌>>=◌ (add_pkid value.pkid len)
      λ len'. ok_or (error overflow "PUBLISH encode len") (checked_add len' (length value.payload))

module _ ⦃z : Zerocopy⦄ ⦃f : Bitflags⦄ ⦃m : Memchr⦄ {W : Type 0} ⦃writer : Write W⦄ where
  abbrev pub write_pkid : Option ℕ → Io W ℕ
  write_pkid none = pure 0
  write_pkid (some pkid) = PacketId.Write.write_sync pkid

  unfoldable pub write_sync : PublishBuilder → Io W ℕ
  unfolding validate_value encode_len
  write_sync value = do
    lift (validate_value value)
    rem_len ← lift (encode_len value)
    written ← write_header (with_flags PacketType.publish value.flags) rem_len
    topic ← MqttStr.Write.write_sync value.topic
    let written' = usize_add written topic
    pkid ← write_pkid value.pkid
    let written'' = usize_add written' pkid
    write_all value.payload "while writing PUBLISH payload"
    pure (usize_add written'' (length value.payload))
