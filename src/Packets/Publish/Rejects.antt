-- ===== src/Packets/Publish/Rejects.antt =====
-- The messages that cannot be sent, and that leave nothing on the writer.
use mcutt.Fixed.Header.RoundTrip.{parse-empty}
use mcutt.Packets.Publish
use mcutt.Common.{◌≤◌, ◌<◌, ◌≡◌, true, false, refl, []}
use mcutt.Bytes.{error, invalid, out_of_range, ok, err, usize_mod, not_enough_space}
use mcutt.Bytes.Io.{Write}
use mcutt.Bytes.Emits.{Rejects, Rejects-bind, Rejects-lift_bind, Rejects-after_lift}
use mcutt.External.Zerocopy.{Zerocopy}
use mcutt.External.Bitflags.{Bitflags}
use mcutt.External.Memchr.{Memchr}
use mcutt.Fixed.PacketType
use mcutt.Fixed.PacketType.RoundTrip.{publish_valid}
use mcutt.Fixed.Header.Builder.Rejects.{write_header-Rejects}
use mcutt.Fields.Topic.{contains_wildcard_char}
use mcutt.Packets.Publish.Builder.{PublishBuilder}
use mcutt.Packets.Publish.Write.{validate_value, write_sync}
use mcutt.Packets.Publish.RoundTrip.{body_len, encode_len-fits}

module _ ⦃z : Zerocopy⦄ ⦃f : Bitflags⦄ ⦃m : Memchr⦄ {W : Type 0} ⦃writer : Write W⦄ where
  -- A topic with a wildcard is refused, and nothing is written.
  pub write_sync-Rejects_wildcard :
      (b : PublishBuilder)
      → contains_wildcard_char b.topic ≡ true
      → Rejects {W = W} (error invalid "PUBLISH topic contains wildcard character") (write_sync b)
  unfolding write_sync validate_value
  write_sync-Rejects_wildcard b h =
      let refused : validate_value b
          ≡ err (error invalid "PUBLISH topic contains wildcard character") =
        rw h in
      Rejects-lift_bind _ refused

  -- A message too long for the remaining length is refused, and nothing is written, however far
  -- above the limit its length is while a `usize` holds it.
  pub write_sync-Rejects_length :
      (b : PublishBuilder)
      → contains_wildcard_char b.topic ≡ false
      → 268435456 ≤ body_len b
      → body_len b < usize_mod
      → Rejects {W = W} (error out_of_range "remaining length") (write_sync b)
  unfolding write_sync validate_value
  write_sync-Rejects_length b plain big fits =
      let accepted : validate_value b ≡ ok tt = rw plain in
      Rejects-after_lift _ accepted (
        Rejects-after_lift _ (encode_len-fits b fits) (
          Rejects-bind _ (
            write_header-Rejects PacketType.publish b.flags (body_len b) big
              (publish_valid b.flags))))

module _ ⦃z : Zerocopy⦄ ⦃f : Bitflags⦄ ⦃m : Memchr⦄ where
  -- There is no packet in no bytes.
  pub parse-nil : Publish.parse [] ≡ err (error not_enough_space "fixed header")
  unfolding Publish.parse
  parse-nil = rw parse-empty refl
