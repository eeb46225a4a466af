-- ===== src/Packets/Unsubscribe.antt =====
-- src/v3/packets/unsubscribe/mod.rs: the UNSUBSCRIBE packet, and its builder of
-- src/v3/packets/unsubscribe/builder.rs. What `&T` iterates over is the list of its items.
pub mod Write
pub mod RoundTrip
pub mod Received
use mcutt.Common.{ℕ, List, [], ◌∷◌, Option, not, split_at_checked}
use mcutt.Bytes.{Bytes, Error, error, invalid, not_enough_space, Result, ok, ok_or}
use mcutt.Bytes.Try.{◌>>=◌, ◌>>◌, fail_if}
use mcutt.External.Zerocopy.{Zerocopy}
use mcutt.External.Bitflags.{Bitflags}
use mcutt.External.Memchr.{Memchr}
use mcutt.Fixed.RemainingLength
use mcutt.Fixed.Header
use mcutt.Fields.PacketId
use mcutt.Fields.PacketId.{PacketId}
use mcutt.Fields.MqttStr
use mcutt.Fields.MqttStr.{MqttStr}
use mcutt.Fields.Topic.{has_valid_wildcard}
use mcutt.Packets.Cursor.{validate_all, collect_all}

-- The filters stay in the bytes that they were read from.
pub record Unsubscribe : Type 0 where
  pub pkid : PacketId
  pub filters : Bytes

pub record UnsubscribeBuilder : Type 0 where
  pub pkid : ℕ
  pub filters : List Bytes

abbrev pub new : ℕ → List Bytes → UnsubscribeBuilder
new pkid topic_filters = record { pkid = pkid; filters = topic_filters }

abbrev pub with_topic : ℕ → Bytes → UnsubscribeBuilder
with_topic pkid topic = new pkid (topic ∷ [])

abbrev pub wildcard_error : Error
wildcard_error = error invalid "UNSUBSCRIBE topic filter"

module _ ⦃m : Memchr⦄ where
  -- The body of the loop in `validate`.
  abbrev pub check_filter : MqttStr → Result (Unit {0}) Error
  check_filter topic = fail_if (not (has_valid_wildcard topic.text)) wildcard_error

module _ ⦃z : Zerocopy⦄ where
  -- The filters that `Unsubscribe::filters` yields; `none` is the panic of `expect`.
  unfoldable pub filters : Unsubscribe → Option (List MqttStr)
  filters this = collect_all MqttStr.parse this.filters

module _ ⦃z : Zerocopy⦄ ⦃m : Memchr⦄ where
  unfoldable pub validate : Unsubscribe → Result (Unit {0}) Error
  validate this = validate_all MqttStr.parse check_filter this.filters

module _ ⦃z : Zerocopy⦄ ⦃f : Bitflags⦄ ⦃m : Memchr⦄ where
  unfoldable pub parse : Bytes → Result (Unsubscribe × Bytes) Error
  unfolding validate
  parse buf = do
    (fixed, rest) ← Header.parse buf
    let rem_len = RemainingLength.read_len fixed.remaining_length
    (packet, rest) ←
        ok_or (error not_enough_space "SUBSCRIBE packet") (split_at_checked rem_len rest)
    (pkid, packet) ← PacketId.parse packet
    validate (record { pkid = pkid; filters = packet })
    ok (record { pkid = pkid; filters = packet }, rest)
