-- ===== src/Packets/Subscribe.antt =====
-- src/v3/packets/subscribe/mod.rs: the SUBSCRIBE packet, and its builder of
-- src/v3/packets/subscribe/builder.rs.
pub mod Write
pub mod RoundTrip
pub mod Received
use mcutt.Common.{ℕ, List, [], ◌∷◌, Option, split_at_checked}
use mcutt.Bytes.{Bytes, Error, error, not_enough_space, Result, ok, ok_or}
use mcutt.Bytes.Try.{◌>>=◌, ◌>>◌}
use mcutt.External.Zerocopy.{Zerocopy}
use mcutt.External.Bitflags.{Bitflags}
use mcutt.Fixed.RemainingLength
use mcutt.Fixed.Header
use mcutt.Fields.PacketId
use mcutt.Fields.PacketId.{PacketId}
use mcutt.Fields.TopicFilter
use mcutt.Fields.TopicFilter.{SubscribeFilter, TopicFilter}
use mcutt.Packets.Cursor.{validate_all, collect_all}

-- The filters stay in the bytes that they were read from.
pub record Subscribe : Type 0 where
  pub pkid : PacketId
  pub filters : Bytes

pub record SubscribeBuilder : Type 0 where
  pub pkid : ℕ
  pub filters : List SubscribeFilter

abbrev pub new : ℕ → List SubscribeFilter → SubscribeBuilder
new pkid topic_filters = record { pkid = pkid; filters = topic_filters }

abbrev pub with_topic : ℕ → SubscribeFilter → SubscribeBuilder
with_topic pkid topic = new pkid (topic ∷ [])

module _ ⦃z : Zerocopy⦄ where
  -- The filters that `Subscribe::filters` yields; `none` is the panic of `expect`.
  unfoldable pub filters : Subscribe → Option (List TopicFilter)
  filters this = collect_all TopicFilter.parse this.filters

  -- Each filter parses: `try_for_each(|v| v.map(drop))`.
  unfoldable pub validate : Subscribe → Result (Unit {0}) Error
  validate this = validate_all TopicFilter.parse (λ v. ok tt) this.filters

module _ ⦃z : Zerocopy⦄ ⦃f : Bitflags⦄ where
  unfoldable pub parse : Bytes → Result (Subscribe × Bytes) Error
  unfolding validate
  parse buf = do
    (fixed, rest) ← Header.parse buf
    let rem_len = RemainingLength.read_len fixed.remaining_length
    (packet, rest) ←
        ok_or (error not_enough_space "SUBSCRIBE packet") (split_at_checked rem_len rest)
    (pkid, packet) ← PacketId.parse packet
    validate (record { pkid = pkid; filters = packet })
    ok (record { pkid = pkid; filters = packet }, rest)
