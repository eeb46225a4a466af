-- ===== src/Packets/Subscribe/Write.antt =====
-- The `Input` and `Encode` of src/v3/packets/subscribe/mod.rs.
use mcutt.Common.{ℕ, List, [], ◌∷◌}
use mcutt.Bytes.{Error, error, overflow, Result, ok, usize_add}
use mcutt.Bytes.Try
use mcutt.Bytes.Io.{Write, Io, lift, ◌>>=◌, ◌>>◌}
use mcutt.External.Zerocopy.{Zerocopy}
use mcutt.External.Bitflags.{Bitflags}
use mcutt.External.Memchr.{Memchr}
use mcutt.Fixed.PacketType
use mcutt.Fixed.Header.Builder.{new, write_header}
use mcutt.Fields.PacketId
use mcutt.Fields.TopicFilter
use mcutt.Fields.TopicFilter.{SubscribeFilter}
use mcutt.Packets.Cursor.{fold_len, fold_write}
use mcutt.Packets.Subscribe.{SubscribeBuilder}

module _ ⦃m : Memchr⦄ where
  -- `try_for_each(TopicFilter::validate_value)`.
  unfoldable pub validate_filters : List SubscribeFilter → Result (Unit {0}) Error
  validate_filters [] = ok tt
  validate_filters (filter ∷ filters) =
      Try.◌>>=◌ (TopicFilter.validate_value filter) λ u. validate_filters filters

  unfoldable pub validate_value : SubscribeBuilder → Result (Unit {0}) Error
  unfolding validate_filters
  validate_value value = validate_filters value.filters

unfoldable pub encode_len : SubscribeBuilder → Result ℕ Error
unfolding fold_len
encode_len value =
    Try.◌>>=◌ (PacketId.Write.encode_len value.pkid) λ len.
      fold_len TopicFilter.encode_len (error overflow "SUBSCRIBE packet len") len value.filters

module _ ⦃z : Zerocopy⦄ ⦃f : Bitflags⦄ ⦃m : Memchr⦄ {W : Type 0} ⦃writer : Write W⦄ where
  unfoldable pub write_sync : SubscribeBuilder → Io W ℕ
  unfolding validate_value encode_len fold_write
  write_sync value = do
    lift (validate_value value)
    rem_len ← lift (encode_len value)
    written ← write_header (new PacketType.subscribe) rem_len
    pkid ← PacketId.Write.write_sync value.pkid
    fold_write TopicFilter.Write.write_sync (usize_add written pkid) value.filters
