-- ===== src/Tests/Unsubscriptions.antt =====
-- UNSUBSCRIBE on concrete filters.
use mcutt.Common.{◌++◌, map, true, ◌≡◌, refl, some, List, [], ◌∷◌, All, arith}
use mcutt.Bytes.{Bytes, ok}
use mcutt.Bytes.Vec.{vec_write}
use mcutt.Bytes.Emits.{Delivers}
use mcutt.External.Reference.{zerocopy, bitflags, memchr}
use mcutt.Fixed.RemainingLength
use mcutt.Fixed.RemainingLength.{len_from_u32}
use mcutt.Fixed.PacketType
use mcutt.Fixed.PacketType.{default_flags}
use mcutt.Fixed.PacketType.RoundTrip.{default_flags_small, default_flags-valid}
use mcutt.Fixed.Header.Builder.Emits.{header_bytes}
use mcutt.Fixed.Header.RoundTrip.{header, parse-header_bytes}
use mcutt.Fields.PacketId
use mcutt.Fields.MqttStr
use mcutt.Fields.MqttStr.{MqttStr, is_valid_char}
use mcutt.Fields.Topic.{has_valid_wildcard}
use mcutt.Packets.Cursor.Items.{Items}
use mcutt.Packets.Unsubscribe
use mcutt.Packets.Unsubscribe.{Unsubscribe, UnsubscribeBuilder, filters}
use mcutt.Packets.Unsubscribe.RoundTrip.{
  Unsubscribe-Delivers, body, parsed, parse-Reads, read_back, IsSendable,
}
use mcutt.Packets.Unsubscribe.Received.{parse-filters_valid}
use mcutt.Tests.Subscriptions.{plus, hash, plus-IsText, hash-IsText, plus-is_valid, hash-is_valid}

abbrev pub two_topics : UnsubscribeBuilder
two_topics = record { pkid = 11; filters = plus ∷ hash ∷ [] }

pub two_topics-IsSendable : IsSendable two_topics
two_topics-IsSendable = record {
  pkid = (omega arith, omega arith);
  filters = (
    record { text = plus-IsText; wildcards = plus-is_valid },
    (record { text = hash-IsText; wildcards = hash-is_valid }, tt),
  );
  fits = omega arith;
}

Unsubscribe-Delivers_example :
    Delivers {W = Bytes}
      (Unsubscribe.Write.write_sync two_topics)
      Unsubscribe.parse
      (λ (this : Unsubscribe).
        (PacketId.read this.pkid ≡ some 11)
        × (filters this ≡ some (map read_back two_topics.filters)))
Unsubscribe-Delivers_example = Unsubscribe-Delivers two_topics two_topics-IsSendable

-- The packet of two filters, as it arrives.
abbrev arrived : Bytes
arrived =
    header_bytes PacketType.unsubscribe (default_flags PacketType.unsubscribe) 1 12
    ++ (body two_topics ++ [])

len_of_12 : len_from_u32 12 ≡ ok 1
unfolding len_from_u32
len_of_12 = refl

parse-arrived : Unsubscribe.parse arrived ≡ ok (parsed two_topics, [])
parse-arrived =
    let (p, ty, fl, len) =
      parse-header_bytes PacketType.unsubscribe (default_flags PacketType.unsubscribe) 12 1
        (body two_topics ++ []) (default_flags_small PacketType.unsubscribe)
        (default_flags-valid PacketType.unsubscribe) len_of_12 in
    parse-Reads two_topics two_topics-IsSendable arrived []
      (header PacketType.unsubscribe (default_flags PacketType.unsubscribe) 1 12) p ty len

parse-filters_valid_example :
    (l : List MqttStr) × (filters (parsed two_topics) ≡ some l)
    × Items MqttStr.parse l (parsed two_topics).filters
    × All (λ v. has_valid_wildcard v.text ≡ true) l
unfolding RemainingLength.encode_to_array
parse-filters_valid_example =
    parse-filters_valid arrived [] (parsed two_topics) (omega arith) parse-arrived
