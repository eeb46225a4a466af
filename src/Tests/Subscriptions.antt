-- ===== src/Tests/Subscriptions.antt =====
-- SUBSCRIBE on concrete filters.
use mcutt.Common.{map, true, ◌≡◌, refl, some, List, [], ◌∷◌, ◌++◌, arith}
use mcutt.Bytes.{Bytes, Error, Result, ok}
use mcutt.Bytes.Vec.{vec_write}
use mcutt.Bytes.Emits.{Delivers}
use mcutt.External.Reference.{zerocopy, bitflags, memchr}
use mcutt.Fixed.RemainingLength
use mcutt.Fixed.RemainingLength.{len_from_u32}
use mcutt.Fixed.PacketType
use mcutt.Fixed.PacketType.{default_flags}
use mcutt.Fixed.PacketType.RoundTrip.{default_flags_small, default_flags-valid}
use mcutt.Fixed.Header.Builder.Emits.{header_bytes}
use mcutt.Fixed.Header.RoundTrip.{header, parse-header_bytes}
use mcutt.Fields.PacketId
use mcutt.Fields.Utf8.{decode, is_utf8, chars}
use mcutt.Fields.MqttStr.{is_valid_char}
use mcutt.Fields.MqttStr.Write.{IsText}
use mcutt.Fields.Topic.{has_valid_wildcard}
use mcutt.Fields.Topic.Levels.{levels, levels_ok, has_valid_wildcard-levels}
use mcutt.Fields.TopicFilter
use mcutt.Fields.TopicFilter.{SubscribeFilter, TopicFilter, at_least_once, exactly_once}
use mcutt.Fields.TopicFilter.Write.{read_back}
use mcutt.Packets.Cursor.{at_start, try_for_each}
use mcutt.Packets.Cursor.Items.{Items}
use mcutt.Packets.Subscribe
use mcutt.Packets.Subscribe.{Subscribe, SubscribeBuilder, filters}
use mcutt.Packets.Subscribe.RoundTrip.{IsSendable, Subscribe-Delivers, body, parsed, parse-Reads}
use mcutt.Packets.Subscribe.Received.{validate-halts, parse-filters}

-- The filters `a/+` and `c/#`.
abbrev pub plus : Bytes
plus = 97 ∷ 47 ∷ 43 ∷ []

abbrev pub hash : Bytes
hash = 99 ∷ 47 ∷ 35 ∷ []

pub plus-IsText : IsText plus
unfolding is_utf8 decode chars is_valid_char
plus-IsText = record { utf8 = refl; allowed = refl; short = omega arith }

pub hash-IsText : IsText hash
unfolding is_utf8 decode chars is_valid_char
hash-IsText = record { utf8 = refl; allowed = refl; short = omega arith }

pub plus-is_valid : has_valid_wildcard plus ≡ true
plus-is_valid = has_valid_wildcard-levels plus

pub hash-is_valid : has_valid_wildcard hash ≡ true
hash-is_valid = has_valid_wildcard-levels hash

has_valid_wildcard-levels_example : has_valid_wildcard plus ≡ levels_ok (levels plus)
has_valid_wildcard-levels_example = has_valid_wildcard-levels plus

abbrev pub two_filters : SubscribeBuilder
two_filters = record {
  pkid = 10;
  filters =
      record { topic = plus; qos = at_least_once }
      ∷ record { topic = hash; qos = exactly_once }
      ∷ [];
}

pub two_filters-IsSendable : IsSendable two_filters
two_filters-IsSendable = record {
  pkid = (omega arith, omega arith);
  filters = (
    record { text = plus-IsText; wildcards = plus-is_valid },
    (record { text = hash-IsText; wildcards = hash-is_valid }, tt),
  );
  fits = omega arith;
}

Subscribe-Delivers_example :
    Delivers {W = Bytes}
      (Subscribe.Write.write_sync two_filters)
      Subscribe.parse
      (λ (this : Subscribe).
        (PacketId.read this.pkid ≡ some 10)
        × (filters this ≡ some (map read_back two_filters.filters)))
Subscribe-Delivers_example = Subscribe-Delivers two_filters two_filters-IsSendable

-- A field with one filter and a byte too many.
abbrev one_and_a_half : Subscribe
one_and_a_half = record { pkid = record { pkid = 0 ∷ 1 ∷ [] }; filters = 0 ∷ 1 ∷ 97 ∷ 1 ∷ 0 ∷ [] }

validate-halts_example :
    (end : Result (Unit {0}) Error) × (try_for_each TopicFilter.parse 6
        (λ v. ok tt)
        (at_start one_and_a_half.filters)
      ≡ some end)
    × (Subscribe.validate one_and_a_half ≡ end)
validate-halts_example = validate-halts one_and_a_half (omega arith)

-- The packet of two filters, as it arrives.
abbrev arrived : Bytes
arrived =
    header_bytes PacketType.subscribe (default_flags PacketType.subscribe) 1 14
    ++ (body two_filters ++ [])

len_of_14 : len_from_u32 14 ≡ ok 1
unfolding len_from_u32
len_of_14 = refl

parse-arrived : Subscribe.parse arrived ≡ ok (parsed two_filters, [])
parse-arrived =
    let (p, ty, fl, len) =
      parse-header_bytes PacketType.subscribe (default_flags PacketType.subscribe) 14 1
        (body two_filters ++ []) (default_flags_small PacketType.subscribe)
        (default_flags-valid PacketType.subscribe) len_of_14 in
    parse-Reads two_filters two_filters-IsSendable arrived []
      (header PacketType.subscribe (default_flags PacketType.subscribe) 1 14) p ty len

parse-filters_example :
    (l : List TopicFilter) × (filters (parsed two_filters) ≡ some l)
    × Items TopicFilter.parse l (parsed two_filters).filters
unfolding RemainingLength.encode_to_array
parse-filters_example = parse-filters arrived [] (parsed two_filters) (omega arith) parse-arrived
