-- ===== src/Tests/Codec.antt =====
-- The fixed header and the fields, on concrete bytes.
use mcutt.Common.{ℕ, ◌<◌, ◌≡◌, refl, ◌↔◌, ◌++◌, [], ◌∷◌, length, arith}
use mcutt.Bytes.{Bytes, ok, err, error, out_of_range}
use mcutt.Bytes.Vec.{vec_write}
use mcutt.Bytes.Emits.{Emits}
use mcutt.External.Reference.{zerocopy, bitflags}
use mcutt.Fixed.RemainingLength.{
  has_continue_flag, len_from_u32, encode_to_array, read, read_len, read_from_buf,
}
use mcutt.Fixed.RemainingLength
use mcutt.Fixed.RemainingLength.Value.{value, read-value}
use mcutt.Fixed.RemainingLength.RoundTrip.{IsTerminated, parse-encode_to_array}
use mcutt.Fixed.PacketType
use mcutt.Fixed.PacketType.{
  ControlPacketType, publish, pub_rel, encode_type_and_flags, validate_type_flags,
}
use mcutt.Fixed.PacketType.RoundTrip.{parse_iff, publish_valid}
use mcutt.Fixed.Header
use mcutt.Fixed.Header.{FixedHeader}
use mcutt.Fixed.Header.Builder.Emits.{header_bytes, sized}
use mcutt.Fixed.Header.ArrayWriter
use mcutt.Fixed.Header.ArrayWriter.{write_sync-parse_array}
use mcutt.Fixed.Header.RoundTrip.{header}

len_of_321 : len_from_u32 321 ≡ ok 2
unfolding len_from_u32
len_of_321 = refl

flags_IsTerminated : IsTerminated (193 ∷ 2 ∷ [])
unfolding has_continue_flag
flags_IsTerminated = (refl, refl)

parse-encode_to_array_example :
    (n : ℕ) × (len_from_u32 321 ≡ ok n)
    × (length (encode_to_array n 321) ≡ n)
    × (RemainingLength.parse (encode_to_array n 321 ++ (9 ∷ []))
        ≡ ok (encode_to_array n 321, 9 ∷ []))
    × (RemainingLength.validate (encode_to_array n 321) ≡ ok tt)
    × (read (encode_to_array n 321) ≡ 321)
    × (read_len (encode_to_array n 321) ≡ 321)
    × (read_from_buf (encode_to_array n 321) ≡ 321)
parse-encode_to_array_example = parse-encode_to_array 321 (9 ∷ []) (omega arith)

read-value_example :
    (read (193 ∷ 2 ∷ []) ≡ value (193 ∷ 2 ∷ []))
    × (read_len (193 ∷ 2 ∷ []) ≡ value (193 ∷ 2 ∷ []))
    × (read_from_buf (193 ∷ 2 ∷ []) ≡ value (193 ∷ 2 ∷ []))
read-value_example = read-value (193 ∷ 2 ∷ []) (omega arith, (omega arith, tt)) (omega arith)

too_long : len_from_u32 268435456 ≡ err (error out_of_range "remaining length")
unfolding len_from_u32
too_long = refl

parse_iff_example :
    (PacketType.parse 98 ≡ ok (pub_rel, 2))
    ↔ ((98 ≡ encode_type_and_flags pub_rel 2) × (2 < 16) × (validate_type_flags pub_rel 2 ≡ ok tt))
parse_iff_example = parse_iff 98 pub_rel 2 (omega arith)

-- A length of two bytes in an array of four, which is written and not read back.
write_sync-parse_array_example :
    Emits {W = Bytes}
      (header_bytes publish 3 4 321)
      5
      (ArrayWriter.write_sync 4 (sized publish 3 321))
    × ((Header.parse_array 4 (header_bytes publish 3 4 321 ++ (9 ∷ []))
          ≡ ok (header publish 3 4 321, 9 ∷ []))
        ↔ ◌≡◌ {A = ℕ} 2 4)
write_sync-parse_array_example =
    write_sync-parse_array 4 2 publish 3 321 (9 ∷ []) (omega arith) (omega arith) (publish_valid 3)
      len_of_321

-- The bytes that it writes.
four_bytes : encode_to_array 4 321 ≡ 193 ∷ 2 ∷ 0 ∷ 0 ∷ []
unfolding encode_to_array
four_bytes = refl
