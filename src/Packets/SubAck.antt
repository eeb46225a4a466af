-- ===== src/Packets/SubAck.antt =====
-- src/v3/packets/subscribe/ack.rs: the SUBACK packet, the codes that answer a SUBSCRIBE.
pub mod Write
pub mod Frame
pub mod RoundTrip
pub mod Local
use mcutt.Common.{
  ℕ, ◌-◌, List, [], ◌∷◌, Option, none, some, Bool, true, false, ◌||◌, map, take, drop, all, ltb,
  ◌==◌, if◌then◌else◌,
}
use mcutt.Bytes.{
  Bytes, Error, error, invalid, not_enough_space, out_of_range, overflow, Result, ok, err, ok_or,
}
use mcutt.Bytes.Try.{◌>>=◌, ◌>>◌, map_err}
use mcutt.External.Zerocopy.{Zerocopy, ConvertError}
use mcutt.External.Bitflags.{Bitflags}
use mcutt.Fixed.RemainingLength
use mcutt.Fixed.Header
use mcutt.Fields.PacketId
use mcutt.Fields.PacketId.{PacketId}

pub data SubAckCode : Type 0 where
  qos_0 qos_1 qos_2 failure : SubAckCode

-- `u8::from`, the discriminant.
abbrev pub code_byte : SubAckCode → ℕ
code_byte qos_0 = 0
code_byte qos_1 = 1
code_byte qos_2 = 2
code_byte failure = 128

-- `SubAckCode::try_from`.
unfoldable pub try_from : ℕ → Result SubAckCode Error
try_from value =
    if value == 0
    then ok qos_0
    else if value == 1
    then ok qos_1
    else if value == 2
    then ok qos_2
    else if value == 128
    then ok failure
    else err (error out_of_range "SUBACK return code")

pub record SubAck : Type 0 where
  pub pkid : PacketId
  pub return_codes : List SubAckCode

-- The bytes that are a `SubAckCode`, and the code that they are.
abbrev pub is_code : ℕ → Bool
is_code b = b == 0 || b == 1 || b == 2 || b == 128

abbrev pub code_of : ℕ → SubAckCode
code_of b = if b == 0 then qos_0 else if b == 1 then qos_1 else if b == 2 then qos_2 else failure

-- The struct from its bytes: two of the identifier, then the codes.
abbrev pub valid_bytes : Bytes → Bool
valid_bytes bs = all is_code (drop 2 bs)

abbrev pub from_bytes : Bytes → SubAck
from_bytes bs = record {
  pkid = record { pkid = take 2 bs };
  return_codes = map code_of (drop 2 bs);
}

abbrev pub convert_error : ConvertError → Error
convert_error ConvertError.alignment = error invalid "SUBACK return code alignment"
convert_error ConvertError.size = error not_enough_space "SUBACK not enought space"
convert_error ConvertError.validity = error invalid "SUBACK return code is reserved"

-- `rem_len.checked_sub(2).and_then(|len| len.checked_div(1))`.
abbrev pub codes_count : ℕ → Option ℕ
codes_count rem_len = if ltb rem_len 2 then none else some (rem_len - 2)

module _ ⦃z : Zerocopy⦄ where
  unfoldable pub validate : SubAck → Result (Unit {0}) Error
  validate this = PacketId.validate this.pkid

module _ ⦃z : Zerocopy⦄ ⦃f : Bitflags⦄ where
  unfoldable pub parse : Bytes → Result (SubAck × Bytes) Error
  unfolding validate
  parse buf = do
    (fixed, rest) ← Header.parse buf
    let rem_len = RemainingLength.read_len fixed.remaining_length
    count ← ok_or (error overflow "SUBACK remaining length") (codes_count rem_len)
    (this, rest') ←
        map_err convert_error (z.try_ref_from_prefix_with_elems 2 count valid_bytes rest)
    validate (from_bytes this)
    ok (from_bytes this, rest')
