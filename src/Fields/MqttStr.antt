-- ===== src/Fields/MqttStr.antt =====
-- src/v3/packets/common/string.rs: UTF-8 strings behind a 16-bit length. A `&str` is its bytes,
-- with the hypothesis `is_utf8`.
pub mod Write
pub mod Takes
use Prim.Native.Nat.{bit_and}
use mcutt.Common.{
  ℕ, ◌/◌, ◌^◌, Bool, true, false, not, ◌&&◌, ◌||◌, Option, none, some, length, all, ◌==◌, leb,
  if◌then◌else◌,
}
use mcutt.Bytes.{
  Bytes, ErrorKind, Error, error, invalid, overflow, not_enough_space, Result, ok, err, ok_or,
  checked_add,
}
use mcutt.Bytes.Try.{◌>>=◌, ◌>>◌, map_err, fail_if}
use mcutt.External.Zerocopy.{Zerocopy, ConvertError}
use mcutt.Fields.Utf8.{is_utf8, chars}
use mcutt.Fields.Buff
use mcutt.Fields.Buff.{Buff}

pub record MqttStr : Type 0 where
  pub len : Bytes
  pub text : Bytes

abbrev in_range : ℕ → ℕ → ℕ → Bool
in_range lo hi c = leb lo c && leb c hi

pub is_last_two_supplementary : ℕ → Bool
is_last_two_supplementary c =
    let last_bits = bit_and c 0xff in
    (last_bits == 0xfe || last_bits == 0xff) && in_range 0x01 0x10 (c / 2 ^ 16)

unfoldable pub is_valid_char : ℕ → Bool
unfolding is_last_two_supplementary
is_valid_char c =
    if c == 0 || in_range 0x1 0x1f c || in_range 0xfdd0 0xfdef c || in_range 0xfffe 0xffff c
    then false
    else not (is_last_two_supplementary c)

-- `value.chars().all(is_valid_char)`.
abbrev pub valid_chars : Bytes → Bool
valid_chars s = all is_valid_char (chars s)

pub validate_value : Bytes → Result (Unit {0}) Error
validate_value value =
    fail_if (not (valid_chars value)) (error invalid "string contains invalid characters")

pub validate : MqttStr → Result (Unit {0}) Error
validate this =
    fail_if (not (valid_chars this.text)) (error invalid "string contains invalid characters")

-- The kind that a failed conversion of `zerocopy` is reported as.
abbrev pub convert_kind : ConvertError → ErrorKind
convert_kind ConvertError.alignment = not_enough_space
convert_kind ConvertError.size = not_enough_space
convert_kind ConvertError.validity = invalid

pub encode_len : Bytes → Result ℕ Error
encode_len value = ok_or (error overflow "string length") (checked_add 2 (length value))

module _ ⦃z : Zerocopy⦄ where
  abbrev pub from_parts : Bytes × Bytes → MqttStr
  from_parts (len, text) = record { len = len; text = text }

  pub parse : Bytes → Result (MqttStr × Bytes) Error
  unfolding validate
  parse buf = do
    (buff, rest) ← Buff.parse buf
    parts ←
        map_err (λ e. error (convert_kind e) "mqtt string")
          (z.try_ref_from_bytes 2 is_utf8 (Buff.as_bytes buff))
    validate (from_parts parts)
    ok (from_parts parts, rest)
