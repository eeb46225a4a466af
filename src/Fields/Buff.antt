-- ===== src/Fields/Buff.antt =====
-- src/v3/packets/common/message.rs: bytes behind a 16-bit length.
pub mod Write
pub mod Takes
use mcutt.Common.{ℕ, ◌+◌, ◌^◌, Option, none, some, length, ◌++◌, ltb, if◌then◌else◌}
use mcutt.Bytes.{
  Bytes, Error, error, out_of_range, overflow, not_enough_space, Result, ok, err, ok_or,
  checked_add,
}
use mcutt.Bytes.Try.{◌>>=◌, ◌>>◌}
use mcutt.External.Zerocopy.{Zerocopy}

pub record Buff : Type 0 where
  pub len : Bytes
  pub data_bytes : Bytes

-- `IntoBytes::as_bytes`: the fields one after the other.
abbrev pub as_bytes : Buff → Bytes
as_bytes this = this.len ++ this.data_bytes

-- `u16::try_from(value.len())`.
pub validate_value : Bytes → Result ℕ Error
validate_value value =
    if ltb (length value) (2 ^ 16)
    then ok (length value)
    else err (error out_of_range "buf len too big")

pub encode_len : Bytes → Result ℕ Error
encode_len value = ok_or (error overflow "buff len") (checked_add 2 (length value))

-- `Parsed::validate`: only a debug assertion.
pub validate : Buff → Result (Unit {0}) Error
validate this = ok tt

module _ ⦃z : Zerocopy⦄ where
  abbrev with_len : Bytes → Bytes × Bytes → Buff × Bytes
  with_len len (front, rest) = (record { len = len; data_bytes = front }, rest)

  pub parse : Bytes → Result (Buff × Bytes) Error
  unfolding validate
  parse buf = do
    (len, tail) ← ok_or (error not_enough_space "buf too small") (z.ref_from_bytes 2 buf)
    parts ← ok_or (error not_enough_space "for len prefix") (z.split_at (z.u16_get len) tail)
    let (this, rest) = with_len len parts
    validate this
    ok (this, rest)
