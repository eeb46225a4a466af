-- ===== src/Packets/ConnectParts/ClientId.antt =====
-- `ClientId` of src/v3/packets/connect/mod.rs.
pub mod Write
use mcutt.Common.{ℕ, Bool, not, ◌&&◌, ◌||◌, all, leb, length}
use mcutt.Bytes.{Bytes, Error, error, invalid, out_of_range, Result, ok}
use mcutt.Bytes.Try.{◌>>=◌, ◌>>◌, fail_if}
use mcutt.External.Zerocopy.{Zerocopy}
use mcutt.Fields.Utf8.{chars}
use mcutt.Fields.MqttStr
use mcutt.Fields.MqttStr.{MqttStr}

pub record ClientId : Type 0 where
  pub id : MqttStr

-- Nothing is checked of a client id that is sent.
unfoldable pub validate_value : Bytes → Result (Unit {0}) Error
validate_value value = ok tt

-- `char::is_ascii_alphanumeric`.
abbrev pub is_ascii_alphanumeric : ℕ → Bool
is_ascii_alphanumeric c =
    (leb b'0' c && leb c b'9') || (leb b'A' c && leb c b'Z') || (leb b'a' c && leb c b'z')

-- `CLIENT_ID_BYTES.contains(&len)`.
abbrev pub valid_len : ℕ → Bool
valid_len n = leb 1 n && leb n 23

unfoldable pub validate : ClientId → Result (Unit {0}) Error
validate this = do
  fail_if (not (valid_len (length this.id.text)))
      (error out_of_range "client id must be between 1 and 23 bytes long")
  fail_if (not (all is_ascii_alphanumeric (chars this.id.text)))
      (error invalid "client id is not ascii alphanumeric")

module _ ⦃z : Zerocopy⦄ where
  unfoldable pub parse : Bytes → Result (ClientId × Bytes) Error
  unfolding validate
  parse buf = do
    (str, rest) ← MqttStr.parse buf
    validate (record { id = str })
    ok (record { id = str }, rest)
