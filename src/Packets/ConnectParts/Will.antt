-- ===== src/Packets/ConnectParts/Will.antt =====
-- `WillMsg` of src/v3/packets/connect/mod.rs and `Will` of src/v3/packets/connect/builder.rs.
pub mod Write
use mcutt.Bytes.{Bytes, Error, Result, ok, usize_add}
use mcutt.Bytes.Try.{◌>>=◌, ◌>>◌}
use mcutt.Common.{ℕ}
use mcutt.External.Zerocopy.{Zerocopy}
use mcutt.Fields.Buff
use mcutt.Fields.Buff.{Buff}
use mcutt.Fields.MqttStr
use mcutt.Fields.MqttStr.{MqttStr}

-- The will as it is given to the builder.
pub record Will : Type 0 where
  pub topic : Bytes
  pub message : Bytes

pub record WillMsg : Type 0 where
  pub topic : MqttStr
  pub message : Buff

unfoldable pub validate_value : Will → Result (Unit {0}) Error
validate_value value = do
  MqttStr.validate_value value.topic
  len ← Buff.validate_value value.message
  ok tt

unfoldable pub validate : WillMsg → Result (Unit {0}) Error
validate this = ok tt

unfoldable pub encode_len : Will → Result ℕ Error
encode_len value = do
  topic ← MqttStr.encode_len value.topic
  message ← Buff.encode_len value.message
  ok (usize_add topic message)

module _ ⦃z : Zerocopy⦄ where
  unfoldable pub parse : Bytes → Result (WillMsg × Bytes) Error
  unfolding validate
  parse buf = do
    (topic, rest) ← MqttStr.parse buf
    (message, rest) ← Buff.parse rest
    validate (record { topic = topic; message = message })
    ok (record { topic = topic; message = message }, rest)
