-- ===== src/Fields/TopicFilter.antt =====
-- src/v3/packets/subscribe/topic.rs: a topic filter with the QoS that is asked for.
pub mod Write
pub mod Takes
use mcutt.Common.{
  ℕ, [], ◌∷◌, Option, none, some, Bool, true, false, not, leb, ◌==◌, if◌then◌else◌, length,
}
use mcutt.Bytes.{Bytes, Error, error, invalid, overflow, Result, ok, err, ok_or, checked_add}
use mcutt.Bytes.Try.{◌>>=◌, ◌>>◌, map_err, fail_if}
use mcutt.External.Zerocopy.{Zerocopy}
use mcutt.External.Memchr.{Memchr}
use mcutt.Fields.MqttStr
use mcutt.Fields.MqttStr.{MqttStr}
use mcutt.Fields.Topic.{has_valid_wildcard}

pub data RequestedQos : Type 0 where
  at_most_once at_least_once exactly_once : RequestedQos

-- `IntoBytes::as_bytes`, the discriminant.
abbrev pub qos_byte : RequestedQos → ℕ
qos_byte at_most_once = 0
qos_byte at_least_once = 1
qos_byte exactly_once = 2

-- The bytes that are a `RequestedQos`, and the one that they are.
abbrev pub valid_qos : Bytes → Bool
valid_qos (b ∷ []) = leb b 2
valid_qos _ = false

abbrev pub qos_of : Bytes → RequestedQos
qos_of (b ∷ []) = if b == 0 then at_most_once else if b == 1 then at_least_once else exactly_once
qos_of _ = exactly_once

-- The filter as it is given to the builder.
pub record SubscribeFilter : Type 0 where
  pub topic : Bytes
  pub qos : RequestedQos

pub record TopicFilter : Type 0 where
  pub topic : MqttStr
  pub qos : RequestedQos

abbrev wildcard_error : Error
wildcard_error = error invalid "SUBSCRIBE topic filter"

module _ ⦃m : Memchr⦄ where
  unfoldable pub validate_value : SubscribeFilter → Result (Unit {0}) Error
  validate_value value = fail_if (not (has_valid_wildcard value.topic)) wildcard_error

  -- `Parsed::validate`, which no parser calls.
  unfoldable pub validate : TopicFilter → Result (Unit {0}) Error
  validate this = do
    MqttStr.validate this.topic
    fail_if (not (has_valid_wildcard this.topic.text)) wildcard_error

unfoldable pub encode_len : SubscribeFilter → Result ℕ Error
encode_len value = do
  len ← MqttStr.encode_len value.topic
  ok_or (error overflow "SUBSCRIBE topic filter") (checked_add len 1)

module _ ⦃z : Zerocopy⦄ where
  unfoldable pub parse : Bytes → Result (TopicFilter × Bytes) Error
  parse buf = do
    (topic, buf) ← MqttStr.parse buf
    (qos, bytes) ←
        map_err (λ e. error (MqttStr.convert_kind e) "SUBSCRIBE topic filter QoS")
          (z.try_ref_from_prefix 1 valid_qos buf)
    ok (record { topic = topic; qos = qos_of qos }, bytes)
