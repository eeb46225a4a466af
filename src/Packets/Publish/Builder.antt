-- ===== src/Packets/Publish/Builder.antt =====
-- src/v3/packets/publish/builder.rs: the builder of a PUBLISH packet.
use mcutt.Common.{ℕ, Bool, Option, none, some, if◌then◌else◌}
use mcutt.Bytes.{Bytes}
use mcutt.External.Bitflags.{Bitflags}
use mcutt.Fixed.TypeFlags

pub data PublishQos : Type 0 where
  at_most_once : PublishQos
  at_least_once exactly_once : (dup : Bool) (pkid : ℕ) → PublishQos

pub record PublishBuilder : Type 0 where
  pub flags : ℕ
  pub pkid : Option ℕ
  pub topic : Bytes
  pub payload : Bytes

unfoldable pub new : Bytes → Bytes → PublishBuilder
new topic payload = record { flags = 0; pkid = none; topic = topic; payload = payload }

module _ ⦃f : Bitflags⦄ where
  unfoldable pub retain : PublishBuilder → PublishBuilder
  retain this = record this { flags = f.union this.flags TypeFlags.publish_retain }

  -- One branch of the match in `qos`: the duplicate flag, the flag of the QoS, the identifier.
  abbrev with_qos : Bool → ℕ → ℕ → PublishBuilder → PublishBuilder
  with_qos dup flag pkid this = record this {
    flags = f.union (if dup then f.union this.flags TypeFlags.publish_dup else this.flags) flag;
    pkid = some pkid;
  }

  abbrev set_qos : PublishQos → PublishBuilder → PublishBuilder
  set_qos at_most_once this = this
  set_qos (at_least_once dup pkid) this = with_qos dup TypeFlags.publish_qos_1 pkid this
  set_qos (exactly_once dup pkid) this = with_qos dup TypeFlags.publish_qos_2 pkid this

  -- `PublishBuilder::qos`: the QoS flags are cleared, then those of `qos` set.
  unfoldable pub qos : PublishQos → PublishBuilder → PublishBuilder
  qos level this =
      let both = f.union TypeFlags.publish_qos_1 TypeFlags.publish_qos_2 in
      let mask = f.complement TypeFlags.all_bits both in
      set_qos level (record this { flags = f.intersection this.flags mask })
