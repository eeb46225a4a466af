-- ===== src/Fixed/Header/Builder.antt =====
-- src/v3/packets/common/fixed/builder.rs and the `Encode` of the fixed header.
pub mod Emits
pub mod Rejects
use mcutt.Common.{ℕ, ◌+◌, List, [], ◌∷◌, ltb, if◌then◌else◌}
use mcutt.Bytes.{Bytes, Error, error, out_of_range, overflow, Result, ok, err, ok_or, checked_add}
use mcutt.Bytes.Try
use mcutt.Bytes.Io.{Write, Io, pure, lift, write_all, ◌>>=◌, ◌>>◌}
use mcutt.External.Bitflags.{Bitflags}
use mcutt.Fixed.RemainingLength
use mcutt.Fixed.RemainingLength.{u32_mod}
use mcutt.Fixed.PacketType
use mcutt.Fixed.PacketType.{ControlPacketType}

pub record FixedHeaderBuilder : Type 0 where
  pub packet_type : ControlPacketType
  pub flags : ℕ
  pub remaining_length : ℕ

pub with_flags : ControlPacketType → ℕ → FixedHeaderBuilder
with_flags packet_type flags = record {
  packet_type = packet_type;
  flags = flags;
  remaining_length = 0;
}

pub new : ControlPacketType → FixedHeaderBuilder
unfolding with_flags
new packet_type = with_flags packet_type (PacketType.default_flags packet_type)

-- `FixedHeaderBuilder::remaining_length`, the setter.
pub remaining_length : ℕ → FixedHeaderBuilder → Result FixedHeaderBuilder Error
remaining_length len this =
    if ltb len u32_mod
    then ok (record this { remaining_length = len })
    else err (error out_of_range "remaining length")

pub encode_len : FixedHeaderBuilder → Result ℕ Error
encode_len value =
    Try.◌>>=◌ (RemainingLength.Write.encode_len value.remaining_length)
      λ size. ok_or (error overflow "fixed header encode len") (checked_add size 1)

module _ ⦃f : Bitflags⦄ where
  -- `<FixedHeaderSlice as Input>::validate_value`.
  pub validate_value : FixedHeaderBuilder → Result (Unit {0}) Error
  validate_value value =
      Try.◌>>◌ (PacketType.validate_type_flags value.packet_type value.flags)
        (Try.◌>>◌ (RemainingLength.len_from_u32 value.remaining_length) (ok tt))

module _ ⦃f : Bitflags⦄ {W : Type 0} ⦃writer : Write W⦄ where
  -- `FixedHeaderSlice::write_sync`, and `FixedHeaderBuilder::write_sync`, which calls it.
  pub write_sync : FixedHeaderBuilder → Io W ℕ
  unfolding validate_value encode_len
  write_sync value = do
    lift (validate_value value)
    to_write ← lift (encode_len value)
    write_all (PacketType.encode_type_and_flags value.packet_type value.flags ∷ [])
        "writing fixed header type and flags"
    RemainingLength.Write.write_sync value.remaining_length
    pure to_write

  -- `FixedHeaderBuilder::with_flags(t, flags).remaining_length(len)?.write_sync(writer)`, the way
  -- every packet starts its `write_sync`; `FixedHeaderBuilder::new` has the default flags.
  pub write_header : FixedHeaderBuilder → ℕ → Io W ℕ
  unfolding write_sync remaining_length
  write_header builder len = do value ← lift (remaining_length len builder); write_sync value
