-- ===== src/Fixed/PacketType.antt =====
-- src/v3/packets/common/fixed/mod.rs: the first byte of a packet, its type and its flags.
-- A `TypeFlags` is given by its bits.
pub mod RoundTrip
use Prim.Native.Nat.{bit_and, bit_or}
use mcutt.Common.{ℕ, ◌*◌, ◌/◌, ◌%◌, Bool, true, false, not, ◌==◌, if◌then◌else◌, ltb}
use mcutt.Bytes.{Bytes, Error, error, invalid, Result, ok, err, ok_or}
use mcutt.Bytes.Try.{◌>>=◌, ◌>>◌, fail_if}
use mcutt.Fixed.TypeFlags
use mcutt.External.Bitflags.{Bitflags}

pub data ControlPacketType : Type 0 where
  connect conn_ack publish pub_ack pub_rec pub_rel pub_comp : ControlPacketType
  subscribe sub_ack unsubscribe unsub_ack ping_req ping_resp disconnect : ControlPacketType

-- `u8::from`, the discriminant.
abbrev pub to_u8 : ControlPacketType → ℕ
to_u8 connect = 1
to_u8 conn_ack = 2
to_u8 publish = 3
to_u8 pub_ack = 4
to_u8 pub_rec = 5
to_u8 pub_rel = 6
to_u8 pub_comp = 7
to_u8 subscribe = 8
to_u8 sub_ack = 9
to_u8 unsubscribe = 10
to_u8 unsub_ack = 11
to_u8 ping_req = 12
to_u8 ping_resp = 13
to_u8 disconnect = 14

pub try_from : ℕ → Result ControlPacketType Error
try_from value =
    if value == 1
    then ok connect
    else if value == 2
    then ok conn_ack
    else if value == 3
    then ok publish
    else if value == 4
    then ok pub_ack
    else if value == 5
    then ok pub_rec
    else if value == 6
    then ok pub_rel
    else if value == 7
    then ok pub_comp
    else if value == 8
    then ok subscribe
    else if value == 9
    then ok sub_ack
    else if value == 10
    then ok unsubscribe
    else if value == 11
    then ok unsub_ack
    else if value == 12
    then ok ping_req
    else if value == 13
    then ok ping_resp
    else if value == 14
    then ok disconnect
    else err (error invalid "control packet type")

-- `(u8::from(pk_type) << 4) | flags.bits()`.
pub encode_type_and_flags : ControlPacketType → ℕ → ℕ
encode_type_and_flags pk_type flags = bit_or (to_u8 pk_type * 16 % 256) flags

pub default_flags : ControlPacketType → ℕ
default_flags pub_rel = TypeFlags.pubrel
default_flags subscribe = TypeFlags.subscribe
default_flags unsubscribe = TypeFlags.unsubscribe
default_flags _ = 0

module _ ⦃f : Bitflags⦄ where
  pub validate_type_flags : ControlPacketType → ℕ → Result (Unit {0}) Error
  validate_type_flags publish flags = ok tt
  validate_type_flags pub_rel flags =
      fail_if (not (flags == TypeFlags.pubrel)) (error invalid "pubrel flags")
  validate_type_flags subscribe flags =
      fail_if (not (flags == TypeFlags.subscribe)) (error invalid "subscribe flags")
  validate_type_flags unsubscribe flags =
      fail_if (not (flags == TypeFlags.unsubscribe)) (error invalid "unsubscribe flags")
  validate_type_flags _ flags = fail_if (not (f.is_empty flags)) (error invalid "non empty flags")

  -- `ControlPacketType::parse`.
  pub parse : ℕ → Result (ControlPacketType × ℕ) Error
  unfolding try_from validate_type_flags
  parse type_and_flags = do
    pk_type ← try_from (type_and_flags / 16)
    flags ←
        ok_or (error invalid "control packet flags")
          (f.from_bits TypeFlags.all_bits (bit_and type_and_flags 15))
    validate_type_flags pk_type flags
    ok (pk_type, flags)
