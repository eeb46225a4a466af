-- ===== src/Fixed/Header.antt =====
-- src/v3/packets/common/fixed/mod.rs: the fixed header, its first byte and the bytes of the
-- remaining length, parsed as a slice or as an array.
pub mod Builder
pub mod ArrayWriter
pub mod RoundTrip
pub mod Frame
pub mod Next
pub mod Local
pub mod Cuts
pub mod Prefix
use Prim.Native.Nat.{bit_and}
use mathlib.Core.Option
use mcutt.Common.{
  ℕ, zero, suc, ◌+◌, ◌/◌, Option, none, some, List, [], ◌∷◌, length, split_at_checked, ltb,
  if◌then◌else◌,
}
use mcutt.Bytes.{
  Bytes, Error, error, not_enough_space, out_of_range, overflow, Result, ok, err, ok_or,
  checked_add, usize_mod,
}
use mcutt.Bytes.Try.{◌>>=◌, ◌>>◌, map_ok}
use mcutt.External.Zerocopy.{Zerocopy}
use mcutt.External.Bitflags.{Bitflags}
use mcutt.Fixed.RemainingLength
use mcutt.Fixed.PacketType
use mcutt.Fixed.PacketType.{ControlPacketType}

pub record FixedHeader : Type 0 where
  pub type_and_flags : ℕ
  pub remaining_length : Bytes

-- The struct from its bytes: one byte, then the rest.
abbrev pub from_parts : Bytes → Bytes → FixedHeader
from_parts [] tail = record { type_and_flags = 0; remaining_length = tail }
from_parts (b ∷ bs) tail = record { type_and_flags = b; remaining_length = tail }

-- The struct with an array: the bytes after the first are the remaining length.
abbrev pub from_array : Bytes → FixedHeader
from_array [] = record { type_and_flags = 0; remaining_length = [] }
from_array (b ∷ bs) = record { type_and_flags = b; remaining_length = bs }

-- `FixedHeader::packet_type`; an error is the panic of `expect`.
pub packet_type : FixedHeader → Result ControlPacketType Error
packet_type h = PacketType.try_from (h.type_and_flags / 16)

-- The end of `next_frame`, on the bytes of the remaining length: the sum of the three parts.
frame_len : ℕ → Bytes → Result (Option ℕ) Error
frame_len rem_bytes buff =
    let rem_len = RemainingLength.read_from_buf buff in
    if ltb rem_len usize_mod
    then ok_or (error overflow "next frame") (Option.map some (checked_add (1 + rem_bytes) rem_len))
    else err (error out_of_range "remaining length as usize")

-- `buff.get(..rem_bytes)`, and what follows.
prefix_frame : ℕ → Option (Bytes × Bytes) → Result (Option ℕ) Error
unfolding frame_len
prefix_frame rem_bytes none = ok none
prefix_frame rem_bytes (some (front, back)) = frame_len rem_bytes front

-- `FixedHeader::next_frame`: the length of the first packet, `none` while its header is not
-- complete.
unfoldable pub next_frame : Bytes → Result (Option ℕ) Error
unfolding prefix_frame
next_frame [] = ok none
next_frame (b ∷ buff) = do
  flags ← RemainingLength.count_continue_flags buff
  prefix_frame (1 + flags) (split_at_checked (1 + flags) buff)

module _ ⦃f : Bitflags⦄ where
  -- `FixedHeader::flags`.
  pub flags : FixedHeader → ℕ
  flags h = f.from_bits_retain (bit_and h.type_and_flags 15)

  -- `Parsed::validate`, the same for the slice and the array.
  pub validate : FixedHeader → Result (Unit {0}) Error
  validate h = do
    PacketType.parse h.type_and_flags
    RemainingLength.validate h.remaining_length
    ok tt

module _ ⦃z : Zerocopy⦄ ⦃f : Bitflags⦄ where
  abbrev keep_bytes : FixedHeader → Bytes × Bytes → FixedHeader
  keep_bytes this (front, back) = record this { remaining_length = front }

  -- `FixedHeaderSlice::parse`.
  pub parse : Bytes → Result (FixedHeader × Bytes) Error
  parse buf = do
    (head, tail) ← ok_or (error not_enough_space "fixed header") (z.ref_from_bytes 1 buf)
    let this = from_parts head tail
    PacketType.parse this.type_and_flags
    (remaining_length, rest) ← RemainingLength.parse this.remaining_length
    let bytes = length remaining_length
    split ←
        ok_or (error not_enough_space "fixed header split after remaining length")
          (z.split_at bytes this.remaining_length)
    ok (keep_bytes this split, rest)

  -- `FixedHeaderArray::<N>::parse`.
  pub parse_array : ℕ → Bytes → Result (FixedHeader × Bytes) Error
  unfolding validate
  parse_array n buf = do
    (head, rest) ← ok_or (error not_enough_space "fixed header") (z.ref_from_prefix (1 + n) buf)
    validate (from_array head)
    ok (from_array head, rest)
