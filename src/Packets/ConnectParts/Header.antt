-- ===== src/Packets/ConnectParts/Header.antt =====
-- `KeepAlive` and `ConnectHeader` of src/v3/packets/connect/mod.rs.
pub mod Write
use mcutt.Common.{
  ℕ, List, [], ◌∷◌, ◌++◌, Bool, true, false, not, ◌&&◌, ◌==◌, ltb, if◌then◌else◌, Option, none,
  some,
}
use mcutt.Bytes.{Bytes, Error, error, invalid, not_enough_space, Result, ok, err, ok_or}
use mcutt.Bytes.Try.{◌>>=◌, ◌>>◌, fail_if}
use mcutt.External.Zerocopy.{Zerocopy}
use mcutt.External.Bitflags.{Bitflags}
use mcutt.Packets.ConnectParts.Flags

-- The struct is transparent: its bytes are those of its `U16`.
pub record KeepAlive : Type 0 where
  pub seconds : Bytes

module _ ⦃z : Zerocopy⦄ where
  unfoldable pub is_enabled : KeepAlive → Bool
  is_enabled this = not (z.u16_get this.seconds == 0)

  -- `KeepAlive::read`, in seconds.
  unfoldable pub read : KeepAlive → ℕ
  read this = z.u16_get this.seconds

  -- `KeepAlive::from`, for a `u16`.
  unfoldable pub from_u16 : ℕ → KeepAlive
  from_u16 value = record { seconds = z.u16_bytes value }

  -- `KeepAlive::try_from`, for a duration of so many whole seconds.
  unfoldable pub try_from_secs : ℕ → Option KeepAlive
  unfolding from_u16
  try_from_secs secs = if ltb secs 65536 then some (from_u16 secs) else none

  unfoldable pub default : KeepAlive
  default = record { seconds = z.u16_bytes 60 }

pub record ConnectHeader : Type 0 where
  pub protocol_name : Bytes
  pub protocol_level : ℕ
  pub flags : ℕ
  pub keep_alive : KeepAlive

abbrev pub protocol_name : Bytes
protocol_name = 0x0 ∷ 0x4 ∷ b'M' ∷ b'Q' ∷ b'T' ∷ b'T' ∷ []

abbrev pub protocol_level_v3_1_1 : ℕ
protocol_level_v3_1_1 = 0x4

-- The struct is `repr(C)`, of ten bytes.
abbrev pub as_bytes : ConnectHeader → Bytes
as_bytes this = this.protocol_name ++ (this.protocol_level ∷ this.flags ∷ this.keep_alive.seconds)

abbrev pub from_bytes : Bytes → ConnectHeader
from_bytes (a ∷ b ∷ c ∷ d ∷ e ∷ g ∷ level ∷ flags ∷ seconds) = record {
  protocol_name = a ∷ b ∷ c ∷ d ∷ e ∷ g ∷ [];
  protocol_level = level;
  flags = flags;
  keep_alive = record { seconds = seconds };
}
from_bytes _ = record {
  protocol_name = [];
  protocol_level = 0;
  flags = 0;
  keep_alive = record { seconds = [] };
}

-- `==` on arrays of bytes.
abbrev same_bytes : Bytes → Bytes → Bool
same_bytes [] [] = true
same_bytes [] (y ∷ ys) = false
same_bytes (x ∷ xs) [] = false
same_bytes (x ∷ xs) (y ∷ ys) = x == y && same_bytes xs ys

module _ ⦃f : Bitflags⦄ where
  unfoldable pub validate : ConnectHeader → Result (Unit {0}) Error
  validate this =
      let is_valid =
        same_bytes this.protocol_name protocol_name
        && (this.protocol_level == protocol_level_v3_1_1
            && not (f.contains this.flags Flags.reserved)) in
      fail_if (not is_valid) (error invalid "CONNECT variable header")

module _ ⦃z : Zerocopy⦄ ⦃f : Bitflags⦄ where
  unfoldable pub parse : Bytes → Result (ConnectHeader × Bytes) Error
  unfolding validate
  parse buf = do
    (this, rest) ← ok_or (error not_enough_space "connect header") (z.ref_from_prefix 10 buf)
    validate (from_bytes this)
    ok (from_bytes this, rest)
