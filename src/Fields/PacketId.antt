-- ===== src/Fields/PacketId.antt =====
-- src/v3/packets/common/packet_id.rs: the identifier of a packet, a non-zero 16-bit value. The
-- values given to a `write_sync` are `NonZero<u16>` by their type: the hypothesis `IsNonZero`.
pub mod Write
pub mod Takes
use mcutt.Common.{ℕ, ◌<◌, ◌==◌, Option, none, some, if◌then◌else◌}
use mcutt.Bytes.{Bytes, Error, error, invalid, not_enough_space, Result, ok, err, ok_or}
use mcutt.Bytes.Try.{◌>>=◌, ◌>>◌, fail_if}
use mcutt.External.Zerocopy.{Zerocopy}

-- The struct is transparent: its bytes are those of its `U16`.
pub record PacketId : Type 0 where
  pub pkid : Bytes

abbrev pub IsNonZero : ℕ → Type 0
IsNonZero v = (0 < v) × (v < 65536)

module _ ⦃z : Zerocopy⦄ where
  -- `PacketId::read`; `none` is the panic of `expect`.
  pub read : PacketId → Option ℕ
  read this = if z.u16_get this.pkid == 0 then none else some (z.u16_get this.pkid)

  pub validate : PacketId → Result (Unit {0}) Error
  validate this = fail_if (z.u16_get this.pkid == 0) (error invalid "packet id cannot be 0")

  abbrev checked : Bytes × Bytes → Result (PacketId × Bytes) Error
  checked (front, rest) = do validate (record { pkid = front }); ok (record { pkid = front }, rest)

  pub parse : Bytes → Result (PacketId × Bytes) Error
  unfolding validate
  parse buf = do
    parts ← ok_or (error not_enough_space "couldn't parse packet id") (z.ref_from_prefix 2 buf)
    checked parts
