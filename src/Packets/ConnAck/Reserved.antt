-- ===== src/Packets/ConnAck/Reserved.antt =====
-- What the checks of CONNACK let through.
use Prim.Native.Nat.{bit_and}
use mcutt.Common.{ℕ, ◌<◌, ◌≡◌, refl, true, ◌++◌, leb, arith}
use mcutt.Common.Bits.{agree_below, eq_below}
use mcutt.Bytes.{Bytes, error, invalid, ok, err}
use mcutt.Bytes.Emits.{Emits}
use mcutt.Bytes.Io.{Write}
use mcutt.External.Zerocopy.{Zerocopy}
use mcutt.External.Bitflags.{Bitflags}
use mcutt.Fixed.PacketType.{conn_ack}
use mcutt.Fixed.PacketType.RoundTrip.{parse_low}
use mcutt.Fixed.Header.RoundTrip.{parse_array-bad_type}
use mcutt.Packets.Short.{short_bytes, parse_array-short_bytes}
use mcutt.Packets.ConnAck.{
  ConnAck, ReturnCode, accepted, code_byte, code_of, valid_bytes, as_bytes, validate, parse,
}
use mcutt.Packets.ConnAck.Write.{write_sync, write_sync-Emits}

no_bits : (b : ℕ) → b < 256 → bit_and b 0 ≡ 0
unfolding agree_below
no_bits = eq_below _ _ 256 refl

module _ ⦃f : Bitflags⦄ where
  -- `validate` accepts every flags byte, with any return code: the complement of the only flag has no bits, so that the test
  -- for reserved bits never fails.
  pub validate-accepts : (this : ConnAck) → this.flags < 256 → validate this ≡ ok tt
  unfolding validate
  validate-accepts this h =
      rw (f.complement_lem 1 1, f.intersection_lem, f.is_empty_lem, no_bits this.flags h)

code-valid : (c : ReturnCode) → leb (code_byte c) 5 ≡ true
code-valid accepted = refl
code-valid _ = refl

code_of-code_byte : (c : ReturnCode) → code_of (code_byte c) ≡ c
code_of-code_byte accepted = refl
code_of-code_byte _ = refl

module _ ⦃z : Zerocopy⦄ ⦃f : Bitflags⦄ where
  -- Behind the header of a CONNACK, `parse` accepts any flags byte, the reserved bits included,
  -- with any of the six return codes, and returns both as they stand.
  pub parse-as_bytes :
      (this : ConnAck) (rest : Bytes)
      → this.flags < 256
      → parse (short_bytes conn_ack 2 ++ (as_bytes this ++ rest)) ≡ ok (this, rest)
  unfolding parse
  parse-as_bytes this rest h = rw (
    parse_array-short_bytes conn_ack 2 (as_bytes this ++ rest) (omega arith),
    z.try_ref_from_prefix_lem 2 valid_bytes (as_bytes this ++ rest),
    code-valid this.return_code,
    code_of-code_byte this.return_code,
    validate-accepts this h,
  )

module _ ⦃z : Zerocopy⦄ ⦃f : Bitflags⦄ {W : Type 0} ⦃writer : Write W⦄ where
  -- `write_sync` emits no fixed header: with the reserved bits clear, `parse` refuses what was
  -- written for its packet type, whatever the return code and whatever follows.
  pub parse-write_sync_refused :
      (this : ConnAck) (rest : Bytes)
      → this.flags < 16
      → Emits {W = W} (as_bytes this) 2 (write_sync this)
        × (parse (as_bytes this ++ rest) ≡ err (error invalid "control packet type"))
  unfolding parse
  parse-write_sync_refused this rest h = (
    write_sync-Emits this (validate-accepts this (omega arith)),
    rw (parse_array-bad_type this.flags (code_byte this.return_code) rest (parse_low this.flags h))
        refl,
  )
