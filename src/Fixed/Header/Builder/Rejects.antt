-- ===== src/Fixed/Header/Builder/Rejects.antt =====
-- The lengths that a fixed header cannot carry.
use mcutt.Common.{ℕ, ◌≤◌, ◌≡◌, inl, inr, ltb, Bool-cases}
use mcutt.Bytes.{error, out_of_range, ok, err}
use mcutt.Bytes.Io.{Write}
use mcutt.Bytes.Emits.{Rejects, Rejects-lift_bind, Rejects-after_lift}
use mcutt.External.Bitflags.{Bitflags}
use mcutt.Fixed.RemainingLength.{u32_mod}
use mcutt.Fixed.RemainingLength.Encoding.{len_from_u32_limit}
use mcutt.Fixed.PacketType.{ControlPacketType, validate_type_flags}
use mcutt.Fixed.Header.Builder.{
  FixedHeaderBuilder, with_flags, remaining_length, validate_value, write_sync, write_header,
}

module _ ⦃f : Bitflags⦄ {W : Type 0} ⦃writer : Write W⦄ where
  -- A length at or above the limit is refused, and nothing is written.
  pub write_header-Rejects :
      (t : ControlPacketType) (fl v : ℕ)
      → 268435456 ≤ v
      → validate_type_flags t fl ≡ ok tt
      → Rejects {W = W} (error out_of_range "remaining length") (write_header (with_flags t fl) v)
  unfolding write_header write_sync remaining_length with_flags validate_value
  write_header-Rejects t fl v big valid = elim (Bool-cases (ltb v u32_mod)) [
    | inr h ↦
        let over : remaining_length v (with_flags t fl)
            ≡ err (error out_of_range "remaining length") =
          rw h in
        Rejects-lift_bind _ over
    | inl h ↦
        let sized : FixedHeaderBuilder = record {
          packet_type = t;
          flags = fl;
          remaining_length = v;
        } in
        let set : remaining_length v (with_flags t fl) ≡ ok sized = rw h in
        let over : validate_value sized ≡ err (error out_of_range "remaining length") =
          rw (valid, len_from_u32_limit v big) in
        Rejects-after_lift _ set (Rejects-lift_bind _ over)
  ]
