-- ===== src/Fixed/Header/Builder/Emits.antt =====
-- What writing a fixed header puts on the writer.
use mcutt.Common.{ℕ, ◌+◌, ◌<◌, ◌≡◌, ◌∷◌, arith}
use mcutt.Bytes.{Bytes, ok}
use mcutt.Bytes.Io.{Write}
use mcutt.Bytes.Emits.{Emits, Emits-bind, Emits-lift_bind, Emits-write_all, Emits-return}
use mcutt.External.Bitflags.{Bitflags}
use mcutt.Fixed.RemainingLength.{len_from_u32, encode_to_array}
use mcutt.Fixed.RemainingLength.Encoding.{len_from_u32-Needs, len_from_u32-lt, len_from_u32_small}
use mcutt.Fixed.RemainingLength.Write.{write_sync-Emits, encode_len_lem}
use mcutt.Fixed.PacketType
use mcutt.Fixed.PacketType.{ControlPacketType, validate_type_flags, default_flags}
use mcutt.Fixed.PacketType.RoundTrip.{default_flags-valid}
use mcutt.Fixed.Header.Builder.{
  FixedHeaderBuilder, with_flags, new, remaining_length, encode_len, validate_value, write_sync,
  write_header,
}

-- The bytes of a fixed header whose remaining length takes `n` bytes.
abbrev pub header_bytes : ControlPacketType → ℕ → ℕ → ℕ → Bytes
header_bytes t fl n v = PacketType.encode_type_and_flags t fl ∷ encode_to_array n v

abbrev pub sized : ControlPacketType → ℕ → ℕ → FixedHeaderBuilder
sized t fl v = record { packet_type = t; flags = fl; remaining_length = v }

remaining_length-ok :
    (t : ControlPacketType) (fl v : ℕ)
    → v < 268435456
    → remaining_length v (with_flags t fl) ≡ ok (sized t fl v)
unfolding remaining_length with_flags
remaining_length-ok t fl v h = ground arith

encode_len-ok :
    (t : ControlPacketType) (fl v n : ℕ)
    → len_from_u32 v ≡ ok n
    → encode_len (sized t fl v) ≡ ok (n + 1)
unfolding encode_len
encode_len-ok t fl v n h = rw (encode_len_lem v, h) (ground (arith, (len_from_u32-Needs v n h).1))

module _ ⦃f : Bitflags⦄ where
  validate_value-ok :
      (t : ControlPacketType) (fl v n : ℕ)
      → validate_type_flags t fl ≡ ok tt
      → len_from_u32 v ≡ ok n
      → validate_value (sized t fl v) ≡ ok tt
  unfolding validate_value
  validate_value-ok t fl v n valid h = rw (valid, h)

module _ ⦃f : Bitflags⦄ {W : Type 0} ⦃writer : Write W⦄ where
  -- With valid flags and a length below the limit the header is written, in `n + 1` bytes.
  pub write_header-Emits :
      (t : ControlPacketType) (fl v n : ℕ)
      → validate_type_flags t fl ≡ ok tt
      → len_from_u32 v ≡ ok n
      → Emits {W = W} (header_bytes t fl n v) (n + 1) (write_header (with_flags t fl) v)
  unfolding write_header write_sync
  write_header-Emits t fl v n valid h =
      Emits-lift_bind _ (remaining_length-ok t fl v (len_from_u32-lt v n h)) (
        Emits-lift_bind _ (validate_value-ok t fl v n valid h) (
          Emits-lift_bind _ (encode_len-ok t fl v n h) (
            Emits-bind _ (Emits-write_all _ _)
              (Emits-return (λ u. n + 1) (write_sync-Emits v n h)))))

  -- The same with the default flags of the type.
  pub write_header-new-Emits :
      (t : ControlPacketType) (v n : ℕ)
      → len_from_u32 v ≡ ok n
      → Emits {W = W} (header_bytes t (default_flags t) n v) (n + 1) (write_header (new t) v)
  unfolding new
  write_header-new-Emits t v n h =
      write_header-Emits t (default_flags t) v n (default_flags-valid t) h

  -- A packet with nothing behind the header: its length was never set and is 0.
  pub write_sync-new-Emits :
      (t : ControlPacketType)
      → Emits {W = W} (header_bytes t (default_flags t) 1 0) 2 (write_sync (new t))
  unfolding write_sync new with_flags
  write_sync-new-Emits t =
      Emits-lift_bind _ (validate_value-ok t (default_flags t) 0 1 (default_flags-valid t) zero-len)
        (Emits-lift_bind _ (encode_len-ok t (default_flags t) 0 1 zero-len) (
          Emits-bind _ (Emits-write_all _ _)
            (Emits-return (λ u. 2) (write_sync-Emits 0 1 zero-len))))
    where
      zero-len : len_from_u32 0 ≡ ok 1
      zero-len = len_from_u32_small 0 (omega arith)
