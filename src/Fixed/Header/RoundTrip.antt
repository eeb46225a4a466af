-- ===== src/Fixed/Header/RoundTrip.antt =====
-- The fixed header that is written is the one that `parse` reads.
use mcutt.Common.{
  ℕ, ◌+◌, ◌*◌, ◌/◌, ◌≤◌, ◌<◌, ◌≡◌, refl, sym, ap, ◌∙◌, inl, inr, [], ◌∷◌, ◌++◌, length,
  split_at_checked, split_at_checked-append, some, arith,
}
use mcutt.Common.Bits.{low_four}
use mcutt.Bytes.{Bytes, Error, error, Result, ok, err, not_enough_space}
use mcutt.Bytes.Try.{Result-cases}
use mcutt.External.Zerocopy.{Zerocopy}
use mcutt.External.Bitflags.{Bitflags}
use mcutt.Fixed.RemainingLength
use mcutt.Fixed.RemainingLength.{len_from_u32, encode_to_array}
use mcutt.Fixed.RemainingLength.Encoding.{len_from_u32-lt, length-encode_to_array}
use mcutt.Fixed.Header.Builder.Emits.{header_bytes}
use mcutt.Fixed.RemainingLength.RoundTrip.{
  IsTerminated, parse_sound, parse-encode_to_array, encode_to_array-IsTerminated,
  validate-IsTerminated,
}
use mcutt.Fixed.PacketType
use mcutt.Fixed.PacketType.{ControlPacketType, to_u8, validate_type_flags, default_flags}
use mcutt.Fixed.PacketType.RoundTrip.{
  to_u8_bound, try_from-to_u8, encode_type_and_flags_lem, parse-encode_type_and_flags,
}
use mcutt.Fixed.Header.{FixedHeader, parse, parse_array, packet_type, flags, validate}

-- The header that these bytes are.
abbrev pub header : ControlPacketType → ℕ → ℕ → ℕ → FixedHeader
header t fl n v = record {
  type_and_flags = PacketType.encode_type_and_flags t fl;
  remaining_length = encode_to_array n v;
}

module _ ⦃z : Zerocopy⦄ ⦃f : Bitflags⦄ where
  -- A first byte that parses and a remaining length that parses make a header.
  pub parse-ok :
      (b : ℕ) (tail len rest : Bytes) {p : ControlPacketType × ℕ}
      → PacketType.parse b ≡ ok p
      → RemainingLength.parse tail ≡ ok (len, rest)
      → parse (b ∷ tail) ≡ ok (record { type_and_flags = b; remaining_length = len }, rest)
  unfolding parse
  parse-ok b tail len rest p q =
      let (parts, t, l) = parse_sound tail len rest q in
      let split : split_at_checked (length len) tail ≡ some (len, rest) =
        rw parts (split_at_checked-append len rest (length len) refl) in
      rw (z.ref_from_bytes_lem 1 (b ∷ tail), p, q, z.split_at_lem (length len) tail, split)

  pub parse-empty : parse [] ≡ err (error not_enough_space "fixed header")
  unfolding parse
  parse-empty = rw (z.ref_from_bytes_lem 1 [])

  parse-bad_type :
      (b : ℕ) (tail : Bytes) {e : Error} → PacketType.parse b ≡ err e → parse (b ∷ tail) ≡ err e
  unfolding parse
  parse-bad_type b tail p = rw (z.ref_from_bytes_lem 1 (b ∷ tail), p)

  parse-bad_length :
      (b : ℕ) (tail : Bytes) {p : ControlPacketType × ℕ} {e : Error}
      → PacketType.parse b ≡ ok p
      → RemainingLength.parse tail ≡ err e
      → parse (b ∷ tail) ≡ err e
  unfolding parse
  parse-bad_length b tail p q = rw (z.ref_from_bytes_lem 1 (b ∷ tail), p, q)

  -- Of any buffer that `parse` accepts: the header's bytes are its front, its type and flags are
  -- valid, and all that follows is left.
  pub parse_parts :
      (buf rest : Bytes) (h : FixedHeader)
      → parse buf ≡ ok (h, rest)
      → (p : ControlPacketType × ℕ) × (PacketType.parse h.type_and_flags ≡ ok p)
        × (buf ≡ h.type_and_flags ∷ (h.remaining_length ++ rest))
        × IsTerminated h.remaining_length
        × (length h.remaining_length ≤ 4)
  parse_parts [] rest h e = absurd (cc (parse-empty))
  parse_parts (b ∷ tail) rest h e = elim (Result-cases (PacketType.parse b)) [
    | inr (x, p) ↦ absurd (cc (parse-bad_type b tail p))
    | inl (t, p) ↦ elim (Result-cases (RemainingLength.parse tail)) [
      | inr (x, q) ↦ absurd (cc (parse-bad_length b tail p q))
      | inl ((len, rest'), q) ↦
          let (parts, term, l) = parse_sound tail len rest' q in
          let same : ◌≡◌ {A = Result (FixedHeader × Bytes) Error} (ok (h, rest))
              (ok (record { type_and_flags = b; remaining_length = len }, rest')) =
            sym e ∙ parse-ok b tail len rest' p q in
          let is_h : record { type_and_flags = b; remaining_length = len } ≡ h = cc in
          let is_rest : rest' ≡ rest = cc in
          rw (← is_h, ← is_rest) (t, p, ap (λ xs. b ∷ xs) parts, term, l)
    ]
  ]

module _ ⦃f : Bitflags⦄ where
  pub validate-ok :
      (b : ℕ) (len : Bytes) {p : ControlPacketType × ℕ}
      → PacketType.parse b ≡ ok p
      → RemainingLength.validate len ≡ ok tt
      → validate (record { type_and_flags = b; remaining_length = len }) ≡ ok tt
  unfolding validate
  validate-ok b len p q = rw (p, q)

  -- The type and flags of a header with this first byte.
  pub flags-encode_type_and_flags :
      (t : ControlPacketType) (fl : ℕ) (len : Bytes)
      → fl < 16
      → flags (record {
        type_and_flags = PacketType.encode_type_and_flags t fl;
        remaining_length = len;
      })
        ≡ fl
  unfolding flags
  flags-encode_type_and_flags t fl len h =
      rw (encode_type_and_flags_lem t fl h, f.from_bits_retain_lem, low_four _ bound) (omega arith)
    where
      bound : to_u8 t * 16 + fl < 256
      bound = omega (arith, to_u8_bound t)

pub packet_type-encode_type_and_flags :
    (t : ControlPacketType) (fl : ℕ) (len : Bytes)
    → fl < 16
    → packet_type
        (record { type_and_flags = PacketType.encode_type_and_flags t fl; remaining_length = len })
      ≡ ok t
unfolding packet_type
packet_type-encode_type_and_flags t fl len h =
    let hi : (to_u8 t * 16 + fl) / 16 ≡ to_u8 t = omega arith in
    rw (encode_type_and_flags_lem t fl h, hi) (try_from-to_u8 t)

module _ ⦃z : Zerocopy⦄ ⦃f : Bitflags⦄ where
  -- With valid flags and a length below the limit, `parse` takes exactly the written header off a
  -- buffer, and the fields of the result are those written.
  pub parse-header_bytes :
      (t : ControlPacketType) (fl v n : ℕ) (rest : Bytes)
      → fl < 16
      → validate_type_flags t fl ≡ ok tt
      → len_from_u32 v ≡ ok n
      → (parse (header_bytes t fl n v ++ rest) ≡ ok (header t fl n v, rest))
        × (packet_type (header t fl n v) ≡ ok t)
        × (flags (header t fl n v) ≡ fl)
        × (RemainingLength.read_len (header t fl n v).remaining_length ≡ v)
  parse-header_bytes t fl v n rest small valid len =
      let (n', e, l, p, va, r, rl, rb) = parse-encode_to_array v rest (len_from_u32-lt v n len) in
      let same : n' ≡ n = cc in
      (
        parse-ok _ _ _ _ (parse-encode_type_and_flags t fl small valid) (rw same at p),
        packet_type-encode_type_and_flags t fl _ small,
        flags-encode_type_and_flags t fl _ small,
        rw same at rl,
      )

  -- The array of one byte reads the header of a packet shorter than 128 bytes.
  pub parse_array-header_bytes :
      (t : ControlPacketType) (fl v : ℕ) (rest : Bytes)
      → fl < 16
      → validate_type_flags t fl ≡ ok tt
      → v < 128
      → parse_array 1 (header_bytes t fl 1 v ++ rest) ≡ ok (header t fl 1 v, rest)
  unfolding parse_array
  parse_array-header_bytes t fl v rest small valid h = rw (
    z.ref_from_prefix_lem 2 _,
    split,
    validate-ok b len (parse-encode_type_and_flags t fl small valid) fine,
  )
    where
      b : ℕ
      b = PacketType.encode_type_and_flags t fl

      len : Bytes
      len = encode_to_array 1 v

      one : length len ≡ 1
      one = length-encode_to_array 1 v

      split : split_at_checked 2 (b ∷ (len ++ rest)) ≡ some (b ∷ len, rest)
      split = split_at_checked-append (b ∷ len) rest 2 (omega (arith, one))

      fine : RemainingLength.validate len ≡ ok tt
      fine = validate-IsTerminated len (encode_to_array-IsTerminated 1 v h) (omega (arith, one))

  pub parse_array-bad_type :
      (b c : ℕ) (rest : Bytes) {e : Error}
      → PacketType.parse b ≡ err e
      → parse_array 1 (b ∷ c ∷ rest) ≡ err e
  unfolding parse_array validate
  parse_array-bad_type b c rest p = rw (z.ref_from_prefix_lem 2 (b ∷ c ∷ rest), p)
