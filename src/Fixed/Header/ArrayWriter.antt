-- ===== src/Fixed/Header/ArrayWriter.antt =====
-- `FixedHeaderArray<N>`: `Input` and `Encode` of a fixed header in an array of 1 + N bytes. Unlike
-- the remaining length in an array, it does not look at the number of bytes that the length takes.
use mcutt.Common.{ℕ, ◌+◌, ◌<◌, ◌≡◌, ◌↔◌, refl, ◌∷◌, ◌++◌, split_at_checked-append, arith}
use mcutt.Bytes.{Bytes, Error, Result, ok, err}
use mcutt.Bytes.Try.{◌>>=◌, ◌>>◌}
use mcutt.Bytes.Io
use mcutt.Bytes.Io.{Write, Io, pure, lift, write_all}
use mcutt.Bytes.Emits.{Emits, Emits-lift_bind, Emits-return, Emits-write_all}
use mcutt.External.Zerocopy.{Zerocopy}
use mcutt.External.Bitflags.{Bitflags}
use mcutt.Fixed.RemainingLength
use mcutt.Fixed.RemainingLength.{len_from_u32, encode_to_array}
use mcutt.Fixed.RemainingLength.Encoding.{len_from_u32-Needs, length-encode_to_array}
use mcutt.Fixed.RemainingLength.RoundTrip.{encode_to_array-IsTerminated, validate-IsTerminated}
use mcutt.Fixed.RemainingLength.Terminated.{validate_sound, IsTerminated-Needs, Needs-unique}
use mcutt.Fixed.PacketType
use mcutt.Fixed.PacketType.{ControlPacketType, validate_type_flags}
use mcutt.Fixed.PacketType.RoundTrip.{parse-encode_type_and_flags}
use mcutt.Fixed.Header.{FixedHeader, parse_array, validate}
use mcutt.Fixed.Header.Builder.{FixedHeaderBuilder}
use mcutt.Fixed.Header.Builder.Emits.{header_bytes, sized}
use mcutt.Fixed.Header.RoundTrip.{header}

-- `IntoBytes::as_bytes`: the fields one after the other.
abbrev as_bytes : FixedHeader → Bytes
as_bytes this = this.type_and_flags ∷ this.remaining_length

pub encode_len : ℕ → FixedHeaderBuilder → Result ℕ Error
encode_len n value = ok (1 + n)

module _ ⦃f : Bitflags⦄ where
  pub validate_value : ℕ → FixedHeaderBuilder → Result FixedHeader Error
  validate_value n value = do
    validate_type_flags value.packet_type value.flags
    len_from_u32 value.remaining_length
    ok (record {
      type_and_flags = PacketType.encode_type_and_flags value.packet_type value.flags;
      remaining_length = encode_to_array n value.remaining_length;
    })

module _ ⦃f : Bitflags⦄ {W : Type 0} ⦃writer : Write W⦄ where
  pub write_sync : ℕ → FixedHeaderBuilder → Io W ℕ
  unfolding validate_value
  write_sync n value =
      Io.◌>>=◌ (lift (validate_value n value))
        λ this. Io.◌>>◌ (write_all (as_bytes this) "writing fixed header") (pure (1 + n))

  -- With valid flags and any length below the limit, the array header is written, in 1 + N bytes.
  pub write_sync-Emits :
      (n m : ℕ) (t : ControlPacketType) (fl v : ℕ)
      → validate_type_flags t fl ≡ ok tt
      → len_from_u32 v ≡ ok m
      → Emits {W = W} (header_bytes t fl n v) (1 + n) (write_sync n (sized t fl v))
  unfolding write_sync
  write_sync-Emits n m t fl v valid h =
      let this : validate_value n (sized t fl v) ≡ ok (header t fl n v) = rw (valid, h) in
      Emits-lift_bind _ this (Emits-return (λ u. 1 + n) (Emits-write_all _ _))

module _ ⦃f : Bitflags⦄ where
  validate-header :
      (t : ControlPacketType) (fl n v : ℕ)
      → fl < 16
      → validate_type_flags t fl ≡ ok tt
      → validate (header t fl n v) ≡ (RemainingLength.validate (encode_to_array n v) >>= λ u. ok tt)
  unfolding validate
  validate-header t fl n v small valid = rw (parse-encode_type_and_flags t fl small valid)

-- `validate` accepts an array of `n` bytes exactly when the length takes that many.
validate-encode_to_array :
    (n m v : ℕ)
    → 0 < n
    → len_from_u32 v ≡ ok m
    → (RemainingLength.validate (encode_to_array n v) ≡ ok tt) ↔ (m ≡ n)
validate-encode_to_array n m v pos h =
    let (needs, few) = len_from_u32-Needs v m h in
    let len = length-encode_to_array n v in
    (
      (λ e.
          let (term, l) = validate_sound (encode_to_array n v) (omega (arith, len, pos)) e in
          Needs-unique m n v needs (IsTerminated-Needs n v term)),
      (λ same.
          let term = encode_to_array-IsTerminated n v (rw same at needs) in
          validate-IsTerminated (encode_to_array n v) term (omega (arith, len, few, same))),
    )

-- What `parse_array` returns, by the outcome of `validate`.
abbrev accept : FixedHeader → Bytes → Result (Unit {0}) Error → Result (FixedHeader × Bytes) Error
accept h rest (ok u) = ok (h, rest)
accept h rest (err e) = err e

accept_iff :
    (h : FixedHeader) (rest : Bytes) (r : Result (Unit {0}) Error)
    → (accept h rest r ≡ ok (h, rest)) ↔ (r ≡ ok tt)
accept_iff h rest (ok u) = ((λ e. refl), (λ e. refl))
accept_iff h rest (err x) = ((λ e. cc), (λ e. cc))

accept-bind :
    (h : FixedHeader) (rest : Bytes) (r : Result (Unit {0}) Error)
    → ((r >>= λ u. ok tt) >>= λ u. ok (h, rest)) ≡ accept h rest r
accept-bind h rest (ok u) = refl
accept-bind h rest (err x) = refl

module _ ⦃z : Zerocopy⦄ ⦃f : Bitflags⦄ where
  parse_array-validate :
      (t : ControlPacketType) (fl n v : ℕ) (rest : Bytes)
      → fl < 16
      → validate_type_flags t fl ≡ ok tt
      → parse_array n (header_bytes t fl n v ++ rest)
        ≡ accept (header t fl n v) rest (RemainingLength.validate (encode_to_array n v))
  unfolding parse_array
  parse_array-validate t fl n v rest small valid =
      rw
        (
          z.ref_from_prefix_lem (1 + n) (header_bytes t fl n v ++ rest),
          split_at_checked-append (header_bytes t fl n v) rest (1 + n)
              (omega (arith, length-encode_to_array n v)),
          validate-header t fl n v small valid,
        )
        (accept-bind (header t fl n v) rest (RemainingLength.validate (encode_to_array n v)))

module _ ⦃z : Zerocopy⦄ ⦃f : Bitflags⦄ {W : Type 0} ⦃writer : Write W⦄ where
  -- In a release build, with flags of four bits that are valid for the type and a length below the
  -- limit, the header with an array of `n` bytes is written for every `n` above 0, and `parse_array` of
  -- the same size takes the written header off what follows exactly when the length takes `n` bytes.
  -- A debug build panics instead of writing when it does not.
  pub write_sync-parse_array :
      (n m : ℕ) (t : ControlPacketType) (fl v : ℕ) (rest : Bytes)
      → 0 < n
      → fl < 16
      → validate_type_flags t fl ≡ ok tt
      → len_from_u32 v ≡ ok m
      → Emits {W = W} (header_bytes t fl n v) (1 + n) (write_sync n (sized t fl v))
        × ((parse_array n (header_bytes t fl n v ++ rest) ≡ ok (header t fl n v, rest)) ↔ (m ≡ n))
  write_sync-parse_array n m t fl v rest pos small valid h =
      let (taken, gives) =
        accept_iff (header t fl n v) rest (RemainingLength.validate (encode_to_array n v)) in
      let (fills, fits) = validate-encode_to_array n m v pos h in
      (
        write_sync-Emits n m t fl v valid h,
        rw (parse_array-validate t fl n v rest small valid)
            ((λ e. fills (taken e)), (λ same. gives (fits same))),
      )
