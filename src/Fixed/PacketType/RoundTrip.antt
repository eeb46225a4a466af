-- ===== src/Fixed/PacketType/RoundTrip.antt =====
-- The first byte of a packet: what `parse` accepts is what `encode_type_and_flags` writes.
use Prim.Native.Nat.{bit_and, bit_or}
use mcutt.Common.{ℕ, ◌↔◌, ◌+◌, ◌*◌, ◌/◌, ◌%◌, ◌<◌, ◌≡◌, refl, arith, some}
use mcutt.Common.Bits.{agree_below, eq_below, low_four}
use mcutt.Bytes.{Error, error, invalid, Result, ok, err}
use mcutt.Bytes.Try.{◌>>=◌, bind-ok}
use mcutt.External.Bitflags.{Bitflags}
use mcutt.Fixed.PacketType.{
  ControlPacketType, to_u8, try_from, encode_type_and_flags, validate_type_flags, parse,
  default_flags, connect, conn_ack, publish, pub_ack, pub_rec, pub_rel, pub_comp, subscribe,
  sub_ack, unsubscribe, unsub_ack, ping_req, ping_resp, disconnect,
}

nibbles : (x : ℕ) → x < 256 → bit_or (x / 16 * 16 % 256) (x % 16) ≡ x
unfolding agree_below
nibbles = eq_below _ _ 256 refl

pub to_u8_bound : (t : ControlPacketType) → to_u8 t < 15
to_u8_bound connect = omega arith
to_u8_bound _ = omega arith

pub encode_type_and_flags_lem :
    (t : ControlPacketType) (flags : ℕ)
    → flags < 16
    → encode_type_and_flags t flags ≡ to_u8 t * 16 + flags
unfolding encode_type_and_flags
encode_type_and_flags_lem t flags h =
    let x : ℕ = to_u8 t * 16 + flags in
    let hi : x / 16 ≡ to_u8 t = omega arith in
    let lo : x % 16 ≡ flags = omega arith in
    let bound : x < 256 = omega (arith, to_u8_bound t) in rw (hi, lo) at (nibbles x bound)

pub try_from-to_u8 : (t : ControlPacketType) → try_from (to_u8 t) ≡ ok t
unfolding try_from
try_from-to_u8 connect = refl
try_from-to_u8 _ = refl

pub try_from_sound : (v : ℕ) (t : ControlPacketType) → try_from v ≡ ok t → v ≡ to_u8 t
unfolding try_from
try_from_sound v t h = ground arith

module _ ⦃f : Bitflags⦄ where
  from_bits_nibble : (b : ℕ) → b < 256 → f.from_bits 15 (bit_and b 15) ≡ some (b % 16)
  from_bits_nibble b h =
      rw (low_four b h, f.from_bits_lem, low_four (b % 16) (omega arith)) (ground arith)

  -- `parse` reads back a type with flags that are valid for it, from the byte that is written.
  pub parse-encode_type_and_flags :
      (t : ControlPacketType) (flags : ℕ)
      → flags < 16
      → validate_type_flags t flags ≡ ok tt
      → parse (encode_type_and_flags t flags) ≡ ok (t, flags)
  unfolding parse
  parse-encode_type_and_flags t flags h valid = rw (
    encode_type_and_flags_lem t flags h,
    hi,
    try_from-to_u8 t,
    from_bits_nibble (to_u8 t * 16 + flags) bound,
    lo,
    valid,
  )
    where
      hi : (to_u8 t * 16 + flags) / 16 ≡ to_u8 t
      hi = omega arith

      lo : (to_u8 t * 16 + flags) % 16 ≡ flags
      lo = omega arith

      bound : to_u8 t * 16 + flags < 256
      bound = omega (arith, to_u8_bound t)

  -- The flags that a packet type has by default are valid for it.
  pub default_flags-valid :
      (t : ControlPacketType) → validate_type_flags t (default_flags t) ≡ ok tt
  unfolding validate_type_flags default_flags
  default_flags-valid connect = rw f.is_empty_lem
  default_flags-valid conn_ack = rw f.is_empty_lem
  default_flags-valid publish = refl
  default_flags-valid pub_ack = rw f.is_empty_lem
  default_flags-valid pub_rec = rw f.is_empty_lem
  default_flags-valid pub_rel = refl
  default_flags-valid pub_comp = rw f.is_empty_lem
  default_flags-valid subscribe = refl
  default_flags-valid sub_ack = rw f.is_empty_lem
  default_flags-valid unsubscribe = refl
  default_flags-valid unsub_ack = rw f.is_empty_lem
  default_flags-valid ping_req = rw f.is_empty_lem
  default_flags-valid ping_resp = rw f.is_empty_lem
  default_flags-valid disconnect = rw f.is_empty_lem

  -- The type and flags of a byte, before they are checked against each other.
  abbrev checked : ControlPacketType → ℕ → Result (ControlPacketType × ℕ) Error
  checked t flags = validate_type_flags t flags >>= λ u. ok (t, flags)

  parse-checked : (b : ℕ) → b < 256 → parse b ≡ (try_from (b / 16) >>= λ t. checked t (b % 16))
  unfolding parse
  parse-checked b h = simp (from_bits_nibble b h)

  parse_sound :
      (b : ℕ) (t : ControlPacketType) (flags : ℕ)
      → b < 256
      → parse b ≡ ok (t, flags)
      → (b ≡ encode_type_and_flags t flags) × (flags < 16) × (validate_type_flags t flags ≡ ok tt)
  parse_sound b t flags h p =
      let (t', c, e) =
        bind-ok (λ t. checked t (b % 16)) (try_from (b / 16)) (rw (parse-checked b h) at p) in
      go t' (try_from_sound (b / 16) t' e) (validate_type_flags t' (b % 16)) refl c
    where
      go :
          (t' : ControlPacketType)
          → b / 16 ≡ to_u8 t'
          → (r : Result (Unit {0}) Error) → validate_type_flags t' (b % 16) ≡ r
          → ◌>>=◌ {B = ControlPacketType × ℕ} r (λ u. ok (t', b % 16)) ≡ ok (t, flags)
          → (b ≡ encode_type_and_flags t flags)
            × (flags < 16)
            × (validate_type_flags t flags ≡ ok tt)
      go t' q (err e) v c = cc
      go t' q (ok u) v c =
          let type_eq : t' ≡ t = cc in
          let flags_eq : b % 16 ≡ flags = cc in
          let bound : flags < 16 = omega arith in
          (rw (encode_type_and_flags_lem t flags bound, ← type_eq) (omega arith), bound, cc)

  -- `parse` accepts a byte exactly where it is the encoding of a type with flags valid for it, and
  -- then returns these.
  pub parse_iff :
      (b : ℕ) (t : ControlPacketType) (flags : ℕ)
      → b < 256
      → (parse b ≡ ok (t, flags)) ↔ (
          (b ≡ encode_type_and_flags t flags)
          × (flags < 16)
          × (validate_type_flags t flags ≡ ok tt))
  parse_iff b t flags h =
      (λ p. parse_sound b t flags h p, λ p. rw (p.0) (parse-encode_type_and_flags t flags p.1 p.2))

pub default_flags_small : (t : ControlPacketType) → default_flags t < 16
unfolding default_flags
default_flags_small connect = omega arith
default_flags_small _ = omega arith

module _ ⦃f : Bitflags⦄ where
  -- A PUBLISH may have any flags.
  pub publish_valid : (flags : ℕ) → validate_type_flags publish flags ≡ ok tt
  unfolding validate_type_flags
  publish_valid flags = refl

  -- No packet has the type 0.
  pub parse_low : (b : ℕ) → b < 16 → parse b ≡ err (error invalid "control packet type")
  unfolding parse try_from
  parse_low b h = rw (zero) refl
    where
      zero : b / 16 ≡ 0
      zero = omega arith
