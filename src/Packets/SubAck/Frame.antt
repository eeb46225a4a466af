-- ===== src/Packets/SubAck/Frame.antt =====
-- The bytes of a SUBACK, and what they are read as.
use mcutt.Common.{
  ℕ, ◌+◌, ◌<◌, ◌≡◌, refl, ap, true, List, [], ◌∷◌, ◌++◌, map, take, drop, all, length,
  length-append, length-map, arith,
}
use mcutt.Bytes.{Bytes, ok}
use mcutt.External.Zerocopy.{Zerocopy}
use mcutt.Fixed.PacketType.{sub_ack, default_flags}
use mcutt.Fixed.Header.Builder.Emits.{header_bytes}
use mcutt.Fields.PacketId.{IsNonZero}
use mcutt.Fields.PacketId.Write.{encode_len_lem, length-u16_bytes, validate-u16_bytes}
use mcutt.Packets.SubAck.{
  SubAck, SubAckCode, qos_0, qos_1, qos_2, failure, code_byte, is_code, code_of, valid_bytes,
  from_bytes, validate,
}
use mcutt.Packets.SubAck.Write.{SubAckBuilder, encode_len}

pub record IsSendable (b : SubAckBuilder) : Type 0 where
  pub pkid : IsNonZero b.pkid
  pub fits : 2 + length b.return_codes < 268435456

abbrev pub body_len : SubAckBuilder → ℕ
body_len b = 2 + length b.return_codes

is_code-code_byte : (cs : List SubAckCode) → all is_code (map code_byte cs) ≡ true
is_code-code_byte [] = refl
is_code-code_byte (qos_0 ∷ cs) = is_code-code_byte cs
is_code-code_byte (qos_1 ∷ cs) = is_code-code_byte cs
is_code-code_byte (qos_2 ∷ cs) = is_code-code_byte cs
is_code-code_byte (failure ∷ cs) = is_code-code_byte cs

code_of-code_byte : (cs : List SubAckCode) → map code_of (map code_byte cs) ≡ cs
code_of-code_byte [] = refl
code_of-code_byte (qos_0 ∷ cs) = ap (λ r. qos_0 ∷ r) (code_of-code_byte cs)
code_of-code_byte (qos_1 ∷ cs) = ap (λ r. qos_1 ∷ r) (code_of-code_byte cs)
code_of-code_byte (qos_2 ∷ cs) = ap (λ r. qos_2 ∷ r) (code_of-code_byte cs)
code_of-code_byte (failure ∷ cs) = ap (λ r. failure ∷ r) (code_of-code_byte cs)

pub encode_len-ok : (b : SubAckBuilder) → IsSendable b → encode_len b ≡ ok (body_len b)
unfolding encode_len
encode_len-ok b s = rw (encode_len_lem b.pkid) (ground (arith, s.fits))

module _ ⦃z : Zerocopy⦄ where
  abbrev pub body : SubAckBuilder → Bytes
  body b = z.u16_bytes b.pkid ++ map code_byte b.return_codes

  abbrev pub frame : ℕ → SubAckBuilder → Bytes
  frame n b = header_bytes sub_ack (default_flags sub_ack) n (body_len b) ++ body b

  pub length-body : (b : SubAckBuilder) → IsSendable b → length (body b) ≡ body_len b
  length-body b s = omega (
    arith,
    length-append (z.u16_bytes b.pkid) (map code_byte b.return_codes),
    length-u16_bytes b.pkid s.pkid.1,
    length-map b.return_codes code_byte,
  )

  -- Two bytes in front of a list are taken and dropped.
  take_two :
      (two xs : Bytes) → length two ≡ 2 → (take 2 (two ++ xs) ≡ two) × (drop 2 (two ++ xs) ≡ xs)
  take_two (a ∷ b ∷ []) xs h = (refl, refl)
  take_two [] xs h = absurd (omega arith)
  take_two (a ∷ []) xs h = absurd (omega arith)
  take_two (a ∷ b ∷ c ∷ two) xs h = absurd (omega arith)

  abbrev pub parsed : SubAckBuilder → SubAck
  parsed b = record { pkid = record { pkid = z.u16_bytes b.pkid }; return_codes = b.return_codes }

  pub from_bytes-body : (b : SubAckBuilder) → IsSendable b → from_bytes (body b) ≡ parsed b
  from_bytes-body b s =
      let (t, d) =
        take_two (z.u16_bytes b.pkid) (map code_byte b.return_codes)
          (length-u16_bytes b.pkid s.pkid.1) in
      rw (t, d, code_of-code_byte b.return_codes)

  pub valid_bytes-body : (b : SubAckBuilder) → IsSendable b → valid_bytes (body b) ≡ true
  valid_bytes-body b s =
      let (t, d) =
        take_two (z.u16_bytes b.pkid) (map code_byte b.return_codes)
          (length-u16_bytes b.pkid s.pkid.1) in
      rw d (is_code-code_byte b.return_codes)

  pub validate-body : (b : SubAckBuilder) → IsSendable b → validate (from_bytes (body b)) ≡ ok tt
  unfolding validate
  validate-body b s =
      let (t, d) =
        take_two (z.u16_bytes b.pkid) (map code_byte b.return_codes)
          (length-u16_bytes b.pkid s.pkid.1) in
      rw t (validate-u16_bytes b.pkid s.pkid)
