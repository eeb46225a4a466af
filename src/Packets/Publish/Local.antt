-- ===== src/Packets/Publish/Local.antt =====
-- The PUBLISH that is parsed depends on its own bytes only.
use mcutt.Common.{◌≡◌, ◌∙◌, ap, ◌++◌, split_at_checked, split_at_checked_sound, arith}
use mcutt.Bytes.{Bytes, Error, error, not_enough_space, Result, ok, ok_or}
use mcutt.Bytes.Try.{◌>>=◌, bind-ok, ok_or-eq-ok}
use mcutt.Bytes.Local.{
  IsLocal, IsLocal-bind, IsLocal-le, IsLocal-split_at_checked, IsLocal-check, IsLocal-pure,
}
use mcutt.External.Zerocopy.{Zerocopy}
use mcutt.External.Bitflags.{Bitflags}
use mcutt.External.Memchr.{Memchr}
use mcutt.Fixed.RemainingLength
use mcutt.Fixed.Header
use mcutt.Fixed.Header.{FixedHeader}
use mcutt.Fixed.Header.Cuts.{Cuts}
use mcutt.Fields.MqttStr
use mcutt.Packets.Publish.{Publish, parse_packet_id, validate, parse}

module _ ⦃z : Zerocopy⦄ ⦃f : Bitflags⦄ ⦃m : Memchr⦄ where
  -- What is left of `parse` when the header is read.
  abbrev cut : FixedHeader → Bytes → Result (Bytes × Bytes) Error
  cut fixed rest =
      ok_or (error not_enough_space "PUBLISH packet")
        (split_at_checked (RemainingLength.read_len fixed.remaining_length) rest)

  abbrev of_parts : FixedHeader → Bytes → Bytes → Result (Publish × Bytes) Error
  of_parts fixed packet rem = MqttStr.parse packet >>= λ t. parse_packet_id fixed t.1 >>= λ i.
      validate (record { fixed = fixed; topic = t.0; packet_id = i.0; payload = i.1 }) >>= λ u.
      ok (record { fixed = fixed; topic = t.0; packet_id = i.0; payload = i.1 }, rem)

  of_parts-IsLocal : (fixed : FixedHeader) (packet : Bytes) → IsLocal 0 (of_parts fixed packet)
  of_parts-IsLocal fixed packet = IsLocal-check 0 (MqttStr.parse packet) _ (λ t.
      IsLocal-check 0 (parse_packet_id fixed t.1) _
        (λ i. IsLocal-check 0 (validate _) _ (λ u. IsLocal-pure _)))

  pub parse-IsLocal : IsLocal 2 parse
  unfolding parse
  parse-IsLocal = IsLocal-bind 2 0 Header.parse _ Header.Local.parse-IsLocal (λ fixed.
      let len = RemainingLength.read_len fixed.remaining_length in
      IsLocal-bind 0 0 (cut fixed) (of_parts fixed)
        (IsLocal-le 0 len (cut fixed) (omega arith) (IsLocal-split_at_checked len _))
        (of_parts-IsLocal fixed))

  -- A PUBLISH is as long as its header says.
  pub parse-Cuts : (buf rest : Bytes) (this : Publish) → parse buf ≡ ok (this, rest) → Cuts buf rest
  unfolding parse
  parse-Cuts buf rest this e =
      let ((fixed, left), e1, head) = bind-ok _ (Header.parse buf) e in
      let ((packet, rem), e2, divided) = bind-ok _ (cut fixed left) e1 in
      let ((topic, t), e3, text) = bind-ok _ (MqttStr.parse packet) e2 in
      let ((id, payload), e4, identifier) = bind-ok _ (parse_packet_id fixed t) e3 in
      let (u, e5, valid) =
        bind-ok _
          (validate (record { fixed = fixed; topic = topic; packet_id = id; payload = payload }))
          e4 in
      let behind : rem ≡ rest = cc e5 in
      let (parts, len) = split_at_checked_sound _ left packet rem (ok_or-eq-ok _ _ divided) in
      record {
        head = fixed;
        body = packet;
        parsed = head ∙ ap (λ t. ok (fixed, t)) (parts ∙ ap (λ t. packet ++ t) behind);
        counted = len;
      }
