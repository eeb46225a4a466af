-- ===== src/Packets/SubAck/Local.antt =====
-- The SUBACK that is parsed depends on its own bytes only.
use mcutt.Common.{ℕ, ◌+◌, ◌≡◌, ◌∙◌, sym, ap, some, ◌++◌, split_at_checked_sound, arith}
use mcutt.Bytes.{Bytes, error, overflow, ok, ok_or}
use mcutt.Bytes.Try.{◌>>=◌, map_err, map_err-ok, bind-ok, ok_or-eq-ok}
use mcutt.Bytes.Local.{
  IsLocal, IsLocal-le, IsLocal-bind, IsLocal-same, IsLocal-valid_parts, IsLocal-check, IsLocal-pure,
}
use mcutt.External.Zerocopy.{Zerocopy, valid_parts-ok}
use mcutt.External.Bitflags.{Bitflags}
use mcutt.Fixed.RemainingLength
use mcutt.Fixed.Header
use mcutt.Fixed.Header.Cuts.{Cuts}
use mcutt.Packets.SubAck.{
  SubAck, valid_bytes, from_bytes, convert_error, codes_count, validate, parse,
}

module _ ⦃z : Zerocopy⦄ ⦃f : Bitflags⦄ where
  codes-IsLocal :
      (count : ℕ)
      → IsLocal {A = SubAck} 0 (λ rest.
        map_err convert_error (z.try_ref_from_prefix_with_elems 2 count valid_bytes rest) >>= λ r.
        validate (from_bytes r.0) >>= λ u. ok (from_bytes r.0, r.1))
  codes-IsLocal count =
      let value = λ (rest : Bytes).
        map_err convert_error (z.try_ref_from_prefix_with_elems 2 count valid_bytes rest) in
      let read =
        IsLocal-same (2 + count) value _
          (λ bs. ap (map_err _) (z.try_ref_from_prefix_with_elems_lem 2 count valid_bytes bs))
          (IsLocal-valid_parts (2 + count) convert_error valid_bytes) in
      IsLocal-bind 0 0 value
        (λ this rest. validate (from_bytes this) >>= λ u. ok (from_bytes this, rest))
        (IsLocal-le 0 (2 + count) value (omega arith) read)
        (λ this. IsLocal-check 0 (validate (from_bytes this)) _ (λ u. IsLocal-pure _))

  pub parse-IsLocal : IsLocal 2 parse
  unfolding parse
  parse-IsLocal = IsLocal-bind 2 0 Header.parse _ Header.Local.parse-IsLocal (λ fixed.
      IsLocal-check 0
        (ok_or (error overflow "SUBACK remaining length")
          (codes_count (RemainingLength.read_len fixed.remaining_length)))
        _ codes-IsLocal)

  codes_count-ok : (len count : ℕ) → codes_count len ≡ some count → 2 + count ≡ len
  codes_count-ok len count h = ground arith

  -- A SUBACK is as long as its header says.
  pub parse-Cuts : (buf rest : Bytes) (this : SubAck) → parse buf ≡ ok (this, rest) → Cuts buf rest
  unfolding parse
  parse-Cuts buf rest this e =
      let ((fixed, left), e1, head) = bind-ok _ (Header.parse buf) e in
      let (count, e2, counted) =
        bind-ok _
          (ok_or (error overflow "SUBACK remaining length")
            (codes_count (RemainingLength.read_len fixed.remaining_length)))
          e1 in
      let ((value, rem), e3, taken) =
        bind-ok _
          (map_err convert_error (z.try_ref_from_prefix_with_elems 2 count valid_bytes left)) e2 in
      let (u, e4, valid) = bind-ok _ (validate (from_bytes value)) e3 in
      let behind : rem ≡ rest = cc e4 in
      let (parts, len) = split_at_checked_sound (2 + count) left value rem (
        valid_parts-ok valid_bytes _ value rem (
          sym (z.try_ref_from_prefix_with_elems_lem 2 count valid_bytes left)
          ∙ map_err-ok _ _ taken)) in
      record {
        head = fixed;
        body = value;
        parsed = head ∙ ap (λ t. ok (fixed, t)) (parts ∙ ap (λ t. value ++ t) behind);
        counted = len ∙ codes_count-ok _ count (ok_or-eq-ok _ _ counted);
      }
