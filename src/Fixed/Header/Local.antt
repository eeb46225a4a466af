-- ===== src/Fixed/Header/Local.antt =====
-- The fixed header that is parsed depends on its own bytes only.
use mcutt.Common.{ℕ, ◌+◌, ap, ◌∷◌, ◌++◌, arith}
use mcutt.Bytes.{error, not_enough_space, ok, ok_or}
use mcutt.Bytes.Try.{◌>>=◌}
use mcutt.Bytes.Local.{
  IsLocal, IsLocal-bind, IsLocal-same, IsLocal-split_at_checked, IsLocal-check, IsLocal-pure,
}
use mcutt.External.Zerocopy.{Zerocopy}
use mcutt.External.Bitflags.{Bitflags}
use mcutt.Fixed.RemainingLength.RoundTrip.{IsTerminated-pos, parse-IsTerminated}
use mcutt.Fixed.Header.{from_array, validate, parse, parse_array}
use mcutt.Fixed.Header.RoundTrip.{parse-ok, parse_parts}

module _ ⦃z : Zerocopy⦄ ⦃f : Bitflags⦄ where
  pub parse-IsLocal : IsLocal 2 parse
  parse-IsLocal bs h rest e =
      let (p, typed, parts, terminated, few) = parse_parts bs rest h e in
      record {
        used = h.type_and_flags ∷ h.remaining_length;
        splits = parts;
        least = omega (arith, IsTerminated-pos h.remaining_length terminated);
        again = λ more.
            parse-ok h.type_and_flags (h.remaining_length ++ more) h.remaining_length more typed
              (parse-IsTerminated h.remaining_length more terminated few);
      }

  pub parse_array-IsLocal : (n : ℕ) → IsLocal (1 + n) (parse_array n)
  unfolding parse_array
  parse_array-IsLocal n =
      IsLocal-bind (1 + n) 0
        (λ buf. ok_or (error not_enough_space "fixed header") (z.ref_from_prefix (1 + n) buf))
        (λ head rest. validate (from_array head) >>= λ u. ok (from_array head, rest))
        (IsLocal-same (1 + n) _ _ (λ bs. ap (ok_or _) (z.ref_from_prefix_lem (1 + n) bs))
          (IsLocal-split_at_checked (1 + n) _))
        (λ head. IsLocal-check 0 (validate (from_array head)) _ (λ u. IsLocal-pure _))
