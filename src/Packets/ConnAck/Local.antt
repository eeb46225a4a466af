-- ===== src/Packets/ConnAck/Local.antt =====
-- The CONNACK that is parsed depends on its own bytes only.
use mcutt.Bytes.{Bytes, error, ok}
use mcutt.Bytes.Try.{◌>>=◌, map_err}
use mcutt.Bytes.Local.{
  IsLocal, IsLocal-bind, IsLocal-same, IsLocal-valid_parts, IsLocal-check, IsLocal-pure,
}
use mcutt.Common.{ap}
use mcutt.External.Zerocopy.{Zerocopy}
use mcutt.External.Bitflags.{Bitflags}
use mcutt.Fields.MqttStr.{convert_kind}
use mcutt.Fixed.Header
use mcutt.Packets.ConnAck.{valid_bytes, from_bytes, validate, parse}

module _ ⦃z : Zerocopy⦄ ⦃f : Bitflags⦄ where
  pub parse-IsLocal : IsLocal 2 parse
  unfolding parse
  parse-IsLocal =
      let value = λ (rest : Bytes).
        map_err (λ e. error (convert_kind e) "CONNACK packet")
          (z.try_ref_from_prefix 2 valid_bytes rest) in
      let checked =
        λ (this rest : Bytes). validate (from_bytes this) >>= λ u. ok (from_bytes this, rest) in
      IsLocal-bind 2 2 (Header.parse_array 1) (λ fixed rest. value rest >>= λ r. checked r.0 r.1)
        (Header.Local.parse_array-IsLocal 1)
        (λ fixed.
          IsLocal-bind 2 0 value checked
            (IsLocal-same 2 _ _ (λ bs. ap (map_err _) (z.try_ref_from_prefix_lem 2 valid_bytes bs))
              (IsLocal-valid_parts 2 _ valid_bytes))
            (λ this. IsLocal-check 0 (validate (from_bytes this)) _ (λ u. IsLocal-pure _)))
