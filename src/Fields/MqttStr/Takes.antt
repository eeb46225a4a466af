-- ===== src/Fields/MqttStr/Takes.antt =====
-- A string that is accepted is taken off the front of what it is read from.
use mcutt.Common.{◌≡◌}
use mcutt.Bytes.{error}
use mcutt.Bytes.Try.{bind-ok, map_err}
use mcutt.Bytes.Takes.{Consumes}
use mcutt.External.Zerocopy.{Zerocopy}
use mcutt.Fields.Utf8.{is_utf8}
use mcutt.Fields.Buff
use mcutt.Fields.MqttStr.{convert_kind, validate, from_parts, parse}

module _ ⦃z : Zerocopy⦄ where
  pub parse-Consumes : Consumes parse
  unfolding parse
  parse-Consumes bs this rest h =
      let ((buff, left), h', first) = bind-ok _ (Buff.parse bs) h in
      let converted =
        map_err (λ e. error (convert_kind e) "mqtt string")
          (z.try_ref_from_bytes 2 is_utf8 (Buff.as_bytes buff)) in
      let (parts, h'', second) = bind-ok _ converted h' in
      let (u, h''', third) = bind-ok _ (validate (from_parts parts)) h'' in
      let e : left ≡ rest = cc h''' in rw (← e) (Buff.Takes.parse-Consumes bs buff left first)
