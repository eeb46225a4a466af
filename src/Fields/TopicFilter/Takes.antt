-- ===== src/Fields/TopicFilter/Takes.antt =====
-- A topic filter that is accepted is taken off the front of what it is read from.
use mcutt.Common.{◌≡◌, ◌∙◌, sym, split_at_checked_sound}
use mcutt.Bytes.{Bytes}
use mcutt.Bytes.Try.{bind-ok, map_err-ok}
use mcutt.Bytes.Takes.{Consumes, Takes-append}
use mcutt.External.Zerocopy.{Zerocopy, valid_parts-ok}
use mcutt.Fields.MqttStr
use mcutt.Fields.TopicFilter.{valid_qos, parse}

module _ ⦃z : Zerocopy⦄ where
  pub parse-Consumes : Consumes parse
  unfolding parse
  parse-Consumes bs this rest h =
      let ((topic, left), h', first) = bind-ok {A = MqttStr.MqttStr × Bytes} _ _ h in
      let ((qos, bytes), h'', second) = bind-ok {A = Bytes × Bytes} _ _ h' in
      let (parts, n) = split_at_checked_sound 1 left qos bytes (
        valid_parts-ok valid_qos _ qos bytes
          (sym (z.try_ref_from_prefix_lem 1 valid_qos left) ∙ map_err-ok _ _ second)) in
      let e : bytes ≡ rest = cc h'' in
      rw (← e) (Takes-append (MqttStr.Takes.parse-Consumes bs topic left first) qos parts)
