-- ===== src/Fields/TopicFilter/Write.antt =====
-- Writing a topic filter, and reading it back.
use mcutt.Common.{ℕ, ◌+◌, ◌<◌, ◌≡◌, [], ◌∷◌, ◌++◌, append_assoc, length, length-append, true, arith}
use mcutt.Bytes.{Bytes, ok, usize_add}
use mcutt.Bytes.Io.{Write, Io, pure, lift, write_all, ◌>>=◌, ◌>>◌}
use mcutt.Bytes.Emits.{Emits, Emits-bind, Emits-lift_bind, Emits-return, Emits-write_all}
use mcutt.External.Zerocopy.{Zerocopy}
use mcutt.External.Memchr.{Memchr}
use mcutt.Fields.Buff.Write.{buff_bytes, length-buff_bytes}
use mcutt.Fields.MqttStr
use mcutt.Fields.MqttStr.Write.{IsText, parse-buff_bytes-IsText, encode_len_fits}
use mcutt.Fields.Topic.{has_valid_wildcard}
use mcutt.Fields.TopicFilter.{
  SubscribeFilter, TopicFilter, RequestedQos, at_most_once, at_least_once, exactly_once, qos_byte,
  validate_value, encode_len, parse,
}

module _ ⦃z : Zerocopy⦄ ⦃m : Memchr⦄ {W : Type 0} ⦃writer : Write W⦄ where
  unfoldable pub write_sync : SubscribeFilter → Io W ℕ
  unfolding validate_value
  write_sync value = do
    lift (validate_value value)
    topic ← MqttStr.Write.write_sync value.topic
    write_all (qos_byte value.qos ∷ []) "while writing SUBSCRIBE topic filter"
    pure (usize_add topic 1)

-- A filter that may be sent: a text whose wildcards are whole levels.
pub record IsFilter ⦃m : Memchr⦄ (f : SubscribeFilter) : Type 0 where
  pub text : IsText f.topic
  pub wildcards : has_valid_wildcard f.topic ≡ true

abbrev pub filter_len : SubscribeFilter → ℕ
filter_len f = length f.topic + 3

pub encode_len-ok :
    (f : SubscribeFilter) → length f.topic < 65536 → encode_len f ≡ ok (filter_len f)
unfolding encode_len
encode_len-ok f h = rw (encode_len_fits f.topic (omega arith)) (ground arith)

module _ ⦃m : Memchr⦄ where
  pub validate_value-ok : (f : SubscribeFilter) → IsFilter f → validate_value f ≡ ok tt
  unfolding validate_value
  validate_value-ok f h = rw h.wildcards

module _ ⦃z : Zerocopy⦄ where
  abbrev pub filter_bytes : SubscribeFilter → Bytes
  filter_bytes f = buff_bytes f.topic ++ qos_byte f.qos ∷ []

  pub length-filter_bytes :
      (f : SubscribeFilter) → length f.topic < 65536 → length (filter_bytes f) ≡ filter_len f
  length-filter_bytes f h =
      omega (
        arith,
        length-append (buff_bytes f.topic) (qos_byte f.qos ∷ []),
        length-buff_bytes f.topic h,
      )

  abbrev pub read_back : SubscribeFilter → TopicFilter
  read_back f = record {
    topic = record { len = z.u16_bytes (length f.topic); text = f.topic };
    qos = f.qos;
  }

  parse_with :
      (s : Bytes) (q : RequestedQos) (rest : Bytes)
      → IsText s
      → parse (buff_bytes s ++ (qos_byte q ∷ rest))
        ≡ ok (read_back (record { topic = s; qos = q }), rest)
  unfolding parse
  parse_with s at_most_once rest t =
      rw (parse-buff_bytes-IsText s (0 ∷ rest) t, z.try_ref_from_prefix_lem)
  parse_with s at_least_once rest t =
      rw (parse-buff_bytes-IsText s (1 ∷ rest) t, z.try_ref_from_prefix_lem)
  parse_with s exactly_once rest t =
      rw (parse-buff_bytes-IsText s (2 ∷ rest) t, z.try_ref_from_prefix_lem)

  -- `parse` takes exactly the written filter off what it is given.
  pub parse-filter_bytes :
      (f : SubscribeFilter) (rest : Bytes)
      → IsText f.topic
      → parse (filter_bytes f ++ rest) ≡ ok (read_back f, rest)
  parse-filter_bytes f rest t =
      rw (append_assoc (buff_bytes f.topic) (qos_byte f.qos ∷ []) rest)
        (parse_with f.topic f.qos rest t)

module _ ⦃z : Zerocopy⦄ ⦃m : Memchr⦄ {W : Type 0} ⦃writer : Write W⦄ where
  pub write_sync-Emits :
      (f : SubscribeFilter)
      → IsFilter f
      → Emits {W = W} (filter_bytes f) (filter_len f) (write_sync f)
  unfolding write_sync
  write_sync-Emits f h =
      let total : usize_add (2 + length f.topic) 1 ≡ filter_len f = omega (arith, h.text.short) in
      Emits-lift_bind _ (validate_value-ok f h) (
        Emits-bind _ (MqttStr.Write.write_sync-Emits f.topic h.text)
          (rw total (Emits-return (λ u. filter_len f) (Emits-write_all _ _))))
