-- ===== src/Packets/Unsubscribe/RoundTrip.antt =====
-- A UNSUBSCRIBE that is written is read back, with its filters in order.
use mcutt.Common.{
  ℕ, ◌+◌, ◌<◌, ◌≡◌, refl, List, [], ◌∷◌, ◌++◌, map, All, All-map, some, length, length-append,
  split_at_checked-append, true, arith,
}
use mcutt.Bytes.{usize_mod, Bytes, ok, usize_add}
use mcutt.Bytes.Io.{Write}
use mcutt.Bytes.Emits.{Delivers, Emits-bind, Emits-lift_bind}
use mcutt.External.Zerocopy.{Zerocopy}
use mcutt.External.Bitflags.{Bitflags}
use mcutt.External.Memchr.{Memchr}
use mcutt.Fixed.PacketType
use mcutt.Fixed.PacketType.{default_flags}
use mcutt.Fixed.Header.Builder.Emits.{write_header-new-Emits}
use mcutt.Fields.PacketId
use mcutt.Fields.PacketId.{IsNonZero}
use mcutt.Fields.PacketId.Write.{length-u16_bytes, parse-u16_bytes, encode_len_lem}
use mcutt.Fields.Buff.Write.{buff_bytes, length-buff_bytes}
use mcutt.Fields.MqttStr
use mcutt.Fields.MqttStr.{MqttStr}
use mcutt.Fields.MqttStr.Write.{IsText, encode_len_fits, parse-buff_bytes-IsText}
use mcutt.Fields.Topic.{has_valid_wildcard}
use mcutt.Packets.Cursor.Items.{Items, validate_all-Items, collect_all-Items}
use mcutt.Packets.Cursor.Writing.{
  all_bytes, all_len, length-all_bytes, fold_len-ok, fold_write-Emits, all_bytes-Items,
}
use mcutt.Packets.Framed.{DeliversAs-Delivers}
use mcutt.Packets.Framed.Body.{Reads, Writes, body-DeliversAs}
use mcutt.Packets.Unsubscribe.{
  check_filter, Unsubscribe, UnsubscribeBuilder, filters, validate, parse,
}
use mcutt.Packets.Unsubscribe.Write.{validate_filters, validate_value, encode_len, write_sync}

-- A filter that may be sent: a text whose wildcards are whole levels.
pub record IsFilter ⦃m : Memchr⦄ (topic : Bytes) : Type 0 where
  pub text : IsText topic
  pub wildcards : has_valid_wildcard topic ≡ true

abbrev pub filter_len : Bytes → ℕ
filter_len topic = 2 + length topic

abbrev pub body_len : UnsubscribeBuilder → ℕ
body_len b = 2 + all_len filter_len b.filters

-- What a subscription must satisfy to be sent.
pub record IsSendable ⦃m : Memchr⦄ (b : UnsubscribeBuilder) : Type 0 where
  pub pkid : IsNonZero b.pkid
  pub filters : All IsFilter b.filters
  pub fits : body_len b < 268435456

module _ ⦃m : Memchr⦄ where
  validate_filters-ok : (fs : List Bytes) → All IsFilter fs → validate_filters fs ≡ ok tt
  unfolding validate_filters
  validate_filters-ok [] h = refl
  validate_filters-ok (g ∷ fs) (p, h) = rw p.wildcards (validate_filters-ok fs h)

  validate_value-ok : (b : UnsubscribeBuilder) → IsSendable b → validate_value b ≡ ok tt
  unfolding validate_value
  validate_value-ok b s = validate_filters-ok b.filters s.filters

  encode_len-ok : (b : UnsubscribeBuilder) → IsSendable b → encode_len b ≡ ok (body_len b)
  unfolding encode_len
  encode_len-ok b s = rw (encode_len_lem b.pkid) (
      fold_len-ok MqttStr.encode_len _ filter_len 2 b.filters (omega (arith, s.fits)) (
        All-map (λ g (p : IsFilter g). encode_len_fits g (omega (arith, p.text.short))) b.filters
          s.filters))

module _ ⦃z : Zerocopy⦄ where
  abbrev pub read_back : Bytes → MqttStr
  read_back topic = record { len = z.u16_bytes (length topic); text = topic }

  abbrev pub body : UnsubscribeBuilder → Bytes
  body b = z.u16_bytes b.pkid ++ all_bytes buff_bytes b.filters

  abbrev pub parsed : UnsubscribeBuilder → Unsubscribe
  parsed b = record {
    pkid = record { pkid = z.u16_bytes b.pkid };
    filters = all_bytes buff_bytes b.filters;
  }

module _ ⦃z : Zerocopy⦄ ⦃m : Memchr⦄ where
  length-filters :
      (b : UnsubscribeBuilder)
      → IsSendable b
      → length (all_bytes buff_bytes b.filters) ≡ all_len filter_len b.filters
  length-filters b s =
      length-all_bytes buff_bytes filter_len b.filters
        (All-map (λ g (p : IsFilter g). length-buff_bytes g p.text.short) b.filters s.filters)

  length-body : (b : UnsubscribeBuilder) → IsSendable b → length (body b) ≡ body_len b
  length-body b s = omega (
    arith,
    length-append (z.u16_bytes b.pkid) (all_bytes buff_bytes b.filters),
    length-u16_bytes b.pkid s.pkid.1,
    length-filters b s,
  )

  Items-body :
      (b : UnsubscribeBuilder)
      → IsSendable b
      → Items MqttStr.parse (map read_back b.filters) (all_bytes buff_bytes b.filters)
  Items-body b s = all_bytes-Items MqttStr.parse buff_bytes read_back b.filters (
      All-map
        (λ g (p : IsFilter g). (
          omega (arith, length-buff_bytes g p.text.short),
          λ rest. parse-buff_bytes-IsText g rest p.text,
        ))
        b.filters s.filters)

  short-filters :
      (b : UnsubscribeBuilder) → IsSendable b → length (all_bytes buff_bytes b.filters) < usize_mod
  short-filters b s = omega (arith, length-filters b s, s.fits)

  filters-parsed :
      (b : UnsubscribeBuilder) → IsSendable b → filters (parsed b) ≡ some (map read_back b.filters)
  unfolding filters
  filters-parsed b s =
      collect_all-Items MqttStr.parse (all_bytes buff_bytes b.filters) (map read_back b.filters)
        (short-filters b s) (Items-body b s)

  checks :
      (topics : List Bytes)
      → All IsFilter topics
      → All (λ (v : MqttStr). check_filter v ≡ ok tt) (map read_back topics)
  checks [] h = tt
  checks (topic ∷ topics) (p, h) = (rw p.wildcards, checks topics h)

  validate-parsed : (b : UnsubscribeBuilder) → IsSendable b → validate (parsed b) ≡ ok tt
  unfolding validate
  validate-parsed b s =
      validate_all-Items MqttStr.parse check_filter (all_bytes buff_bytes b.filters)
        (map read_back b.filters) (short-filters b s) (Items-body b s) (checks b.filters s.filters)

module _ ⦃z : Zerocopy⦄ ⦃f : Bitflags⦄ ⦃m : Memchr⦄ where
  pub parse-Reads :
      (b : UnsubscribeBuilder)
      → IsSendable b
      → Reads PacketType.unsubscribe parse (body b) (λ h. parsed b)
  unfolding parse
  parse-Reads b s buf rest h head ty len = rw (
    head,
    len,
    split_at_checked-append (body b) rest (length (body b)) refl,
    (parse-u16_bytes b.pkid (all_bytes buff_bytes b.filters) s.pkid).0,
    validate-parsed b s,
  )

module _ ⦃z : Zerocopy⦄ ⦃f : Bitflags⦄ ⦃m : Memchr⦄ {W : Type 0} ⦃writer : Write W⦄ where
  write_sync-Writes :
      (b : UnsubscribeBuilder)
      → IsSendable b
      → Writes {W = W} PacketType.unsubscribe (body b) (write_sync b)
  unfolding write_sync
  write_sync-Writes b s n e fits =
      let len = length-body b s in
      let acc : usize_add (n + 1) 2 ≡ n + 1 + 2 = omega (arith, fits, len) in
      let sum : n + 1 + length (body b) ≡ n + 1 + 2 + all_len filter_len b.filters =
        omega (arith, len) in
      rw (sum, len)
        (Emits-lift_bind _ (validate_value-ok b s) (
          Emits-lift_bind _ (encode_len-ok b s) (
            Emits-bind _
              (write_header-new-Emits PacketType.unsubscribe (body_len b) n (rw (← len) e))
              (Emits-bind _ (PacketId.Write.write_sync-Emits b.pkid) (
                rw acc (
                  fold_write-Emits MqttStr.Write.write_sync buff_bytes filter_len (n + 1 + 2)
                    b.filters (omega (arith, fits, len))
                    (All-map (λ g (p : IsFilter g). MqttStr.Write.write_sync-Emits g p.text)
                      b.filters s.filters)))))))

  -- For every UNSUBSCRIBE with a non-zero identifier, filters that are texts with valid wildcards, and
  -- a length below the limit, also with no filter at all, which the protocol forbids: on any writer `write_sync` writes it and returns its length, unless
  -- the writer fails, and `parse` takes exactly that packet off any buffer, with the identifier,
  -- and `filters` yields the topics that were given, in order.
  pub Unsubscribe-Delivers :
      (b : UnsubscribeBuilder)
      → IsSendable b
      → Delivers {W = W} (write_sync b) parse (λ (this : Unsubscribe).
        (PacketId.read this.pkid ≡ some b.pkid) × (filters this ≡ some (map read_back b.filters)))
  Unsubscribe-Delivers b s =
      DeliversAs-Delivers PacketType.unsubscribe (default_flags PacketType.unsubscribe) parse (
        body-DeliversAs PacketType.unsubscribe (body b) (λ h. parsed b) parse
          (omega (arith, length-body b s, s.fits)) (write_sync-Writes b s) (parse-Reads b s)
          (λ h. ((parse-u16_bytes b.pkid [] s.pkid).1, filters-parsed b s)))
