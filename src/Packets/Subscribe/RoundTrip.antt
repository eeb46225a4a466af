-- ===== src/Packets/Subscribe/RoundTrip.antt =====
-- A SUBSCRIBE that is written is read back, with its filters in order.
use mcutt.Common.{
  ℕ, ◌+◌, ◌<◌, ◌≡◌, refl, List, [], ◌∷◌, ◌++◌, map, All, All-map, All-All, some, length,
  length-append, split_at_checked-append, arith,
}
use mcutt.Bytes.{usize_mod, Bytes, ok, usize_add}
use mcutt.Bytes.Io.{Write}
use mcutt.Bytes.Emits.{Delivers, Emits-bind, Emits-lift_bind}
use mcutt.External.Zerocopy.{Zerocopy}
use mcutt.External.Bitflags.{Bitflags}
use mcutt.External.Memchr.{Memchr}
use mcutt.Fixed.PacketType
use mcutt.Fixed.PacketType.{default_flags}
use mcutt.Fixed.Header.Builder.Emits.{write_header-new-Emits}
use mcutt.Fields.PacketId
use mcutt.Fields.PacketId.{IsNonZero}
use mcutt.Fields.PacketId.Write.{length-u16_bytes, parse-u16_bytes, encode_len_lem}
use mcutt.Fields.TopicFilter
use mcutt.Fields.TopicFilter.{SubscribeFilter}
use mcutt.Fields.TopicFilter.Write.{
  IsFilter, filter_len, filter_bytes, length-filter_bytes, read_back, parse-filter_bytes,
}
use mcutt.Packets.Cursor.Items.{Items, validate_all-Items, collect_all-Items}
use mcutt.Packets.Cursor.Writing.{
  all_bytes, all_len, length-all_bytes, fold_len-ok, fold_write-Emits, all_bytes-Items,
}
use mcutt.Packets.Framed.{DeliversAs-Delivers}
use mcutt.Packets.Framed.Body.{Reads, Writes, body-DeliversAs}
use mcutt.Packets.Subscribe.{Subscribe, SubscribeBuilder, filters, validate, parse}
use mcutt.Packets.Subscribe.Write.{validate_filters, validate_value, encode_len, write_sync}

abbrev pub body_len : SubscribeBuilder → ℕ
body_len b = 2 + all_len filter_len b.filters

-- What a subscription must satisfy to be sent.
pub record IsSendable ⦃m : Memchr⦄ (b : SubscribeBuilder) : Type 0 where
  pub pkid : IsNonZero b.pkid
  pub filters : All IsFilter b.filters
  pub fits : body_len b < 268435456

module _ ⦃m : Memchr⦄ where
  validate_filters-ok : (fs : List SubscribeFilter) → All IsFilter fs → validate_filters fs ≡ ok tt
  unfolding validate_filters
  validate_filters-ok [] h = refl
  validate_filters-ok (g ∷ fs) (p, h) =
      rw (TopicFilter.Write.validate_value-ok g p) (validate_filters-ok fs h)

  validate_value-ok : (b : SubscribeBuilder) → IsSendable b → validate_value b ≡ ok tt
  unfolding validate_value
  validate_value-ok b s = validate_filters-ok b.filters s.filters

  encode_len-ok : (b : SubscribeBuilder) → IsSendable b → encode_len b ≡ ok (body_len b)
  unfolding encode_len
  encode_len-ok b s = rw (encode_len_lem b.pkid) (
      fold_len-ok TopicFilter.encode_len _ filter_len 2 b.filters (omega (arith, s.fits)) (
        All-map (λ g (p : IsFilter g). TopicFilter.Write.encode_len-ok g p.text.short) b.filters
          s.filters))

module _ ⦃z : Zerocopy⦄ where
  abbrev pub body : SubscribeBuilder → Bytes
  body b = z.u16_bytes b.pkid ++ all_bytes filter_bytes b.filters

  abbrev pub parsed : SubscribeBuilder → Subscribe
  parsed b = record {
    pkid = record { pkid = z.u16_bytes b.pkid };
    filters = all_bytes filter_bytes b.filters;
  }

module _ ⦃z : Zerocopy⦄ ⦃m : Memchr⦄ where
  length-filters :
      (b : SubscribeBuilder)
      → IsSendable b
      → length (all_bytes filter_bytes b.filters) ≡ all_len filter_len b.filters
  length-filters b s =
      length-all_bytes filter_bytes filter_len b.filters
        (All-map (λ g (p : IsFilter g). length-filter_bytes g p.text.short) b.filters s.filters)

  length-body : (b : SubscribeBuilder) → IsSendable b → length (body b) ≡ body_len b
  length-body b s = omega (
    arith,
    length-append (z.u16_bytes b.pkid) (all_bytes filter_bytes b.filters),
    length-u16_bytes b.pkid s.pkid.1,
    length-filters b s,
  )

  Items-body :
      (b : SubscribeBuilder)
      → IsSendable b
      → Items TopicFilter.parse (map read_back b.filters) (all_bytes filter_bytes b.filters)
  Items-body b s = all_bytes-Items TopicFilter.parse filter_bytes read_back b.filters (
      All-map
        (λ g (p : IsFilter g). (
          omega (arith, length-filter_bytes g p.text.short),
          λ rest. parse-filter_bytes g rest p.text,
        ))
        b.filters s.filters)

  short-filters :
      (b : SubscribeBuilder) → IsSendable b → length (all_bytes filter_bytes b.filters) < usize_mod
  short-filters b s = omega (arith, length-filters b s, s.fits)

  filters-parsed :
      (b : SubscribeBuilder) → IsSendable b → filters (parsed b) ≡ some (map read_back b.filters)
  unfolding filters
  filters-parsed b s =
      collect_all-Items TopicFilter.parse (all_bytes filter_bytes b.filters)
        (map read_back b.filters) (short-filters b s) (Items-body b s)

  validate-parsed : (b : SubscribeBuilder) → IsSendable b → validate (parsed b) ≡ ok tt
  unfolding validate
  validate-parsed b s =
      validate_all-Items TopicFilter.parse (λ v. ok tt) (all_bytes filter_bytes b.filters)
        (map read_back b.filters) (short-filters b s) (Items-body b s)
        (All-All (λ v. refl) (map read_back b.filters))

module _ ⦃z : Zerocopy⦄ ⦃f : Bitflags⦄ ⦃m : Memchr⦄ where
  pub parse-Reads :
      (b : SubscribeBuilder)
      → IsSendable b
      → Reads PacketType.subscribe parse (body b) (λ h. parsed b)
  unfolding parse
  parse-Reads b s buf rest h head ty len = rw (
    head,
    len,
    split_at_checked-append (body b) rest (length (body b)) refl,
    (parse-u16_bytes b.pkid (all_bytes filter_bytes b.filters) s.pkid).0,
    validate-parsed b s,
  )

module _ ⦃z : Zerocopy⦄ ⦃f : Bitflags⦄ ⦃m : Memchr⦄ {W : Type 0} ⦃writer : Write W⦄ where
  write_sync-Writes :
      (b : SubscribeBuilder)
      → IsSendable b
      → Writes {W = W} PacketType.subscribe (body b) (write_sync b)
  unfolding write_sync
  write_sync-Writes b s n e fits =
      let len = length-body b s in
      let acc : usize_add (n + 1) 2 ≡ n + 1 + 2 = omega (arith, fits, len) in
      let sum : n + 1 + length (body b) ≡ n + 1 + 2 + all_len filter_len b.filters =
        omega (arith, len) in
      rw (sum, len)
        (Emits-lift_bind _ (validate_value-ok b s) (
          Emits-lift_bind _ (encode_len-ok b s) (
            Emits-bind _ (write_header-new-Emits PacketType.subscribe (body_len b) n (rw (← len) e))
              (Emits-bind _ (PacketId.Write.write_sync-Emits b.pkid) (
                rw acc (
                  fold_write-Emits TopicFilter.Write.write_sync filter_bytes filter_len (n + 1 + 2)
                    b.filters (omega (arith, fits, len))
                    (All-map (λ g (p : IsFilter g). TopicFilter.Write.write_sync-Emits g p)
                      b.filters s.filters)))))))

  -- For every SUBSCRIBE with a non-zero identifier, filters that are texts with valid wildcards, and
  -- a length below the limit: on any writer `write_sync` writes it and returns its length, unless
  -- the writer fails, and `parse` takes exactly that packet off any buffer, with the identifier,
  -- and `filters` yields the topics and the QoS that were given, in order.
  pub Subscribe-Delivers :
      (b : SubscribeBuilder)
      → IsSendable b
      → Delivers {W = W} (write_sync b) parse (λ (this : Subscribe).
        (PacketId.read this.pkid ≡ some b.pkid) × (filters this ≡ some (map read_back b.filters)))
  Subscribe-Delivers b s =
      DeliversAs-Delivers PacketType.subscribe (default_flags PacketType.subscribe) parse (
        body-DeliversAs PacketType.subscribe (body b) (λ h. parsed b) parse
          (omega (arith, length-body b s, s.fits)) (write_sync-Writes b s) (parse-Reads b s)
          (λ h. ((parse-u16_bytes b.pkid [] s.pkid).1, filters-parsed b s)))
