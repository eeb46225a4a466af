-- ===== src/Packets/Unsubscribe/Received.antt =====
-- What `parse` guarantees of any UNSUBSCRIBE that it accepts, and that its loop ends.
use mcutt.Fixed.Header.RoundTrip.{parse-empty}
use mcutt.Packets.Unsubscribe
use mcutt.Common.{
  suc, ◌<◌, ◌≡◌, refl, sym, ap, ◌∙◌, List, All, All-map, true, Bool, false, not, ◌++◌, some, length,
  length-append, split_at_checked, split_at_checked_sound, arith, [],
}
use mcutt.Bytes.{usize_mod, Bytes, Error, Result, ok, ok_or, error, not_enough_space, err}
use mcutt.Bytes.Try.{bind-ok, ok_or-eq-ok, fail_if}
use mcutt.External.Zerocopy.{Zerocopy}
use mcutt.External.Bitflags.{Bitflags}
use mcutt.External.Memchr.{Memchr}
use mcutt.Fixed.RemainingLength
use mcutt.Fixed.Header
use mcutt.Fixed.Header.{FixedHeader}
use mcutt.Fields.PacketId
use mcutt.Fields.PacketId.{PacketId}
use mcutt.Fields.MqttStr
use mcutt.Fields.MqttStr.{MqttStr}
use mcutt.Fields.Topic.{has_valid_wildcard}
use mcutt.Packets.Cursor.{at_start, try_for_each}
use mcutt.Packets.Cursor.Items.{Items, collect_all-Items}
use mcutt.Packets.Cursor.Termination.{validate_all-halts, validate_all-Passes}
use mcutt.Packets.Unsubscribe.{Unsubscribe, check_filter, filters, validate, parse}

fail_if-ok : (e : Error) (b : Bool) → fail_if (not b) e ≡ ok tt → b ≡ true
fail_if-ok e true h = refl
fail_if-ok e false h = cc h

module _ ⦃z : Zerocopy⦄ ⦃m : Memchr⦄ where
  -- Whatever the bytes of the filters, fewer than 2^64 of them, the loop of `validate` ends within
  -- one round for each byte and one more, and `validate` is what it ends with.
  pub validate-halts :
      (this : Unsubscribe)
      → length this.filters < usize_mod
      → (end : Result (Unit {0}) Error) × (try_for_each MqttStr.parse
            (suc (length this.filters))
            check_filter
            (at_start this.filters)
          ≡ some end)
        × (validate this ≡ end)
  unfolding validate
  validate-halts this fits =
      validate_all-halts MqttStr.parse MqttStr.Takes.parse-Consumes check_filter this.filters fits

module _ ⦃z : Zerocopy⦄ ⦃f : Bitflags⦄ ⦃m : Memchr⦄ where
  parse-steps :
      (buf rest : Bytes) (this : Unsubscribe)
      → parse buf ≡ ok (this, rest)
      → (h : FixedHeader) × (packet : Bytes) × (Header.parse buf ≡ ok (h, packet ++ rest))
        × (PacketId.parse packet ≡ ok (this.pkid, this.filters))
        × (validate this ≡ ok tt)
  unfolding parse
  parse-steps buf rest this e =
      let ((h, left), e1, head) = bind-ok _ (Header.parse buf) e in
      let split =
        ok_or (error not_enough_space "SUBSCRIBE packet")
          (split_at_checked (RemainingLength.read_len h.remaining_length) left) in
      let ((packet, rest'), e2, cut) = bind-ok _ split e1 in
      let ((pkid, fs), e3, id) = bind-ok _ (PacketId.parse packet) e2 in
      let (u, e4, valid) = bind-ok _ (validate (record { pkid = pkid; filters = fs })) e3 in
      let is_this : record { pkid = pkid; filters = fs } ≡ this = cc e4 in
      let is_rest : rest' ≡ rest = cc e4 in
      let parts = (split_at_checked_sound _ left packet rest' (ok_or-eq-ok _ _ cut)).0 in
      (
        h,
        packet,
        head ∙ ap (λ t. ok (h, t)) (parts ∙ ap (λ t. packet ++ t) is_rest),
        id ∙ ap (λ (s : Unsubscribe). ok (s.pkid, s.filters)) is_this,
        sym (ap validate is_this) ∙ valid,
      )

  -- The bytes of the filters are part of the buffer.
  filters-short :
      (buf rest : Bytes) (this : Unsubscribe)
      → parse buf ≡ ok (this, rest)
      → length this.filters < length buf
  filters-short buf rest this e =
      let (h, packet, head, id, valid) = parse-steps buf rest this e in
      let (p, t, parts, _, _) = Header.RoundTrip.parse_parts buf (packet ++ rest) h head in
      let (parts', two) = PacketId.Takes.parse_parts packet this.filters this.pkid id in
      omega (
        arith,
        ap length parts,
        length-append h.remaining_length (packet ++ rest),
        length-append packet rest,
        ap length parts',
        length-append this.pkid.pkid this.filters,
        two,
      )

  -- Of every UNSUBSCRIBE that `parse` accepts, from a buffer of fewer than 2^64 bytes, `filters`
  -- yields the filters up to the last byte, so that the `expect` of its iterator does not panic, and
  -- the wildcards of each are valid.
  pub parse-filters_valid :
      (buf rest : Bytes) (this : Unsubscribe)
      → length buf < usize_mod
      → parse buf ≡ ok (this, rest)
      → (l : List MqttStr) × (filters this ≡ some l)
        × Items MqttStr.parse l this.filters
        × All (λ v. has_valid_wildcard v.text ≡ true) l
  unfolding validate filters
  parse-filters_valid buf rest this fits e =
      let (h, packet, head, id, valid) = parse-steps buf rest this e in
      let short : length this.filters < usize_mod =
        omega (arith, fits, filters-short buf rest this e) in
      let (l, (items, oks)) =
        validate_all-Passes MqttStr.parse MqttStr.Takes.parse-Consumes check_filter this.filters
          short valid in
      (
        l,
        collect_all-Items MqttStr.parse this.filters l short items,
        items,
        All-map (λ v p. fail_if-ok _ _ p) l oks,
      )

module _ ⦃z : Zerocopy⦄ ⦃f : Bitflags⦄ ⦃m : Memchr⦄ where
  -- There is no packet in no bytes.
  pub parse-nil : Unsubscribe.parse [] ≡ err (error not_enough_space "fixed header")
  unfolding Unsubscribe.parse
  parse-nil = rw parse-empty refl
