-- ===== src/Fields/PacketId/Takes.antt =====
-- An identifier that is accepted is taken off the front of what it is read from.
use mcutt.Common.{◌≡◌, ◌∙◌, ap, sym, ◌++◌, length, split_at_checked_sound}
use mcutt.Bytes.{Bytes, error, not_enough_space, ok, ok_or}
use mcutt.Bytes.Try.{◌>>=◌, bind-ok, ok_or-eq-ok}
use mcutt.Bytes.Local.{
  IsLocal, IsLocal-bind, IsLocal-same, IsLocal-split_at_checked, IsLocal-check, IsLocal-pure,
}
use mcutt.External.Zerocopy.{Zerocopy}
use mcutt.Fields.PacketId.{PacketId, validate, parse}

module _ ⦃z : Zerocopy⦄ where
  pub parse_parts :
      (bs rest : Bytes) (this : PacketId)
      → parse bs ≡ ok (this, rest)
      → (bs ≡ this.pkid ++ rest) × (length this.pkid ≡ 2)
  unfolding parse
  parse_parts bs rest this h =
      let cut =
        ok_or (error not_enough_space "couldn't parse packet id") (z.ref_from_prefix 2 bs) in
      let ((front, left), h', first) = bind-ok _ cut h in
      let (u, h'', second) = bind-ok _ (validate (record { pkid = front })) h' in
      let same : front ≡ this.pkid = cc h'' in
      let e : left ≡ rest = cc h'' in
      let (parts, two) =
        split_at_checked_sound 2 bs front left
          (sym (z.ref_from_prefix_lem 2 bs) ∙ ok_or-eq-ok _ _ first) in
      (parts ∙ (λ i. same i ++ e i), sym (ap length same) ∙ two)

  pub parse-IsLocal : IsLocal 2 parse
  unfolding parse
  parse-IsLocal =
      IsLocal-bind 2 0
        (λ buf. ok_or (error not_enough_space "couldn't parse packet id") (z.ref_from_prefix 2 buf))
        (λ front rest.
          validate (record { pkid = front }) >>= λ u. ok (record { pkid = front }, rest))
        (IsLocal-same 2 _ _ (λ bs. ap (ok_or _) (z.ref_from_prefix_lem 2 bs))
          (IsLocal-split_at_checked 2 _))
        (λ front. IsLocal-check 0 (validate (record { pkid = front })) _ (λ u. IsLocal-pure _))
