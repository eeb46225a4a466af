-- ===== src/Fixed/Header/Cuts.antt =====
-- A header that was parsed, and the bytes behind it that its remaining length counts.
use mcutt.Common.{◌≡◌, sym, ap, ◌∙◌, some, ◌∷◌, ◌++◌, append_assoc, length, length-append, arith}
use mcutt.Bytes.{Bytes, ok}
use mcutt.External.Zerocopy.{Zerocopy}
use mcutt.External.Bitflags.{Bitflags}
use mcutt.Fixed.RemainingLength.{read_len}
use mcutt.Fixed.Header.{FixedHeader, parse, next_frame}
use mcutt.Fixed.Header.RoundTrip.{parse_parts}
use mcutt.Fixed.Header.Frame.{next_frame-IsTerminated}

module _ ⦃z : Zerocopy⦄ ⦃f : Bitflags⦄ where
  -- The buffer starts with a header and with as many bytes behind it as its remaining length says.
  pub record Cuts (buf rest : Bytes) : Type 0 where
    pub head : FixedHeader
    pub body : Bytes
    pub parsed : parse buf ≡ ok (head, body ++ rest)
    pub counted : length body ≡ read_len head.remaining_length

  -- That is what `next_frame` finds.
  pub next_frame-Cuts :
      (buf rest : Bytes)
      → Cuts buf rest
      → (used : Bytes) × (buf ≡ used ++ rest) × (next_frame buf ≡ ok (some (length used)))
  next_frame-Cuts buf rest c =
      let h = c.head in
      let (p, typed, parts, term, few) = parse_parts buf (c.body ++ rest) h c.parsed in
      let len = h.remaining_length in
      (
        h.type_and_flags ∷ (len ++ c.body),
        parts ∙ ap (λ t. h.type_and_flags ∷ t) (sym (append_assoc len c.body rest)),
        ap next_frame parts
            ∙ (next_frame-IsTerminated h.type_and_flags len (c.body ++ rest) term few
                ∙ ap (λ k. ok (some k)) (omega (arith, c.counted, length-append len c.body))),
      )
