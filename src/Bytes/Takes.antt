-- ===== src/Bytes/Takes.antt =====
-- Parsers that move forward: what they accept loses a front of at least one byte.
use mcutt.Common.{◌≡◌, ◌++◌, append_assoc, ap, sym, ◌∙◌, ◌<◌, length, length-append, arith}
use mcutt.Bytes.Errors.{Bytes, Error, Result, ok}

-- `rest` is what is left of `bs` behind a front of at least one byte.
abbrev pub Takes : Bytes → Bytes → Type 0
Takes bs rest = (used : Bytes) × (bs ≡ used ++ rest) × (0 < length used)

abbrev pub Consumes : {A : Type 0} → (Bytes → Result (A × Bytes) Error) → Type 0
Consumes {A} parse = (bs : Bytes) (a : A) (rest : Bytes) → parse bs ≡ ok (a, rest) → Takes bs rest

-- One part, then another, which may be empty.
pub Takes-append :
    {bs mid rest : Bytes} → Takes bs mid → (used : Bytes) → mid ≡ used ++ rest → Takes bs rest
Takes-append {rest = rest} (first, e, pos) used s = (
  first ++ used,
  e ∙ (ap (λ t. first ++ t) s ∙ sym (append_assoc first used rest)),
  omega (arith, pos, length-append first used),
)
