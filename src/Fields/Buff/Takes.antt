-- ===== src/Fields/Buff/Takes.antt =====
-- A buffer that is accepted is taken off the front of what it is read from.
use mcutt.Common.{◌≡◌, ◌∙◌, sym, arith, split_at_checked_sound}
use mcutt.Bytes.Try.{bind-ok, ok_or-eq-ok}
use mcutt.Bytes.Takes.{Consumes, Takes-append}
use mcutt.External.Zerocopy.{Zerocopy}
use mcutt.Fields.Buff.{parse}

module _ ⦃z : Zerocopy⦄ where
  pub parse-Consumes : Consumes parse
  unfolding parse
  parse-Consumes bs this rest h =
      let ((len, tail), h', first) = bind-ok _ _ h in
      let ((front, left), h'', second) = bind-ok _ _ h' in
      let (parts, two) =
        split_at_checked_sound 2 bs len tail
          (sym (z.ref_from_bytes_lem 2 bs) ∙ ok_or-eq-ok _ _ first) in
      let (parts', n) =
        split_at_checked_sound (z.u16_get len) tail front left
          (sym (z.split_at_lem (z.u16_get len) tail) ∙ ok_or-eq-ok _ _ second) in
      let e : left ≡ rest = cc h'' in
      rw (← e) (Takes-append (len, parts, omega (arith, two)) front parts')
