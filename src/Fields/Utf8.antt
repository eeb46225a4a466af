-- ===== src/Fields/Utf8.antt =====
-- The standard library's `str`: a byte string that is valid UTF-8, and its `chars`. The decoder
-- reads a byte at a time; its state says how many bytes of a character are missing, their bits so
-- far and the range of the next byte, which rules out overlong forms and surrogates.
use mathlib.Core.Option
use mcutt.Common.{
  ℕ, ◌+◌, ◌-◌, ◌*◌, Bool, true, false, ◌&&◌, Option, none, some, List, [], ◌∷◌, ◌==◌, ltb, leb,
  if◌then◌else◌,
}
use mcutt.Bytes.{Bytes}

record State : Type 0 where
  need : ℕ
  bits : ℕ
  lo : ℕ
  hi : ℕ

abbrev state : ℕ → ℕ → ℕ → ℕ → State
state n b l h = record { need = n; bits = b; lo = l; hi = h }

abbrev between : ℕ → ℕ → ℕ → Bool
between lo hi b = leb lo b && leb b hi

-- The first byte of a character: a character, or what must follow.
lead : ℕ → Option (Option ℕ × State)
lead b =
    if ltb b 0x80
    then some (some b, state 0 0 0 0)
    else if between 0xc2 0xdf b
    then some (none, state 1 (b - 0xc0) 0x80 0xbf)
    else if b == 0xe0
    then some (none, state 2 0 0xa0 0xbf)
    else if b == 0xed
    then some (none, state 2 0xd 0x80 0x9f)
    else if between 0xe1 0xef b
    then some (none, state 2 (b - 0xe0) 0x80 0xbf)
    else if b == 0xf0
    then some (none, state 3 0 0x90 0xbf)
    else if between 0xf1 0xf3 b
    then some (none, state 3 (b - 0xf0) 0x80 0xbf)
    else if b == 0xf4
    then some (none, state 3 4 0x80 0x8f)
    else none

-- A later byte.
follow : State → ℕ → Option (Option ℕ × State)
follow s b =
    let bits = s.bits * 64 + (b - 0x80) in
    if between s.lo s.hi b
    then (if s.need == 1
        then some (some bits, state 0 0 0 0)
        else some (none, state (s.need - 1) bits 0x80 0xbf))
    else none

abbrev emit : Option ℕ → List ℕ → List ℕ
emit none cs = cs
emit (some c) cs = c ∷ cs

decode_from : State → Bytes → Option (List ℕ)
unfolding lead follow
decode_from s [] = if s.need == 0 then some [] else none
decode_from s (b ∷ bs) = elim (if s.need == 0 then lead b else follow s b) [
  | none ↦ none
  | some (c, s') ↦ Option.map (emit c) (decode_from s' bs)
]

unfoldable pub decode : Bytes → Option (List ℕ)
unfolding decode_from
decode bs = decode_from (state 0 0 0 0) bs

abbrev pub is_some : Option (List ℕ) → Bool
is_some none = false
is_some (some cs) = true

-- `str::from_utf8(bs).is_ok()`.
unfoldable pub is_utf8 : Bytes → Bool
unfolding decode
is_utf8 bs = is_some (decode bs)

abbrev or_nil : Option (List ℕ) → List ℕ
or_nil none = []
or_nil (some cs) = cs

-- `str::chars`, as code points.
unfoldable pub chars : Bytes → List ℕ
unfolding decode
chars bs = or_nil (decode bs)
