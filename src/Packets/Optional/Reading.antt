-- ===== src/Packets/Optional/Reading.antt =====
-- What an optional part writes, and that it is read back.
use mathlib.Core.Option
use mcutt.Common.{ℕ, ◌+◌, ◌<◌, ◌≡◌, refl, ap, Option, none, some, Bool, [], ◌++◌, length, arith}
use mcutt.Bytes.{usize_mod, Bytes, Error, Result, ok, usize_add}
use mcutt.Bytes.Try.{map_ok}
use mcutt.Bytes.Io.{Write, Io}
use mcutt.Bytes.Emits.{Emits, Emits-pure, Emits-return}
use mcutt.Packets.Optional.{is_some, validate_part, add_len, add_written, some_left, parse_part}

module _ {ℓ} {A : Type ℓ} where
  abbrev pub part_bytes : (A → Bytes) → Option A → Bytes
  part_bytes bytes none = []
  part_bytes bytes (some v) = bytes v

  abbrev pub part_len : (A → ℕ) → Option A → ℕ
  part_len size none = 0
  part_len size (some v) = size v

  -- What holds of the part, if it is there.
  abbrev pub IfSome {κ} : (A → Type κ) → Option A → Type κ
  IfSome P none = Unit {κ}
  IfSome P (some v) = P v

  pub IfSome-map {κ κ'} :
      {P : A → Type κ} {Q : A → Type κ'}
      → ((a : A) → P a → Q a)
      → (o : Option A) → IfSome P o
      → IfSome Q o
  IfSome-map g none h = tt
  IfSome-map g (some v) h = g v h

  pub length-part_bytes :
      (bytes : A → Bytes) (size : A → ℕ) (o : Option A)
      → IfSome (λ v. length (bytes v) ≡ size v) o
      → length (part_bytes bytes o) ≡ part_len size o
  length-part_bytes bytes size none h = refl
  length-part_bytes bytes size (some v) h = h

module _ {A : Type 0} where
  pub validate_part-map :
      {B : Type 0} (validate : B → Result (Unit {0}) Error) (this : A → B) (o : Option A)
      → IfSome (λ v. validate (this v) ≡ ok tt) o
      → validate_part validate (Option.map this o) ≡ ok tt
  validate_part-map validate this none h = refl
  validate_part-map validate this (some v) h = h

  pub add_len-ok :
      (encode_len : A → Result ℕ Error) (size : A → ℕ) (o : Option A) (len : ℕ)
      → len + part_len size o < usize_mod
      → IfSome (λ v. encode_len v ≡ ok (size v)) o
      → add_len encode_len o (some len) ≡ ok (some (len + part_len size o))
  add_len-ok encode_len size none len fits h = ground arith
  add_len-ok encode_len size (some v) len fits h = rw h (ground arith)

  pub add_written-Emits :
      {W : Type 0} ⦃writer : Write W⦄ (write_sync : A → Io W ℕ) (bytes : A → Bytes) (size : A → ℕ)
      (o : Option A) (written : ℕ)
      → written + part_len size o < usize_mod
      → IfSome (λ v. Emits {W = W} (bytes v) (size v) (write_sync v)) o
      → Emits {W = W}
          (part_bytes bytes o)
          (written + part_len size o)
          (add_written write_sync o written)
  add_written-Emits write_sync bytes size none written fits h =
      let same : written + 0 ≡ written = omega arith in rw same (Emits-pure written)
  add_written-Emits write_sync bytes size (some v) written fits h =
      let added : usize_add written (size v) ≡ written + size v = omega (arith, fits) in
      rw (← added) (Emits-return (usize_add written) h)

  pub parse_part-lem :
      {B : Type 0} (parse : Bytes → Result (B × Bytes) Error) (bytes : A → Bytes) (this : A → B)
      (present : Bool) (o : Option A) (rest : Bytes)
      → present ≡ is_some o
      → IfSome (λ v. parse (bytes v ++ rest) ≡ ok (this v, rest)) o
      → parse_part present parse (part_bytes bytes o ++ rest) ≡ ok (Option.map this o, rest)
  parse_part-lem parse bytes this present none rest p h = rw p refl
  parse_part-lem parse bytes this present (some v) rest p h = rw p (ap (map_ok some_left) h)
