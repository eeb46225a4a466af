-- ===== src/Sync/Reader/Capacity.antt =====
-- No call of a reader changes the length of its buffer.
use mcutt.Common.{
  ℕ, zero, suc, ◌≤◌, ◌≡◌, refl, ◌∙◌, inl, inr, Option, none, some, Bool-cases, ltb, leb, ◌==◌,
  length, arith,
}
use mcutt.Bytes.{Bytes, IoErrorKind, Error, Result, ok, err, usize_add}
use mcutt.Bytes.Io.{and_then}
use mcutt.Fixed.Header
use mcutt.Sync.Read.{Read}
use mcutt.Sync.Reader.{
  usize_sub, min_len, Reader, slice, splice, buff, backshift, filled_head, fill_head, round,
  next_frame_loop, filled_frame, fill_frame, read_frame, next_frame, known_frame, read, consume,
  consume_frame,
}
use mcutt.Sync.Reader.Window.{IsInside, length-splice, length-slice}

module _ {R : Type 0} where
  abbrev pub capacity : Reader R → ℕ
  capacity this = length this.buf

  pub capacity-backshift :
      (this : Reader R) → IsInside this → capacity (backshift this) ≡ capacity this
  unfolding backshift
  capacity-backshift this w =
      let win = slice this.pos this.filled this.buf in
      let len = length-slice this.pos this.filled this.buf w.ordered w.inside in
      length-splice 0 win this.buf (omega (arith, len, w.inside))

  capacity-consume_frame :
      (o : Option ℕ) (this : Reader R) → capacity (consume_frame o this) ≡ capacity this
  capacity-consume_frame none this = refl
  capacity-consume_frame (some n) this = refl

  pub capacity-consume : (this : Reader R) → capacity (consume this) ≡ capacity this
  unfolding consume
  capacity-consume this = capacity-consume_frame this.frame this

  -- A part of the buffer, given back with the same length, is written where it was.
  capacity-part :
      (a b : ℕ) (this : Reader R) (part : Bytes)
      → a ≤ b
      → b ≤ capacity this
      → length part ≡ length (slice a b this.buf)
      → length (splice a part this.buf) ≡ capacity this
  capacity-part a b this part h k same =
      length-splice a part this.buf (omega (arith, same, length-slice a b this.buf h k, h, k))

  -- An action that leaves the length of the buffer.
  abbrev Holds : {A : Type 0} → Reader R → Result A Error × Reader R → Type 0
  Holds this r = capacity r.1 ≡ capacity this

  Holds-and_then :
      {A B : Type 0} (this : Reader R) (r : Result A Error × Reader R)
      (f : A → Reader R → Result B Error × Reader R)
      → Holds this r
      → ((a : A) → r.0 ≡ ok a → Holds r.1 (f a r.1))
      → Holds this (and_then r f)
  Holds-and_then this (err e, next) f h k = h
  Holds-and_then this (ok a, next) f h k = k a refl ∙ h

module _ {R : Type 0} ⦃reader : Read R⦄ where
  filled_head-Holds :
      (this : Reader R) (r : Result ℕ IoErrorKind) (part : Bytes) (inner : R)
      → length (splice this.filled part this.buf) ≡ capacity this
      → Holds this (filled_head this (r, part, inner))
  filled_head-Holds this (err e) part inner h = h
  filled_head-Holds this (ok n) part inner h = elim (Bool-cases (n == 0)) [
    | inl end ↦ rw end h
    | inr more ↦ rw more h
  ]

  filled_frame-Holds :
      (n : ℕ) (this : Reader R) (r : Result (Unit {0}) IoErrorKind) (part : Bytes) (inner : R)
      → length (splice this.filled part this.buf) ≡ capacity this
      → Holds this (filled_frame n this (r, part, inner))
  filled_frame-Holds n this (err e) part inner h = h
  filled_frame-Holds n this (ok u) part inner h = h

  fill_head-Holds : (this : Reader R) → Holds this (fill_head this)
  unfolding fill_head
  fill_head-Holds this =
      let end = usize_add this.filled (usize_sub min_len (usize_sub this.filled this.pos)) in
      elim (Bool-cases (leb this.filled end)) [
        | inr back ↦ rw back refl
        | inl order ↦ elim (Bool-cases (leb end (length this.buf))) [
          | inr out ↦ rw (order, out) refl
          | inl inside ↦
              let part = slice this.filled end this.buf in
              rw (order, inside)
                (filled_head-Holds this (reader.read part this.inner).0
                  (reader.read part this.inner).1 (reader.read part this.inner).2
                  (capacity-part this.filled end this (reader.read part this.inner).1
                    (ground (arith, order)) (ground (arith, inside))
                    (reader.read_len part this.inner)))
        ]
      ]

  round-Holds :
      (this : Reader R) (more : Reader R → Result ℕ Error × Reader R)
      (answer : Result (Option ℕ) Error)
      → ((next : Reader R) → Holds next (more next))
      → Holds this (round this more answer)
  round-Holds this more (err e) f = refl
  round-Holds this more (ok (some n)) f = refl
  round-Holds this more (ok none) f =
      Holds-and_then this (fill_head this) (λ u. more) (fill_head-Holds this)
        (λ u e. f (fill_head this).1)

  pub next_frame_loop-Holds : (fuel : ℕ) (this : Reader R) → Holds this (next_frame_loop fuel this)
  unfolding next_frame_loop
  next_frame_loop-Holds zero this = refl
  next_frame_loop-Holds (suc fuel) this =
      round-Holds this (next_frame_loop fuel) (Header.next_frame (buff this))
        (next_frame_loop-Holds fuel)

  fill_frame-Holds : (n : ℕ) (this : Reader R) → n ≤ capacity this → Holds this (fill_frame n this)
  unfolding fill_frame
  fill_frame-Holds n this fits = elim (Bool-cases (ltb this.filled n)) [
    | inr more ↦ rw more refl
    | inl less ↦
        let part = slice this.filled n this.buf in
        rw less (
          filled_frame-Holds n this (reader.read_exact part this.inner).0
            (reader.read_exact part this.inner).1 (reader.read_exact part this.inner).2
            (capacity-part this.filled n this (reader.read_exact part this.inner).1
              (ground (arith, less)) fits (reader.read_exact_len part this.inner)))
  ]

  read_frame-Holds : (n : ℕ) (this : Reader R) → Holds this (read_frame n this)
  unfolding read_frame
  read_frame-Holds n this = elim (Bool-cases (ltb (length this.buf) n)) [
    | inl big ↦ rw big refl
    | inr fits ↦ rw fits (
        Holds-and_then this (fill_frame n this) (λ u next. (ok (buff next), next))
          (fill_frame-Holds n this (ground (arith, fits))) (λ u e. refl))
  ]

  known_frame-Holds :
      (o : Option ℕ) (this : Reader R) → IsInside this → Holds this (known_frame o this)
  unfolding next_frame
  known_frame-Holds none this w =
      next_frame_loop-Holds 6 (backshift this) ∙ capacity-backshift this w
  known_frame-Holds (some n) this w = refl

  -- Whatever the socket gives, `read` leaves the length of the buffer.
  pub capacity-read : (this : Reader R) → IsInside this → capacity (read this).1 ≡ capacity this
  unfolding read
  capacity-read this w =
      Holds-and_then this (known_frame this.frame this) read_frame
        (known_frame-Holds this.frame this w)
        (λ n e. read_frame-Holds n (known_frame this.frame this).1)
