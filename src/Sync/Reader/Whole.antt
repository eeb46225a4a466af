-- ===== src/Sync/Reader/Whole.antt =====
-- Filling the frame that was found, and what `read_frame` gives.
use mathlib.Core.Path.{subst}
use mcutt.Common.{
  ℕ, ◌+◌, ◌-◌, ◌≤◌, ◌<◌, ◌≡◌, refl, sym, ap, ◌∙◌, ◌++◌, append_assoc, none, some, Bool-cases, ltb,
  ltb→lt, take_all, take, drop, length, length-take, length-drop, drop-append_front, inl, inr,
  arith, min,
}
use mcutt.Bytes.{Bytes, IoErrorKind, Error, Result, ok, err, usize_add}
use mcutt.Bytes.Io.{and_then}
use mcutt.Sync.Read.{Read}
use mcutt.Sync.Reader.{
  Reader, slice, splice, buff, filled_frame, fill_frame, read_frame, consume, consume_frame,
}
use mcutt.Sync.Reader.Window.{
  IsInside, IsSound, KnownFrame, StartsFrame, buff_at_front, write-IsInside, buff-write,
}
use mcutt.Sync.Reader.Stream.{stream}

module _ {R : Type 0} ⦃reader : Read R⦄ where
  -- The reader holds a front of a frame of length `n`, or the frame and less than a header more.
  pub record Ready (n : ℕ) (this : Reader R) : Type 0 where
    pub window : IsInside this
    pub frame : this.frame ≡ some n
    pub known : KnownFrame (some n) this

  pub Ready-IsSound : (n : ℕ) (this : Reader R) → Ready n this → IsSound this
  unfolding buff
  Ready-IsSound n this r = record { window = r.window; frame = let e = r.frame in rw e r.known }

  -- The state after `k` more bytes.
  abbrev after : Reader R → Bytes → R → ℕ → Reader R
  after this part inner k = record this {
    buf = splice this.filled part this.buf;
    inner = inner;
    filled = this.filled + k;
  }

  after-Ready :
      (n : ℕ) (this : Reader R) (part : Bytes) (inner : R) (k : ℕ)
      → Ready n this
      → this.filled + length part ≤ length this.buf
      → k ≤ length part
      → this.filled + k < n + 5
      → Ready n (after this part inner k)
  after-Ready n this part inner k r fits few less =
      let (front, frame, short, (head, rest, e, found)) = r.known in
      record {
        window = write-IsInside this part inner k r.window fits few;
        frame = r.frame;
        known = (
          front,
          frame,
          less,
          (
            head,
            rest ++ take k part,
            buff-write this part inner k r.window front few
                ∙ (ap (λ t. t ++ take k part) e ∙ append_assoc head rest (take k part)),
            found,
          ),
        );
      }

  -- The whole frame is there, and the stream is what it was.
  abbrev pub Complete : ℕ → Reader R → Reader R → Type 0
  Complete n this next = Ready n next × (n ≤ next.filled) × (stream next ≡ stream this)

  abbrev pub Fills : ℕ → Reader R → Result (Unit {0}) Error × Reader R → Type 0
  Fills n this (err e, next) = Ready n next
  Fills n this (ok u, next) = Complete n this next

  filled_frame-Fills :
      (n : ℕ) (this : Reader R) (r : Result (Unit {0}) IoErrorKind) (part : Bytes) (inner : R)
      → Ready n this
      → this.filled < n
      → n ≤ length this.buf
      → this.filled + length part ≡ n
      → (r ≡ ok tt → reader.pending this.inner ≡ part ++ reader.pending inner)
      → Fills n this (filled_frame n this (r, part, inner))
  filled_frame-Fills n this (err e) part inner r less fits whole given =
      let same : this.filled + 0 ≡ this.filled = omega arith in
      rw same at (
        after-Ready n this part inner 0 r (omega (arith, whole, fits)) (omega arith)
          (omega (arith, less)))
  filled_frame-Fills n this (ok u) part inner r less fits whole given =
      let front = r.known.0 in
      let k = length part in
      let kept : stream (after this part inner k) ≡ stream this =
        ap (λ t. t ++ reader.pending inner)
          (buff-write this part inner k r.window front (omega arith)
            ∙ ap (λ t. buff this ++ t) (take_all part))
        ∙ (append_assoc (buff this) part (reader.pending inner)
            ∙ ap (λ t. buff this ++ t) (sym (given refl))) in
      let at_len = λ (m : ℕ).
        Complete n this
          (record this { buf = splice this.filled part this.buf; inner = inner; filled = m }) in
      subst at_len whole (
        after-Ready n this part inner k r (omega (arith, whole, fits)) (omega arith)
            (omega (arith, whole)),
        omega (arith, whole),
        kept,
      )

  pub fill_frame-Fills :
      (n : ℕ) (this : Reader R)
      → Ready n this
      → n ≤ length this.buf
      → Fills n this (fill_frame n this)
  unfolding fill_frame
  fill_frame-Fills n this r fits = elim (Bool-cases (ltb this.filled n)) [
    | inl less ↦
        let part = slice this.filled n this.buf in
        let short = ltb→lt this.filled n less in
        let len : length part ≡ n - this.filled =
          omega (arith, length-drop this.filled (take n this.buf), length-take n this.buf, fits) in
        let got = reader.read_exact_len part this.inner in
        rw less (
          filled_frame-Fills n this (reader.read_exact part this.inner).0
            (reader.read_exact part this.inner).1 (reader.read_exact part this.inner).2 r short fits
            (omega (arith, len, got, short)) (reader.read_exact_ok part this.inner))
    | inr more ↦ rw more (r, ground (arith, more), refl)
  ]

  -- What a call of `read` that succeeds gives: the bytes start with a frame of the stream and have
  -- all of it; nothing is lost; and `consume` then takes exactly that frame off the stream.
  pub record Gives (this next : Reader R) (bs : Bytes) : Type 0 where
    pub len : ℕ
    pub starts : StartsFrame len bs
    pub whole : len ≤ length bs
    pub window : bs ≡ buff next
    pub sound : IsSound next
    pub kept : stream next ≡ stream this
    pub consumed : stream (consume next) ≡ drop len (stream this)

  abbrev pub Reads : Reader R → Result Bytes Error × Reader R → Type 0
  Reads this (err e, next) = IsSound next
  Reads this (ok bs, next) = Gives this next bs

  pub length-window : (n : ℕ) (this : Reader R) → Ready n this → length (buff this) ≡ this.filled
  length-window n this r = omega (
    arith,
    ap length (buff_at_front this r.known.0),
    length-take this.filled this.buf,
    r.window.inside,
  )

  consume_known :
      (n : ℕ) (this : Reader R)
      → Ready n this
      → n ≤ this.filled
      → consume this ≡ record this { frame = none; pos = n }
  unfolding consume
  consume_known n this r whole =
      let pos : min (usize_add this.pos n) this.filled ≡ n =
        omega (arith, r.known.0, whole, r.window.inside, r.window.small) in
      ap (λ o. consume_frame o this) r.frame ∙ ap (λ p. record this { frame = none; pos = p }) pos

  stream-consume :
      (n : ℕ) (this : Reader R)
      → Ready n this
      → n ≤ this.filled
      → stream (consume this) ≡ drop n (stream this)
  unfolding buff
  stream-consume n this r whole =
      let win = take this.filled this.buf in
      let rest = reader.pending this.inner in
      let len : n ≤ length win =
        omega (arith, length-take this.filled this.buf, r.window.inside, whole) in
      ap (stream {R = R}) (consume_known n this r whole)
      ∙ (sym (drop-append_front win rest n len)
          ∙ ap (λ b. drop n (b ++ rest)) (sym (buff_at_front this r.known.0)))

  pub Complete-Gives :
      (n : ℕ) (this next : Reader R) → Complete n this next → Gives this next (buff next)
  Complete-Gives n this next (r, whole, kept) = record {
    len = n;
    starts = r.known.3;
    whole = omega (arith, length-window n next r, whole);
    window = refl;
    sound = Ready-IsSound n next r;
    kept = kept;
    consumed = stream-consume n next r whole ∙ ap (drop n) kept;
  }

  filled-Reads :
      (n : ℕ) (this : Reader R) (r : Result (Unit {0}) Error × Reader R)
      → Fills n this r
      → Reads this (and_then r (λ u next. (ok (buff next), next)))
  filled-Reads n this (err e, next) f = Ready-IsSound n next f
  filled-Reads n this (ok u, next) f = Complete-Gives n this next f

  pub read_frame-Reads : (n : ℕ) (this : Reader R) → Ready n this → Reads this (read_frame n this)
  unfolding read_frame
  read_frame-Reads n this r = elim (Bool-cases (ltb (length this.buf) n)) [
    | inl big ↦ rw big (Ready-IsSound n this r)
    | inr fits ↦
        rw fits (
          filled-Reads n this (fill_frame n this)
            (fill_frame-Fills n this r (ground (arith, fits))))
  ]
