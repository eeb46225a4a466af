-- ===== src/Sync/Reader/Stream.antt =====
-- The reader and the stream: the bytes that it holds and those that the socket has still to give.
use mcutt.Common.{
  ℕ, ◌+◌, ◌-◌, ◌≤◌, ◌<◌, ◌≡◌, refl, sym, ap, ◌∙◌, ◌++◌, append_assoc, Bool-cases, ==_iff, true,
  take, length, length-take, length-drop, leb, ◌==◌, inl, inr, arith,
}
use mcutt.Bytes.{Bytes, IoErrorKind, Error, Result, ok, err, usize_add}
use mcutt.Sync.Read.{Read}
use mcutt.Sync.Reader.{usize_sub, Reader, slice, splice, buff, filled_head, fill_head}
use mcutt.Sync.Reader.Window.{IsInside, buff_at_front, write-IsInside, buff-write}

module _ {R : Type 0} ⦃reader : Read R⦄ where
  -- What is still to be handed out.
  abbrev pub stream : Reader R → Bytes
  stream this = buff this ++ reader.pending this.inner

  -- The window is at the front of the buffer, and holds at most a header.
  pub record IsHead (this : Reader R) : Type 0 where
    pub window : IsInside this
    pub front : this.pos ≡ 0
    pub short : this.filled ≤ 5

  -- A step that keeps the stream, and at most fills the header.
  pub record Keeps (this next : Reader R) : Type 0 where
    pub head : IsHead next
    pub stream : stream next ≡ stream this
    pub frame : next.frame ≡ this.frame

  pub length-buff : (this : Reader R) → IsHead this → length (buff this) ≡ this.filled
  length-buff this h = omega (
    arith,
    ap length (buff_at_front this h.front),
    length-take this.filled this.buf,
    h.window.inside,
  )

  -- The state after `n` more bytes.
  abbrev after : Reader R → Bytes → R → ℕ → Reader R
  after this part inner n = record this {
    buf = splice this.filled part this.buf;
    inner = inner;
    filled = this.filled + n;
  }

  after-Keeps :
      (this : Reader R) (part : Bytes) (inner : R) (n : ℕ)
      → IsHead this
      → this.filled + length part ≡ 5
      → n ≤ length part
      → reader.pending this.inner ≡ take n part ++ reader.pending inner
      → Keeps this (after this part inner n)
  after-Keeps this part inner n h five k p = record {
    head = record {
      window = write-IsInside this part inner n h.window (omega (arith, five, h.window.room)) k;
      front = h.front;
      short = omega (arith, five, k);
    };
    stream =
        ap (λ t. t ++ reader.pending inner) (buff-write this part inner n h.window h.front k)
        ∙ (append_assoc (buff this) (take n part) (reader.pending inner)
            ∙ ap (λ t. buff this ++ t) (sym p));
    frame = refl;
  }

  -- Bytes that do not count, behind the window.
  unread-Keeps :
      (this : Reader R) (part : Bytes) (inner : R)
      → IsHead this
      → this.filled + length part ≡ 5
      → reader.pending this.inner ≡ reader.pending inner
      → Keeps this (record this { buf = splice this.filled part this.buf; inner = inner })
  unread-Keeps this part inner h five p =
      let e : this.filled + 0 ≡ this.filled = omega arith in
      rw e at (after-Keeps this part inner 0 h five (omega arith) p)

  -- What a step of `fill_head` gives: it keeps the stream, and has read something exactly if it
  -- succeeds.
  abbrev pub Fills : Reader R → Result (Unit {0}) Error × Reader R → Type 0
  Fills this r =
      Keeps this r.1
      × (r.0 ≡ ok tt → this.filled < r.1.filled)
      × ((e : Error) → r.0 ≡ err e → r.1.filled ≡ this.filled)

  filled_head-Fills :
      (this : Reader R) (r : Result ℕ IoErrorKind) (part : Bytes) (inner : R)
      → IsHead this
      → this.filled + length part ≡ 5
      → ((n : ℕ)
          → r ≡ ok n
          → (n ≤ length part) × (reader.pending this.inner ≡ take n part ++ reader.pending inner))
      → ((e : IoErrorKind) → r ≡ err e → reader.pending inner ≡ reader.pending this.inner)
      → Fills this (filled_head this (r, part, inner))
  filled_head-Fills this (err e) part inner h five oks errs =
      (unread-Keeps this part inner h five (sym (errs e refl)), λ p. cc p, λ x p. refl)
  filled_head-Fills this (ok n) part inner h five oks errs =
      let (few, given) = oks n refl in
      let added : usize_add this.filled n ≡ this.filled + n =
        omega (arith, few, five, h.window.small) in
      elim (Bool-cases (n == 0)) [
        | inl none_left ↦
            let e : n ≡ 0 = (==_iff n 0).0 none_left in
            rw none_left (
              unread-Keeps this part inner h five
                  (given ∙ ap (λ k. take k part ++ reader.pending inner) e),
              λ p. cc p,
              λ x p. refl,
            )
        | inr more ↦
            rw (more, added)
              (
                after-Keeps this part inner n h five few given,
                λ p. ground (arith, more),
                λ x p. cc p,
              )
      ]

  -- On a window that lacks a part of a header, `fill_head` asks for the rest of it.
  pub fill_head-reads :
      (this : Reader R)
      → IsHead this
      → this.filled < 5
      → fill_head this ≡ filled_head this (reader.read (slice this.filled 5 this.buf) this.inner)
  unfolding fill_head
  fill_head-reads this h less =
      let end : usize_add this.filled (usize_sub 5 (usize_sub this.filled this.pos)) ≡ 5 =
        omega (arith, h.front, less) in
      let inside : leb 5 (length this.buf) ≡ true = ground (arith, h.window.room) in
      let order : leb this.filled 5 ≡ true = ground (arith, less) in rw (end, order, inside) refl

  pub fill_head-Fills :
      (this : Reader R) → IsHead this → this.filled < 5 → Fills this (fill_head this)
  fill_head-Fills this h less =
      let part = slice this.filled 5 this.buf in
      let len : length part ≡ 5 - this.filled =
        omega (
          arith,
          length-drop this.filled (take 5 this.buf),
          length-take 5 this.buf,
          h.window.room,
        ) in
      let got = reader.read_len part this.inner in
      rw (fill_head-reads this h less) (
        filled_head-Fills this (reader.read part this.inner).0 (reader.read part this.inner).1
          (reader.read part this.inner).2 h (omega (arith, len, got, less))
          (λ n e.
            let (few, given) = reader.read_ok part this.inner n e in
            (omega (arith, few, got), given))
          (reader.read_err part this.inner))
