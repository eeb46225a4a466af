-- ===== src/Sync/Reader/OverRead.antt =====
-- A frame shorter than five bytes that arrives together with what follows it: `read` gives both.
use mathlib.Core.Path.{subst}
use mcutt.Common.{
  ℕ, ◌≤◌, ◌≡◌, refl, sym, ap, ◌∙◌, inl, inr, [], ◌∷◌, none, some, false, ltb, ◌==◌, take, length,
  length-append, length-take, length-drop, arith,
}
use mcutt.Bytes.{Bytes, IoErrorKind, Error, Result, ok, err}
use mcutt.Bytes.Io.{and_then}
use mcutt.Fixed.Header
use mcutt.Fixed.Header.Next.{next_frame-Answers}
use mcutt.Fixed.Header.Prefix.{next_frame-front, next_frame-nil}
use mcutt.Sync.Read.{Read, IsGreedy}
use mcutt.Sync.Reader.{
  Reader, slice, buff, backshift, filled_head, fill_head, round, next_frame_loop, fill_frame,
  read_frame, next_frame, known_frame, read,
}
use mcutt.Sync.Reader.Window.{IsSound, backshift_pos}
use mcutt.Sync.Reader.Stream.{stream, IsHead, fill_head-reads, fill_head-Fills, length-buff}
use mcutt.Sync.Reader.Sound.{backshift-IsHead, stream-backshift}

nil_of : (bs : Bytes) → length bs ≡ 0 → bs ≡ []
nil_of [] h = refl
nil_of (b ∷ bs) h = absurd (omega arith)

module _ {R : Type 0} ⦃reader : Read R⦄ where
  -- Everything that a header may take has arrived at once.
  abbrev FillsHead : Result (Unit {0}) Error × Reader R → Type 0
  FillsHead r = (r.0 ≡ ok tt) × (r.1.filled ≡ 5)

  filled_head-FillsHead :
      (this : Reader R) (r : Result ℕ IoErrorKind) (part : Bytes) (inner : R)
      → this.filled ≡ 0
      → r ≡ ok 5
      → FillsHead (filled_head this (r, part, inner))
  filled_head-FillsHead this (err e) part inner start h = cc h
  filled_head-FillsHead this (ok n) part inner start h =
      let five : n ≡ 5 = cc h in
      let more : (n == 0) ≡ false = ground (arith, five) in
      rw more (refl, omega (arith, five, start))

  -- With more than a short frame in the window, the frame is found, and all of the window given.
  abbrev pub GivesFive : Result Bytes Error × Reader R → Type 0
  GivesFive r = (w : Bytes) × (next : Reader R) × (r ≡ (ok w, next)) × (length w ≡ 5)

  found-GivesFive :
      (n : ℕ) (head : Reader R)
      → IsHead head
      → head.filled ≡ 5
      → n ≤ 5
      → GivesFive (read_frame n (record head { frame = some n }))
  unfolding read_frame fill_frame buff
  found-GivesFive n head h five short =
      let this = record head { frame = some n } in
      let room : ltb (length head.buf) n ≡ false = ground (arith, h.window.room, short) in
      let there : ltb head.filled n ≡ false = ground (arith, five, short) in
      (buff head, this, rw (room, there) refl, length-buff head h ∙ five)

  -- The first round asks for a header, the second finds the frame.
  two_rounds :
      (n : ℕ) (base : Reader R) (r : Result (Unit {0}) Error × Reader R)
      → fill_head base ≡ r
      → r.0 ≡ ok tt
      → Header.next_frame (buff base) ≡ ok none
      → Header.next_frame (buff r.1) ≡ ok (some n)
      → next_frame_loop 6 base ≡ (ok n, record r.1 { frame = some n })
  unfolding next_frame_loop
  two_rounds n base (err e, head) f h p q = absurd (cc h)
  two_rounds n base (ok u, head) f h p q =
      ap (round base (next_frame_loop 5)) p
      ∙ (ap (λ r. and_then r (λ u. next_frame_loop 5)) f ∙ ap (round head (next_frame_loop 4)) q)

module _ {R : Type 0} ⦃reader : Read R⦄ (greedy : IsGreedy R) where
  fill_head-FillsHead :
      (base : Reader R)
      → IsHead base
      → base.filled ≡ 0
      → 5 ≤ length (reader.pending base.inner)
      → FillsHead (fill_head base)
  fill_head-FillsHead base h start more =
      let part = slice base.filled 5 base.buf in
      let len : length part ≡ 5 = omega (
        arith,
        length-drop base.filled (take 5 base.buf),
        length-take 5 base.buf,
        h.window.room,
        start,
      ) in
      subst FillsHead (sym (fill_head-reads base h (omega (arith, start)))) (
        filled_head-FillsHead base (reader.read part base.inner).0 (reader.read part base.inner).1
          (reader.read part base.inner).2 start
          (greedy.read_all part base.inner ∙ ap ok (omega (arith, len, more))))

  -- Five bytes that start a stream with a frame have its header.
  five-found :
      (n : ℕ) (head : Reader R)
      → IsHead head
      → head.filled ≡ 5
      → Header.next_frame (stream head) ≡ ok (some n)
      → Header.next_frame (buff head) ≡ ok (some n)
  five-found n head h five starts =
      elim (next_frame-front (buff head) (reader.pending head.inner) n starts) [
        | inr found ↦ found
        | inl none_yet ↦
            absurd (
              omega (arith, next_frame-Answers (buff head) none none_yet, length-buff head h, five))
      ]

  head-GivesFive :
      (n : ℕ) (base : Reader R)
      → IsHead base
      → base.filled ≡ 0
      → Header.next_frame (stream base) ≡ ok (some n)
      → n ≤ 5
      → 5 ≤ length (stream base)
      → GivesFive (and_then (next_frame_loop 6 base) read_frame)
  head-GivesFive n base h start starts short there =
      let win = length-buff base h in
      let more : 5 ≤ length (reader.pending base.inner) =
        omega (arith, there, win, start, length-append (buff base) (reader.pending base.inner)) in
      let (done, five) = fill_head-FillsHead base h start more in
      let keeps = (fill_head-Fills base h (omega (arith, start))).0 in
      let head = (fill_head base).1 in
      let found = five-found n head keeps.head five (ap Header.next_frame keeps.stream ∙ starts) in
      let nothing : Header.next_frame (buff base) ≡ ok none =
        ap Header.next_frame (nil_of (buff base) (win ∙ start)) ∙ next_frame-nil in
      subst (λ r. GivesFive (and_then r read_frame))
        (sym (two_rounds n base (fill_head base) refl done nothing found))
        (found-GivesFive n head keeps.head five short)

  -- From a sound reader whose window is empty, when a frame of less than five bytes stands at the
  -- front of at least five that have arrived: `read` gives five bytes, not the frame.
  pub read-GivesFive :
      (n : ℕ) (this : Reader R)
      → IsSound this
      → this.frame ≡ none
      → this.filled ≡ this.pos
      → Header.next_frame (stream this) ≡ ok (some n)
      → n ≤ 5
      → 5 ≤ length (stream this)
      → GivesFive (read this)
  unfolding read next_frame
  read-GivesFive n this s none_yet empty starts short there =
      let base = backshift this in
      let h = backshift-IsHead this s.window (omega (arith, empty)) in
      let same = stream-backshift this s.window in
      subst (λ o. GivesFive (and_then (known_frame o this) read_frame)) (sym none_yet)
        (head-GivesFive n base h (omega (arith, backshift_pos this s.window, empty))
          (ap Header.next_frame same ∙ starts) short (omega (arith, ap length same, there)))
