-- ===== src/Sync/Reader/Window.antt =====
-- The bytes between `pos` and `filled`, and the invariant of a reader.
use mcutt.Common.{
  ℕ, ◌+◌, ◌-◌, ◌≤◌, ◌<◌, ◌≡◌, refl, ap, ◌∙◌, ◌⊎◌, inl, ◌++◌, append-nil, Option, none, some, take,
  drop, length, length-append, length-take, length-drop, take-append, take-append_front, arith,
}
use mcutt.Bytes.{usize_mod, Bytes, Error, ok, err}
use mcutt.Fixed.Header
use mcutt.Fixed.Header.Next.{IsFrame}
use mcutt.Sync.Reader.{Reader, usize_sub, slice, splice, buff, backshift, consume_frame, consume}

-- A buffer and the window of it that holds what has arrived.
pub record IsInside {R : Type 0} (this : Reader R) : Type 0 where
  pub ordered : this.pos ≤ this.filled
  pub inside : this.filled ≤ length this.buf
  pub room : 5 ≤ length this.buf
  pub small : length this.buf + 5 < usize_mod

-- The bytes start with a header that announces a frame of this length.
abbrev pub StartsFrame : ℕ → Bytes → Type 0
StartsFrame n bs =
    (head : Bytes) × (rest : Bytes) × (bs ≡ head ++ rest) × (Header.next_frame head ≡ ok (some n))

-- Less than the longest header has arrived, as the `debug_assert!` of `next_frame` says, or the bytes
-- that have arrived are refused as a header: then that assertion fails if there are five of them.
abbrev pub Waits : {R : Type 0} → Reader R → Type 0
Waits this = (this.filled < this.pos + 5) ⊎ ((e : Error) × (Header.next_frame (buff this) ≡ err e))

-- Between calls: before a frame is found at most the longest header has arrived, and it is refused if
-- it has arrived in full; afterwards the window starts with the frame and is shorter than the frame
-- and a header.
abbrev pub KnownFrame : {R : Type 0} → Option ℕ → Reader R → Type 0
KnownFrame none this = (this.filled ≤ this.pos + 5) × Waits this
KnownFrame (some n) this =
    (this.pos ≡ 0) × IsFrame n × (this.filled < n + 5) × StartsFrame n (buff this)

pub record IsSound {R : Type 0} (this : Reader R) : Type 0 where
  pub window : IsInside this
  pub frame : KnownFrame this.frame this

pub length-splice :
    (i : ℕ) (bs xs : Bytes) → i + length bs ≤ length xs → length (splice i bs xs) ≡ length xs
length-splice i bs xs h = omega (
  arith,
  length-append (take i xs) (bs ++ drop (i + length bs) xs),
  length-append bs (drop (i + length bs) xs),
  length-take i xs,
  length-drop (i + length bs) xs,
)

pub length-slice : (a b : ℕ) (xs : Bytes) → a ≤ b → b ≤ length xs → length (slice a b xs) ≡ b - a
length-slice a b xs h k = omega (arith, length-drop a (take b xs), length-take b xs)

-- What is in front of a write stays, and what was written follows.
take-splice :
    (i n k : ℕ) (bs xs : Bytes)
    → i ≤ length xs
    → n ≤ length bs
    → k ≡ i + n
    → take k (splice i bs xs) ≡ take i xs ++ take n bs
take-splice i n k bs xs h m e =
    let front : length (take i xs) ≡ i = omega (arith, length-take i xs) in
    take-append (take i xs) (bs ++ drop (i + length bs) xs) n k (omega (arith, front, e))
    ∙ ap (λ t. take i xs ++ t) (take-append_front bs (drop (i + length bs) xs) n m)

module _ {R : Type 0} where
  pub backshift_pos :
      (this : Reader R) → IsInside this → (backshift this).filled ≡ this.filled - this.pos
  unfolding backshift
  backshift_pos this w = omega (arith, w.ordered, w.inside, w.small)

  -- Moving the window to the front keeps what is in it.
  pub buff-backshift : (this : Reader R) → IsInside this → buff (backshift this) ≡ buff this
  unfolding buff backshift
  buff-backshift this w =
      let win = slice this.pos this.filled this.buf in
      let len : length win ≡ this.filled - this.pos =
        length-slice this.pos this.filled this.buf w.ordered w.inside in
      let all_of : usize_sub this.filled this.pos ≡ length win + 0 =
        omega (arith, len, w.ordered, w.inside, w.small) in
      take-append win (drop (0 + length win) this.buf) 0 _ all_of ∙ append-nil win

  pub backshift-IsInside : (this : Reader R) → IsInside this → IsInside (backshift this)
  unfolding backshift
  backshift-IsInside this w =
      let win = slice this.pos this.filled this.buf in
      let len : length win ≡ this.filled - this.pos =
        length-slice this.pos this.filled this.buf w.ordered w.inside in
      let same : length (splice 0 win this.buf) ≡ length this.buf =
        length-splice 0 win this.buf (omega (arith, len, w.inside)) in
      record {
        ordered = omega arith;
        inside = omega (arith, same, w.ordered, w.inside, w.small);
        room = omega (arith, same, w.room);
        small = omega (arith, same, w.small);
      }

  -- At the front of the buffer the window is what has been filled.
  pub buff_at_front : (this : Reader R) → this.pos ≡ 0 → buff this ≡ take this.filled this.buf
  unfolding buff
  buff_at_front this e = rw e refl

  -- A write behind the window, of which `n` bytes count.
  pub write-IsInside :
      (this : Reader R) (part : Bytes) (inner : R) (n : ℕ)
      → IsInside this
      → this.filled + length part ≤ length this.buf
      → n ≤ length part
      → IsInside (record this {
        buf = splice this.filled part this.buf;
        inner = inner;
        filled = this.filled + n;
      })
  write-IsInside this part inner n w fits k =
      let same = length-splice this.filled part this.buf fits in
      record {
        ordered = omega (arith, w.ordered);
        inside = omega (arith, same, fits, k);
        room = omega (arith, same, w.room);
        small = omega (arith, same, w.small);
      }

  pub buff-write :
      (this : Reader R) (part : Bytes) (inner : R) (n : ℕ)
      → IsInside this
      → this.pos ≡ 0
      → n ≤ length part
      → buff (record this {
        buf = splice this.filled part this.buf;
        inner = inner;
        filled = this.filled + n;
      })
        ≡ buff this ++ take n part
  unfolding buff
  buff-write this part inner n w e k =
      let written = take-splice this.filled n (this.filled + n) part this.buf w.inside k refl in
      rw e written

  consume_frame-IsSound :
      (o : Option ℕ) (this : Reader R)
      → this.frame ≡ o
      → IsInside this
      → KnownFrame o this
      → IsSound (consume_frame o this)
  unfolding buff
  consume_frame-IsSound none this e w k = record { window = w; frame = rw e k }
  consume_frame-IsSound (some n) this e w (front, (pos, small), head, starts) = record {
    window = record {
      ordered = omega (arith, w.ordered);
      inside = w.inside;
      room = w.room;
      small = w.small;
    };
    frame = (omega (arith, front, pos, small, head), inl (omega (arith, front, pos, small, head)));
  }

  pub consume-IsSound : (this : Reader R) → IsSound this → IsSound (consume this)
  unfolding consume
  consume-IsSound this s = consume_frame-IsSound this.frame this refl s.window s.frame
