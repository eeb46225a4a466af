-- ===== src/Sync/Reader/Progress.antt =====
-- A live socket with a whole frame: `read` gives it.
use mathlib.Core.Path.{subst}
use mcutt.Common.{
  ℕ, ◌+◌, ◌-◌, ◌≤◌, ◌≡◌, refl, sym, ap, ◌∙◌, ◌⊎◌, inl, inr, none, some, Bool-cases, false, ltb,
  take, length, length-append, length-take, length-drop, arith,
}
use mcutt.Bytes.{Bytes, IoErrorKind, Error, Result, ok, err}
use mcutt.Bytes.Io.{and_then}
use mcutt.Fixed.Header
use mcutt.Sync.Read.{Read, IsLive}
use mcutt.Sync.Reader.{
  Reader, slice, splice, buff, backshift, filled_frame, fill_frame, read_frame, next_frame_loop,
  next_frame, known_frame, read,
}
use mcutt.Sync.Reader.Window.{KnownFrame, IsSound}
use mcutt.Sync.Reader.Stream.{stream}
use mcutt.Sync.Reader.Frames.{Found, Finds, next_frame_loop-Finds}
use mcutt.Sync.Reader.Whole.{
  Ready, Complete, Fills, fill_frame-Fills, Complete-Gives, Gives, length-window,
}
use mcutt.Sync.Reader.Sound.{Found-Ready, backshift-IsHead, stream-backshift, Reads-after}
use mcutt.Sync.Reader.Capacity.{capacity, capacity-backshift, next_frame_loop-Holds}
use mcutt.Sync.Reader.Live.{next_frame_loop-Succeeds}

module _ {R : Type 0} ⦃reader : Read R⦄ where
  length-stream :
      (n : ℕ) (this : Reader R)
      → Ready n this
      → length (stream this) ≡ this.filled + length (reader.pending this.inner)
  length-stream n this r =
      omega (arith, length-window n this r, length-append (buff this) (reader.pending this.inner))

  -- The window after a fill: the frame, or what was there if that is more.
  abbrev Filled : ℕ → Reader R → Result (Unit {0}) Error × Reader R → Type 0
  Filled n this r =
      (next : Reader R) × (r ≡ (ok tt, next)) × ((next.filled ≡ n) ⊎ (next.filled ≡ this.filled))

  filled_frame-Filled :
      (n : ℕ) (this : Reader R) (r : Result (Unit {0}) IoErrorKind) (part : Bytes) (inner : R)
      → r ≡ ok tt
      → Filled n this (filled_frame n this (r, part, inner))
  filled_frame-Filled n this (err e) part inner h = cc h
  filled_frame-Filled n this (ok u) part inner h = (
    record this { buf = splice this.filled part this.buf; inner = inner; filled = n },
    refl,
    inl refl,
  )

  -- The call gives the whole frame, and at most a header of what follows it.
  pub record Arrives (n : ℕ) (this : Reader R) (r : Result Bytes Error × Reader R) : Type 0 where
    pub bytes : Bytes
    pub next : Reader R
    pub succeeds : r ≡ (ok bytes, next)
    pub gives : Gives this next bytes
    pub frame : next.frame ≡ some n
    pub size : (length bytes ≡ n) ⊎ (length bytes ≤ 5)

  Arrives-after :
      (n : ℕ) (this next : Reader R) (r : Result Bytes Error × Reader R)
      → stream next ≡ stream this
      → Arrives n next r
      → Arrives n this r
  Arrives-after n this next r s a = record {
    bytes = a.bytes;
    next = a.next;
    succeeds = a.succeeds;
    gives = Reads-after this next (ok a.bytes, a.next) s a.gives;
    frame = a.frame;
    size = a.size;
  }

module _ {R : Type 0} ⦃reader : Read R⦄ (live : IsLive R) where
  fill_frame-Filled :
      (n : ℕ) (this : Reader R)
      → Ready n this
      → n ≤ length this.buf
      → n ≤ length (stream this)
      → Filled n this (fill_frame n this)
  unfolding fill_frame
  fill_frame-Filled n this r fits there = elim (Bool-cases (ltb this.filled n)) [
    | inl less ↦
        let part = slice this.filled n this.buf in
        let len : length part ≡ n - this.filled =
          omega (arith, length-drop this.filled (take n this.buf), length-take n this.buf, fits) in
        rw less (
          filled_frame-Filled n this (reader.read_exact part this.inner).0
            (reader.read_exact part this.inner).1 (reader.read_exact part this.inner).2
            (live.read_all part this.inner (omega (arith, len, there, length-stream n this r))))
    | inr more ↦ rw more (this, refl, inr refl)
  ]

  read_frame-Arrives :
      (n : ℕ) (this : Reader R)
      → Ready n this
      → this.filled ≤ 5
      → n ≤ length this.buf
      → n ≤ length (stream this)
      → Arrives n this (read_frame n this)
  unfolding read_frame
  read_frame-Arrives n this r short fits there =
      let (next, e, size) = fill_frame-Filled n this r fits there in
      let complete : Complete n this next =
        subst (Fills n this) e (fill_frame-Fills n this r fits) in
      let room : ltb (length this.buf) n ≡ false = ground (arith, fits) in
      let len = length-window n next complete.0 in
      record {
        bytes = buff next;
        next = next;
        succeeds = rw (room, e) refl;
        gives = Complete-Gives n this next complete;
        frame = complete.0.frame;
        size = ground (arith, len, size, short);
      }

  found-Arrives :
      (n : ℕ) (base : Reader R) (r : Result ℕ Error × Reader R)
      → r.0 ≡ ok n
      → Finds base r
      → capacity r.1 ≡ capacity base
      → n ≤ capacity base
      → n ≤ length (stream base)
      → Arrives n base (and_then r read_frame)
  found-Arrives n base (err e, next) h f same fits there = absurd (cc h)
  found-Arrives n base (ok k, next) h f same fits there =
      let e : k ≡ n = cc h in
      let f : Found base next n = subst (Found base next) e f in
      rw e (
        Arrives-after n base next (read_frame n next) f.stream (
          read_frame-Arrives n next (Found-Ready n base next f) f.head.short
            (omega (arith, same, fits)) (omega (arith, ap length (f.stream), there))))

  -- From a sound reader between two frames: when the stream starts with a frame that fits the
  -- buffer, and the socket has all of it and does not fail, `read` succeeds and gives that frame,
  -- with at most what has arrived of the next header.
  pub read-Arrives :
      (n : ℕ) (this : Reader R)
      → IsSound this
      → this.frame ≡ none
      → Header.next_frame (stream this) ≡ ok (some n)
      → n ≤ capacity this
      → n ≤ length (stream this)
      → Arrives n this (read this)
  unfolding read next_frame
  read-Arrives n this s none_yet starts fits there =
      let base = backshift this in
      let head =
        backshift-IsHead this s.window (subst (λ o. KnownFrame o this) none_yet s.frame).0 in
      let same = stream-backshift this s.window in
      let run = next_frame_loop 6 base in
      subst (λ o. Arrives n this (and_then (known_frame o this) read_frame)) (sym none_yet)
        (Arrives-after n this base (and_then run read_frame) same (
          found-Arrives n base run
            (next_frame_loop-Succeeds live n 6 base head (omega arith)
              (ap Header.next_frame same ∙ starts))
            (next_frame_loop-Finds 6 base head (omega arith)) (next_frame_loop-Holds 6 base)
            (omega (arith, capacity-backshift this s.window, fits))
            (omega (arith, ap length same, there))))
