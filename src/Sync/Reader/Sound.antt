-- ===== src/Sync/Reader/Sound.antt =====
-- What `read` does to the stream, and that it keeps the invariant of the reader.
use mathlib.Core.Path.{subst}
use mcutt.Common.{
  ℕ, ◌+◌, ◌≤◌, ◌<◌, ◌≡◌, refl, sym, ap, ◌∙◌, [], ◌++◌, append-nil, Option, none, some, Bool-cases,
  ltb, drop, length-replicate, replicate, inl, inr, arith,
}
use mcutt.Bytes.{usize_mod, Bytes, Error, Result, ok, err}
use mcutt.Bytes.Io.{and_then}
use mcutt.Sync.Read.{Read}
use mcutt.Sync.Reader.{
  Reader, buff, backshift, read_frame, next_frame_loop, next_frame, with_capacity, known_frame,
  read,
}
use mcutt.Sync.Reader.Window.{
  IsInside, IsSound, Waits, KnownFrame, backshift-IsInside, backshift_pos, buff-backshift,
}
use mcutt.Sync.Reader.Stream.{stream, IsHead}
use mcutt.Sync.Reader.Frames.{Found, Finds, next_frame_loop-Finds}
use mcutt.Sync.Reader.Whole.{Ready, Reads, read_frame-Reads}

module _ {R : Type 0} ⦃reader : Read R⦄ where
  pub Reads-after :
      (this next : Reader R) (r : Result Bytes Error × Reader R)
      → stream next ≡ stream this
      → Reads next r
      → Reads this r
  Reads-after this next (err e, last) s k = k
  Reads-after this next (ok bs, last) s k = record {
    len = k.len;
    starts = k.starts;
    whole = k.whole;
    window = k.window;
    sound = k.sound;
    kept = k.kept ∙ s;
    consumed = k.consumed ∙ ap (drop k.len) s;
  }

  pub Found-Ready : (n : ℕ) (this next : Reader R) → Found this next n → Ready n next
  Found-Ready n this next f = record {
    window = f.head.window;
    frame = f.frame;
    known = (
      f.head.front,
      f.positive,
      omega (arith, f.head.short, f.positive.0),
      (buff next, [], sym (append-nil (buff next)), f.length),
    );
  }

  -- A reader that has found no frame.
  no_frame-IsSound :
      (this : Reader R) (o : Option ℕ)
      → this.frame ≡ o
      → o ≡ none
      → IsHead this
      → Waits this
      → IsSound this
  no_frame-IsSound this none e p h waits = record {
    window = h.window;
    frame = subst (λ o. KnownFrame o this) (sym e) (omega (arith, h.short), waits);
  }
  no_frame-IsSound this (some n) e p h waits = cc p

  found-Reads :
      (base : Reader R) (r : Result ℕ Error × Reader R)
      → base.frame ≡ none
      → Finds base r
      → Reads base (and_then r read_frame)
  found-Reads base (err e, next) none_yet (k, waits) =
      no_frame-IsSound next next.frame refl (k.frame ∙ none_yet) k.head waits
  found-Reads base (ok n, next) none_yet f =
      Reads-after base next (read_frame n next) f.stream
        (read_frame-Reads n next (Found-Ready n base next f))

  pub backshift-IsHead :
      (this : Reader R) → IsInside this → this.filled ≤ this.pos + 5 → IsHead (backshift this)
  unfolding backshift
  backshift-IsHead this w less = record {
    window = backshift-IsInside this w;
    front = refl;
    short = omega (arith, backshift_pos this w, w.ordered, less);
  }

  pub stream-backshift : (this : Reader R) → IsInside this → stream (backshift this) ≡ stream this
  unfolding backshift
  stream-backshift this w = ap (λ b. b ++ reader.pending this.inner) (buff-backshift this w)

  pub frame-backshift : (this : Reader R) → this.frame ≡ none → (backshift this).frame ≡ none
  unfolding backshift
  frame-backshift this e = e

  known_frame-Reads :
      (o : Option ℕ) (this : Reader R)
      → this.frame ≡ o
      → IsInside this
      → KnownFrame o this
      → Reads this (and_then (known_frame o this) read_frame)
  unfolding next_frame
  known_frame-Reads (some n) this e w k =
      read_frame-Reads n this (record { window = w; frame = e; known = k })
  known_frame-Reads none this e w k =
      let head = backshift-IsHead this w k.0 in
      Reads-after this (backshift this) _ (stream-backshift this w) (
        found-Reads (backshift this) (next_frame_loop 6 (backshift this)) (frame-backshift this e)
          (next_frame_loop-Finds 6 (backshift this) head (omega arith)))

  -- From every sound reader, whatever the socket gives and however often it fails: `read` leaves a
  -- sound reader, so that before the next header it holds less than five bytes, as `next_frame` asserts,
  -- or bytes that are refused as a header; of these there may be five, and then that assertion fails
  -- in a debug build. If it succeeds, the bytes start with a frame and have all of it, no byte of the
  -- stream was lost, and `consume` then takes exactly that frame off the stream.
  pub read-Reads : (this : Reader R) → IsSound this → Reads this (read this)
  unfolding read
  read-Reads this s = known_frame-Reads this.frame this refl s.window s.frame

  abbrev pub fresh : R → ℕ → Reader R
  fresh inner capacity = record {
    buf = replicate capacity 0;
    pos = 0;
    frame = none;
    filled = 0;
    inner = inner;
  }

  fresh-IsSound :
      (inner : R) (capacity : ℕ)
      → 5 ≤ capacity
      → capacity + 5 < usize_mod
      → IsSound (fresh inner capacity) × (stream (fresh inner capacity) ≡ reader.pending inner)
  unfolding buff
  fresh-IsSound inner capacity room small =
      let len = length-replicate {A = ℕ} capacity 0 in
      (
        record {
          window = record {
            ordered = omega arith;
            inside = omega (arith, len);
            room = omega (arith, len, room);
            small = omega (arith, len, small);
          };
          frame = (omega arith, inl (omega arith));
        },
        refl,
      )

  -- A new reader, with room for a header, is sound, and its stream is all that the socket gives.
  pub with_capacity-IsSound :
      (inner : R) (capacity : ℕ) (this : Reader R)
      → capacity + 5 < usize_mod
      → with_capacity inner capacity ≡ some this
      → IsSound this × (stream this ≡ reader.pending inner)
  unfolding with_capacity
  with_capacity-IsSound inner capacity this small h = elim (Bool-cases (ltb capacity 5)) [
    | inl less ↦ absurd (cc (h, less))
    | inr room ↦
        let e : fresh inner capacity ≡ this = cc (h, room) in
        subst (λ r. IsSound r × (stream r ≡ reader.pending inner)) e
          (fresh-IsSound inner capacity (ground (arith, room)) small)
  ]
