-- ===== src/Sync/Reader/Frames.antt =====
-- The loop that waits for a header: it ends, keeps the stream, and finds the length of a frame.
use mcutt.Common.{
  ℕ, zero, suc, ◌+◌, ◌≤◌, ◌<◌, ◌≡◌, refl, ◌∙◌, Option, none, some, Bool-cases, ltb, ltb→lt, inl,
  inr, arith,
}
use mcutt.Bytes.{Error, Result, ok, err}
use mcutt.Bytes.Io.{and_then}
use mcutt.Fixed.Header
use mcutt.Fixed.Header.Next.{IsFrame, next_frame-Answers}
use mcutt.Sync.Read.{Read}
use mcutt.Sync.Reader.{Reader, slice, buff, fill_head, round, next_frame_loop}
use mcutt.Sync.Reader.Window.{Waits}
use mcutt.Sync.Reader.Stream.{stream, IsHead, Keeps, Fills, fill_head-Fills, length-buff}

module _ {R : Type 0} ⦃reader : Read R⦄ where
  Keeps-refl : (this : Reader R) → IsHead this → Keeps this this
  Keeps-refl this h = record { head = h; stream = refl; frame = refl }

  Keeps-trans : (a b c : Reader R) → Keeps a b → Keeps b c → Keeps a c
  Keeps-trans a b c p q = record {
    head = q.head;
    stream = q.stream ∙ p.stream;
    frame = q.frame ∙ p.frame;
  }

  -- A frame of this length was found at the front of the stream, and stored.
  pub record Found (this next : Reader R) (n : ℕ) : Type 0 where
    pub head : IsHead next
    pub stream : stream next ≡ stream this
    pub frame : next.frame ≡ some n
    pub positive : IsFrame n
    pub length : Header.next_frame (buff next) ≡ ok (some n)

  abbrev pub Finds : Reader R → Result ℕ Error × Reader R → Type 0
  Finds this (err e, next) = Keeps this next × Waits next
  Finds this (ok n, next) = Found this next n

  Finds-after :
      (this next : Reader R) (r : Result ℕ Error × Reader R)
      → Keeps this next
      → Finds next r
      → Finds this r
  Finds-after this next (err e, last) k (f, w) = (Keeps-trans this next last k f, w)
  Finds-after this next (ok n, last) k f = record {
    head = f.head;
    stream = f.stream ∙ k.stream;
    frame = f.frame;
    positive = f.positive;
    length = f.length;
  }

  Finds-and_then :
      (this : Reader R) (r : Result (Unit {0}) Error × Reader R)
      (more : Reader R → Result ℕ Error × Reader R)
      → this.filled < 5
      → Fills this r
      → ((next : Reader R) → IsHead next → this.filled < next.filled → Finds next (more next))
      → Finds this (and_then r (λ u. more))
  Finds-and_then this (err e, next) more less (k, grows, stays) f =
      (k, inl (omega (arith, less, stays e refl)))
  Finds-and_then this (ok u, next) more less (k, grows, stays) f =
      Finds-after this next (more next) k (f next k.head (grows refl))

  frame-Found :
      (this : Reader R) (n : ℕ)
      → IsHead this
      → Header.next_frame (buff this) ≡ ok (some n)
      → Found this (record this { frame = some n }) n
  unfolding buff
  frame-Found this n h p = record {
    head = record {
      window = record {
        ordered = h.window.ordered;
        inside = h.window.inside;
        room = h.window.room;
        small = h.window.small;
      };
      front = h.front;
      short = h.short;
    };
    stream = refl;
    frame = refl;
    positive = next_frame-Answers (slice this.pos this.filled this.buf) (some n) p;
    length = p;
  }

  -- More is asked for only while the header is not full.
  pub not_full :
      (this : Reader R) → IsHead this → Header.next_frame (buff this) ≡ ok none → this.filled < 5
  not_full this h p = omega (arith, next_frame-Answers (buff this) none p, length-buff this h)

  round-Finds :
      (this : Reader R) (more : Reader R → Result ℕ Error × Reader R)
      (answer : Result (Option ℕ) Error)
      → IsHead this
      → Header.next_frame (buff this) ≡ answer
      → ((next : Reader R) → IsHead next → this.filled < next.filled → Finds next (more next))
      → Finds this (round this more answer)
  round-Finds this more (err e) h p f = (Keeps-refl this h, inr (e, p))
  round-Finds this more (ok (some n)) h p f = frame-Found this n h p
  round-Finds this more (ok none) h p f =
      let less = not_full this h p in
      Finds-and_then this (fill_head this) more less (fill_head-Fills this h less) f

  pub next_frame_loop-Finds :
      (fuel : ℕ) (this : Reader R)
      → IsHead this
      → 5 < fuel + this.filled
      → Finds this (next_frame_loop fuel this)
  unfolding next_frame_loop
  next_frame_loop-Finds zero this h enough = absurd (omega (arith, h.short, enough))
  next_frame_loop-Finds (suc fuel) this h enough =
      round-Finds this (next_frame_loop fuel) (Header.next_frame (buff this)) h refl
        (λ next k grows. next_frame_loop-Finds fuel next k (omega (arith, enough, grows)))

  and_then-same :
      (r : Result (Unit {0}) Error × Reader R) (f g : Reader R → Result ℕ Error × Reader R)
      → (r.0 ≡ ok tt → f r.1 ≡ g r.1)
      → and_then r (λ u. f) ≡ and_then r (λ u. g)
  and_then-same (err e, next) f g same = refl
  and_then-same (ok u, next) f g same = same refl

  round-same :
      (this : Reader R) (f g : Reader R → Result ℕ Error × Reader R)
      (answer : Result (Option ℕ) Error)
      → IsHead this
      → Header.next_frame (buff this) ≡ answer
      → ((next : Reader R) → IsHead next → this.filled < next.filled → f next ≡ g next)
      → round this f answer ≡ round this g answer
  round-same this f g (err e) h p same = refl
  round-same this f g (ok (some n)) h p same = refl
  round-same this f g (ok none) h p same =
      let (k, grows, stays) = fill_head-Fills this h (not_full this h p) in
      and_then-same (fill_head this) f g (λ e. same (fill_head this).1 k.head (grows e))

  -- With enough fuel, more makes no difference.
  next_frame_loop-suc :
      (fuel : ℕ) (this : Reader R)
      → IsHead this
      → 5 < fuel + this.filled
      → next_frame_loop (suc fuel) this ≡ next_frame_loop fuel this
  unfolding next_frame_loop
  next_frame_loop-suc zero this h enough = absurd (omega (arith, h.short, enough))
  next_frame_loop-suc (suc fuel) this h enough =
      round-same this (next_frame_loop (suc fuel)) (next_frame_loop fuel)
        (Header.next_frame (buff this)) h refl
        (λ next k grows. next_frame_loop-suc fuel next k (omega (arith, enough, grows)))

  -- From any window of at most five bytes at the front of the buffer, six rounds are enough for the
  -- loop of `next_frame`: with more fuel it gives the same answer and leaves the same state.
  pub next_frame_loop-halts :
      (fuel : ℕ) (this : Reader R)
      → IsHead this
      → 6 ≤ fuel
      → next_frame_loop fuel this ≡ next_frame_loop 6 this
  next_frame_loop-halts zero this h enough = absurd (omega (arith, enough))
  next_frame_loop-halts (suc fuel) this h enough = elim (Bool-cases (ltb 5 fuel)) [
    | inl more ↦
        let big = ltb→lt 5 fuel more in
        next_frame_loop-suc fuel this h (omega (arith, big))
        ∙ next_frame_loop-halts fuel this h (omega (arith, big))
    | inr less ↦ let e : suc fuel ≡ 6 = ground (arith, less, enough) in rw e refl
  ]
