-- ===== src/Sync/Reader/Live.antt =====
-- A socket that does not fail while it has bytes: then `read` gives the frame that has arrived.
use mcutt.Common.{
  ℕ, zero, suc, ◌+◌, ◌-◌, ◌<◌, ◌≡◌, refl, ap, ◌∙◌, inl, inr, [], ◌∷◌, ◌++◌, append-nil, none, some,
  false, ◌==◌, take, length, length-take, length-drop, arith,
}
use mcutt.Bytes.{Bytes, IoErrorKind, Error, Result, ok, err}
use mcutt.Bytes.Io.{and_then}
use mcutt.Fixed.Header
use mcutt.Fixed.Header.Prefix.{next_frame-front}
use mcutt.Sync.Read.{Read, IsLive}
use mcutt.Sync.Reader.{Reader, slice, buff, filled_head, fill_head, round, next_frame_loop}
use mcutt.Sync.Reader.Stream.{stream, IsHead, fill_head-Fills, fill_head-reads}
use mcutt.Sync.Reader.Frames.{not_full}

module _ {R : Type 0} ⦃reader : Read R⦄ (live : IsLive R) where
  filled_head-ok :
      (this : Reader R) (r : Result ℕ IoErrorKind) (part : Bytes) (inner : R) (n : ℕ)
      → r ≡ ok n
      → 0 < n
      → (filled_head this (r, part, inner)).0 ≡ ok tt
  filled_head-ok this (err e) part inner n h pos = cc h
  filled_head-ok this (ok k) part inner n h pos =
      let e : k ≡ n = cc h in let more : (k == 0) ≡ false = ground (arith, e, pos) in rw more refl

  fill_head-ok :
      (this : Reader R)
      → IsHead this
      → this.filled < 5
      → 0 < length (reader.pending this.inner)
      → (fill_head this).0 ≡ ok tt
  fill_head-ok this h less more =
      let part = slice this.filled 5 this.buf in
      let len : length part ≡ 5 - this.filled =
        omega (
          arith,
          length-drop this.filled (take 5 this.buf),
          length-take 5 this.buf,
          h.window.room,
        ) in
      let (n, e, pos) = live.read_some part this.inner (omega (arith, len, less)) more in
      ap (λ (r : Result (Unit {0}) Error × Reader R). r.0) (fill_head-reads this h less)
      ∙ filled_head-ok this (reader.read part this.inner).0 (reader.read part this.inner).1
          (reader.read part this.inner).2 n e pos

  -- As long as the window has no whole header, the socket has more of the stream.
  has_more :
      (n : ℕ) (this : Reader R) (given : Bytes)
      → reader.pending this.inner ≡ given
      → Header.next_frame (buff this) ≡ ok none
      → Header.next_frame (buff this ++ given) ≡ ok (some n)
      → 0 < length given
  has_more n this [] e p q = absurd (cc (append-nil (buff this), p, q))
  has_more n this (b ∷ bs) e p q = omega arith

  abbrev Succeeds : ℕ → Result ℕ Error × Reader R → Type 0
  Succeeds n r = r.0 ≡ ok n

  then-Succeeds :
      (n : ℕ) (r : Result (Unit {0}) Error × Reader R) (more : Reader R → Result ℕ Error × Reader R)
      → r.0 ≡ ok tt
      → Succeeds n (more r.1)
      → Succeeds n (and_then r (λ u. more))
  then-Succeeds n (err e, next) more h k = cc h
  then-Succeeds n (ok u, next) more h k = k

  round-Succeeds :
      (n : ℕ) (this : Reader R) (more : Reader R → Result ℕ Error × Reader R)
      → IsHead this
      → Header.next_frame (stream this) ≡ ok (some n)
      → ((next : Reader R)
          → IsHead next
          → this.filled < next.filled
          → Header.next_frame (stream next) ≡ ok (some n)
          → Succeeds n (more next))
      → Succeeds n (round this more (Header.next_frame (buff this)))
  round-Succeeds n this more h p f =
      elim (next_frame-front (buff this) (reader.pending this.inner) n p) [
        | inr found ↦ rw found refl
        | inl none_yet ↦
            let less = not_full this h none_yet in
            let given = has_more n this (reader.pending this.inner) refl none_yet p in
            let done = fill_head-ok this h less given in
            let (keeps, grows, stays) = fill_head-Fills this h less in
            rw none_yet (
              then-Succeeds n (fill_head this) more done (
                f (fill_head this).1 keeps.head (grows done)
                  (ap Header.next_frame keeps.stream ∙ p)))
      ]

  pub next_frame_loop-Succeeds :
      (n fuel : ℕ) (this : Reader R)
      → IsHead this
      → 5 < fuel + this.filled
      → Header.next_frame (stream this) ≡ ok (some n)
      → Succeeds n (next_frame_loop fuel this)
  unfolding next_frame_loop
  next_frame_loop-Succeeds n zero this h enough p = absurd (omega (arith, h.short, enough))
  next_frame_loop-Succeeds n (suc fuel) this h enough p =
      round-Succeeds n this (next_frame_loop fuel) h p
        (λ next k grows q. next_frame_loop-Succeeds n fuel next k (omega (arith, enough, grows)) q)
