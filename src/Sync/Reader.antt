-- ===== src/Sync/Reader.antt =====
-- `Reader` of src/sync.rs, which cuts the frames out of a stream. Its methods that take `&mut self`
-- are actions on its state.
pub mod Window
pub mod Sound
pub mod Stream
pub mod Frames
pub mod Whole
pub mod Capacity
pub mod Live
pub mod OverRead
pub mod Progress
use mcutt.Common.{
  ℕ, zero, suc, ◌+◌, ◌-◌, ◌%◌, min, [], ◌∷◌, ◌++◌, Option, none, some, Bool, ◌&&◌, take, drop,
  replicate, length, ltb, leb, ◌==◌, if◌then◌else◌,
}
use mcutt.Bytes.{
  usize_mod, Bytes, IoErrorKind, unexpected_eof, std_io, Error, error, invalid, not_enough_space,
  out_of_range, Result, ok, err, usize_add,
}
use mcutt.Bytes.Io.{Io, pure, and_then, ◌>>=◌, ◌>>◌}
use mcutt.Fixed.Header
use mcutt.Sync.Read.{Read}

-- `usize` subtraction, which wraps in a release build.
abbrev pub usize_sub : ℕ → ℕ → ℕ
usize_sub a b = (a + usize_mod - b) % usize_mod

-- `&xs[a..b]`, where `a` and `b` are in order and in bounds.
abbrev pub slice : ℕ → ℕ → Bytes → Bytes
slice a b xs = drop a (take b xs)

-- The buffer with `bs` written at this index.
abbrev pub splice : ℕ → Bytes → Bytes → Bytes
splice i bs xs = take i xs ++ (bs ++ drop (i + length bs) xs)

pub record Reader (R : Type 0) : Type 0 where
  pub buf : Bytes
  pub pos : ℕ
  pub frame : Option ℕ
  pub filled : ℕ
  pub inner : R

-- `Reader::MIN`, the longest fixed header.
abbrev pub min_len : ℕ
min_len = 5

module _ {R : Type 0} where
  unfoldable pub with_capacity : R → ℕ → Option (Reader R)
  with_capacity reader capacity =
      if ltb capacity min_len
      then none
      else some
          (record { buf = replicate capacity 0; pos = 0; frame = none; filled = 0; inner = reader })

  unfoldable pub buff : Reader R → Bytes
  buff this = slice this.pos this.filled this.buf

  unfoldable pub backshift : Reader R → Reader R
  backshift this = record this {
    buf = splice 0 (slice this.pos this.filled this.buf) this.buf;
    filled = usize_sub this.filled this.pos;
    pos = 0;
  }

  abbrev pub consume_frame : Option ℕ → Reader R → Reader R
  consume_frame none this = this
  consume_frame (some frame) this = record this {
    frame = none;
    pos = min (usize_add this.pos frame) this.filled;
  }

  unfoldable pub consume : Reader R → Reader R
  consume this = consume_frame this.frame this

abbrev pub while_reading : IoErrorKind → Error
while_reading kind = error (std_io kind) "while reading"

module _ {R : Type 0} ⦃reader : Read R⦄ where
  -- The end of `fill_head`, on what the socket gave.
  abbrev pub filled_head :
      Reader R → Result ℕ IoErrorKind × Bytes × R → Result (Unit {0}) Error × Reader R
  filled_head this (err kind, part, inner) = (
    err (while_reading kind),
    record this { buf = splice this.filled part this.buf; inner = inner },
  )
  filled_head this (ok read, part, inner) =
      let this' = record this { buf = splice this.filled part this.buf; inner = inner } in
      if read == 0
      then (err (while_reading unexpected_eof), this')
      else (ok tt, record this' { filled = usize_add this.filled read })

  unfoldable pub fill_head : Io (Reader R) (Unit {0})
  fill_head this =
      let avail = usize_sub this.filled this.pos in
      let to_read = usize_sub min_len avail in
      let end = usize_add this.filled to_read in
      if leb this.filled end && leb end (length this.buf)
      then filled_head this (reader.read (slice this.filled end this.buf) this.inner)
      else (err (error not_enough_space "for header"), this)

  -- What the loop does with an answer of the fixed header: `more` is the next round.
  abbrev pub round :
      Reader R
      → (Reader R → Result ℕ Error × Reader R)
      → Result (Option ℕ) Error
      → Result ℕ Error × Reader R
  round this more (err e) = (err e, this)
  round this more (ok (some frame)) = (ok frame, record this { frame = some frame })
  round this more (ok none) = and_then (fill_head this) (λ u. more)

  -- The loop of `next_frame`. A round reads at least one byte of the header, so that it makes at
  -- most `min_len` rounds and a last one.
  unfoldable pub next_frame_loop : ℕ → Io (Reader R) ℕ
  unfolding fill_head
  next_frame_loop zero this = (err (error invalid "out of fuel"), this)
  next_frame_loop (suc fuel) this =
      round this (next_frame_loop fuel) (Header.next_frame (buff this))

  unfoldable pub next_frame : Io (Reader R) ℕ
  unfolding next_frame_loop backshift
  next_frame this = next_frame_loop (suc min_len) (backshift this)

  -- The end of `read_frame`, on what the socket gave.
  abbrev pub filled_frame :
      ℕ → Reader R → Result (Unit {0}) IoErrorKind × Bytes × R → Result (Unit {0}) Error × Reader R
  filled_frame bytes this (err kind, part, inner) = (
    err (while_reading kind),
    record this { buf = splice this.filled part this.buf; inner = inner },
  )
  filled_frame bytes this (ok u, part, inner) =
      (ok tt, record this { buf = splice this.filled part this.buf; inner = inner; filled = bytes })

  unfoldable pub fill_frame : ℕ → Io (Reader R) (Unit {0})
  fill_frame bytes this =
      if ltb this.filled bytes
      then filled_frame bytes this (reader.read_exact (slice this.filled bytes this.buf) this.inner)
      else (ok tt, this)

  unfoldable pub read_frame : ℕ → Io (Reader R) Bytes
  unfolding fill_frame buff
  read_frame bytes this =
      if ltb (length this.buf) bytes
      then (err (error out_of_range "payload is too big"), this)
      else and_then (fill_frame bytes this) (λ u this'. (ok (buff this'), this'))

  -- The frame that was found before, or the next one.
  abbrev pub known_frame : Option ℕ → Io (Reader R) ℕ
  known_frame none this = next_frame this
  known_frame (some frame) this = (ok frame, this)

  unfoldable pub read : Io (Reader R) Bytes
  unfolding next_frame read_frame
  read this = and_then (known_frame this.frame this) read_frame
