-- ===== src/Tests/Streams.antt =====
-- A slice `&[u8]` as the socket that a `Reader` reads, and calls on concrete frames.
use mcutt.Common.{
  ◌<◌, ℕ, ◌≤◌, ◌≡◌, refl, sym, ap, ◌∙◌, min, [], ◌∷◌, ◌++◌, take, drop, length, length-append,
  length-take, length-drop, take-append_front, take_all, take-drop, leb, Bool, true, false, some,
  none, replicate, arith,
}
use mcutt.Bytes.{Bytes, IoErrorKind, unexpected_eof, Result, ok, err}
use mcutt.Bytes.Vec.{vec_write}
use mcutt.External.Reference.{zerocopy, bitflags, memchr}
use mcutt.Sync.Read.{Read, IsLive, IsGreedy}
use mcutt.Fixed.Header
use mcutt.Fixed.RemainingLength
use mcutt.Sync.Reader.{
  Reader, read, next_frame, next_frame_loop, fill_head, buff, backshift, with_capacity,
}
use mcutt.Sync.Reader.Window.{IsSound}
use mcutt.Sync.Reader.Stream.{IsHead}
use mcutt.Sync.Reader.Frames.{next_frame_loop-halts}
use mcutt.Sync.Reader.Whole.{Reads}
use mcutt.Sync.Reader.Sound.{read-Reads, with_capacity-IsSound}

abbrev pub slice_read : Bytes → Bytes → Result ℕ IoErrorKind × Bytes × Bytes
slice_read buf r = (
  ok (min (length buf) (length r)),
  take (length buf) r ++ drop (length r) buf,
  drop (length buf) r,
)

abbrev pub slice_fill : Bool → Bytes → Bytes → Result (Unit {0}) IoErrorKind × Bytes × Bytes
slice_fill true buf r = (ok tt, take (length buf) r, drop (length buf) r)
slice_fill false buf r = (err unexpected_eof, buf, [])

abbrev pub slice_read_exact : Bytes → Bytes → Result (Unit {0}) IoErrorKind × Bytes × Bytes
slice_read_exact buf r = slice_fill (leb (length buf) (length r)) buf r

pub slice_read_len : (buf r : Bytes) → length (slice_read buf r).1 ≡ length buf
slice_read_len buf r = omega (
  arith,
  length-append (take (length buf) r) (drop (length r) buf),
  length-take (length buf) r,
  length-drop (length r) buf,
)

pub slice_read_ok :
    (buf r : Bytes) (n : ℕ)
    → (slice_read buf r).0 ≡ ok n
    → (n ≤ length buf) × (r ≡ take n (slice_read buf r).1 ++ (slice_read buf r).2)
slice_read_ok buf r n h =
    let e : min (length buf) (length r) ≡ n = cc h in
    let len = length-take (length buf) r in
    let same : n ≡ length (take (length buf) r) = omega (arith, e, len) in
    (
      omega (arith, e),
      sym (
          ap (λ t. t ++ drop (length buf) r)
            (take-append_front (take (length buf) r) (drop (length r) buf) n (omega (arith, e, len))
              ∙ ap (λ k. take k (take (length buf) r)) same
              ∙ take_all (take (length buf) r))
          ∙ take-drop (length buf) r),
    )

pub slice_read_err :
    (buf r : Bytes) (e : IoErrorKind) → (slice_read buf r).0 ≡ err e → (slice_read buf r).2 ≡ r
slice_read_err buf r e h = cc h

pub length-slice_fill :
    (whole : Bool) (buf r : Bytes)
    → leb (length buf) (length r) ≡ whole
    → length (slice_fill whole buf r).1 ≡ length buf
length-slice_fill true buf r h =
    let fits : length buf ≤ length r = ground (arith, h) in
    omega (arith, length-take (length buf) r, fits)
length-slice_fill false buf r h = refl

pub slice_fill_ok :
    (whole : Bool) (buf r : Bytes)
    → (slice_fill whole buf r).0 ≡ ok tt
    → r ≡ (slice_fill whole buf r).1 ++ (slice_fill whole buf r).2
slice_fill_ok true buf r h = sym (take-drop (length buf) r)
slice_fill_ok false buf r h = cc h

instance abbrev pub byte_slice : Read Bytes
byte_slice = record {
  read = slice_read;
  read_exact = slice_read_exact;
  pending = λ r. r;
  read_len = slice_read_len;
  read_ok = slice_read_ok;
  read_err = slice_read_err;
  read_exact_len = λ buf r. length-slice_fill (leb (length buf) (length r)) buf r refl;
  read_exact_ok = λ buf r. slice_fill_ok (leb (length buf) (length r)) buf r;
}

slice_read_some :
    (buf r : Bytes)
    → 0 < length buf
    → 0 < length r
    → (n : ℕ) × ((slice_read buf r).0 ≡ ok n) × (0 < n)
slice_read_some buf r h k = (min (length buf) (length r), refl, omega (arith, h, k))

slice_read_all : (buf r : Bytes) → length buf ≤ length r → (slice_read_exact buf r).0 ≡ ok tt
slice_read_all buf r h =
    let fits : leb (length buf) (length r) ≡ true = ground (arith, h) in rw fits refl

pub byte_slice-IsLive : IsLive Bytes
byte_slice-IsLive = record { read_some = slice_read_some; read_all = slice_read_all }

pub byte_slice-IsGreedy : IsGreedy Bytes
byte_slice-IsGreedy = record { read_all = λ buf r. refl }

-- Two frames, a PUBACK and a PINGRESP, and a reader with room for eight bytes.
abbrev two_frames : Bytes
two_frames = 64 ∷ 2 ∷ 0 ∷ 7 ∷ 208 ∷ 0 ∷ []

abbrev reader : Reader Bytes
reader = record { buf = replicate 8 0; pos = 0; frame = none; filled = 0; inner = two_frames }

with_capacity-eight : with_capacity two_frames 8 ≡ some reader
unfolding with_capacity
with_capacity-eight = refl

reader-IsSound : IsSound reader
reader-IsSound = (with_capacity-IsSound two_frames 8 reader (omega arith) with_capacity-eight).0

read-Reads_example : Reads reader (read reader)
read-Reads_example = read-Reads reader reader-IsSound

reader-IsHead : IsHead reader
reader-IsHead = record { window = reader-IsSound.window; front = refl; short = omega arith }

next_frame_loop-halts_example : next_frame_loop 9 reader ≡ next_frame_loop 6 reader
next_frame_loop-halts_example = next_frame_loop-halts 9 reader reader-IsHead (omega arith)

-- Five bytes that are no header, and one more.
abbrev no_header : Reader Bytes
no_header = record {
  buf = replicate 8 0;
  pos = 0;
  frame = none;
  filled = 0;
  inner = 48 ∷ 255 ∷ 255 ∷ 255 ∷ 255 ∷ 1 ∷ [];
}

-- After they were refused all five are held, and no frame is known.
read-no_header :
    ((read no_header).1.frame ≡ none)
    × ((read no_header).1.pos ≡ 0)
    × ((read no_header).1.filled ≡ 5)
unfolding read next_frame next_frame_loop fill_head buff backshift Header.next_frame
    RemainingLength.count_continue_flags
read-no_header = (refl, refl, refl)
