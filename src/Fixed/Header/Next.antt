-- ===== src/Fixed/Header/Next.antt =====
-- What any answer of `next_frame` says of the bytes that have arrived.
use mathlib.Core.Option
use mcutt.Common.{
  ℕ, ◌+◌, ◌≤◌, ◌<◌, ◌≡◌, refl, Option, none, some, [], ◌∷◌, length, ltb, true, false, Bool,
  split_at_checked, split_at_checked-none, arith, if◌then◌else◌,
}
use mcutt.Bytes.{usize_mod, Bytes, Error, Result, ok, err, ok_or, checked_add}
use mcutt.Bytes.Try.{bind-ok}
use mcutt.Fixed.RemainingLength.{count_continue_flags, read_from_buf}
use mcutt.Fixed.RemainingLength.RoundTrip.{count_continue_flags-lt}
use mcutt.Fixed.Header.{frame_len, prefix_frame, next_frame}

-- A length that is given is positive, and a `usize`.
abbrev pub IsFrame : ℕ → Type 0
IsFrame n = (0 < n) × (n < usize_mod)

checked_add-IsFrame : (a b n : ℕ) → 0 < a → checked_add a b ≡ some n → IsFrame n
checked_add-IsFrame a b n pos h = ground arith

-- The end of `next_frame` never asks for more.
framed :
    (o : Option ℕ) (e : Error) (r : Option ℕ)
    → ok_or e (Option.map some o) ≡ ok r
    → (n : ℕ) × (r ≡ some n) × (o ≡ some n)
framed none e r h = cc h
framed (some n) e r h = (n, cc h, refl)

chosen :
    (b : Bool) (x : Result (Option ℕ) Error) (e : Error) (r : Option ℕ)
    → (if b then x else err e) ≡ ok r
    → x ≡ ok r
chosen true x e r h = h
chosen false x e r h = cc h

frame_len-some :
    (k : ℕ) (bs : Bytes) (r : Option ℕ) → frame_len k bs ≡ ok r → (n : ℕ) × (r ≡ some n) × IsFrame n
unfolding frame_len
frame_len-some k bs r h =
    let (n, e, sum) =
      framed (checked_add (1 + k) (read_from_buf bs)) _ r
        (chosen (ltb (read_from_buf bs) usize_mod) _ _ r h) in
    (n, e, checked_add-IsFrame (1 + k) (read_from_buf bs) n (omega arith) sum)

-- Whatever has arrived: the length of a frame is positive and a `usize`, and more is asked for only
-- while fewer than five bytes have arrived.
abbrev pub Answers : Bytes → Option ℕ → Type 0
Answers bs none = length bs < 5
Answers bs (some n) = IsFrame n

prefix_frame-Answers :
    (k : ℕ) (b : ℕ) (bs : Bytes) (o : Option (Bytes × Bytes)) (r : Option ℕ)
    → k ≤ 4
    → split_at_checked k bs ≡ o
    → prefix_frame k o ≡ ok r
    → Answers (b ∷ bs) r
unfolding prefix_frame
prefix_frame-Answers k b bs none none few s h = omega (arith, few, split_at_checked-none k bs s)
prefix_frame-Answers k b bs none (some n) few s h = cc h
prefix_frame-Answers k b bs (some (front, back)) r few s h =
    let (n, e, fr) = frame_len-some k front r h in rw e fr

pub next_frame-Answers : (bs : Bytes) (r : Option ℕ) → next_frame bs ≡ ok r → Answers bs r
unfolding next_frame
next_frame-Answers [] none h = omega arith
next_frame-Answers [] (some n) h = cc h
next_frame-Answers (b ∷ bs) r h =
    let (flags, h', count) = bind-ok _ (count_continue_flags bs) h in
    prefix_frame-Answers (1 + flags) b bs (split_at_checked (1 + flags) bs) r
      (omega (arith, count_continue_flags-lt bs flags count)) refl h'
