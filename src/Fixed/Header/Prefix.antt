-- ===== src/Fixed/Header/Prefix.antt =====
-- `next_frame` on a front of what will arrive: it waits, or it has the answer already.
use mcutt.Common.{
  ℕ, ◌+◌, ◌≤◌, ◌≡◌, refl, sym, ap, ◌∙◌, ◌⊎◌, inl, inr, Option, none, some, [], ◌∷◌, ◌++◌,
  append_assoc, length, length-append, split_at_checked, split_at_checked_sound,
  split_at_checked-none, split_at_checked_short, split_at_checked-append, arith,
}
use mcutt.Bytes.{Bytes, ok}
use mcutt.Bytes.Try.{bind-ok}
use mcutt.Fixed.RemainingLength.{count_continue_flags}
use mcutt.Fixed.RemainingLength.Flags.{count_continue_flags-append, count_continue_flags-front}
use mcutt.Fixed.Header.{prefix_frame, next_frame}

-- A front that is long enough is cut at the same place.
split-append :
    (k : ℕ) (bs ys front back : Bytes)
    → split_at_checked k bs ≡ some (front, back)
    → split_at_checked k (bs ++ ys) ≡ some (front, back ++ ys)
split-append k bs ys front back h =
    let (parts, len) = split_at_checked_sound k bs front back h in
    ap (λ t. split_at_checked k (t ++ ys)) parts
    ∙ (ap (split_at_checked k) (append_assoc front back ys)
        ∙ split_at_checked-append front (back ++ ys) k (sym len))

settled :
    (k : ℕ) (bs ys : Bytes) (o : Option (Bytes × Bytes))
    → split_at_checked k bs ≡ o
    → k ≤ length bs
    → prefix_frame k (split_at_checked k (bs ++ ys)) ≡ prefix_frame k (split_at_checked k bs)
unfolding prefix_frame
settled k bs ys none s long = absurd (omega (arith, split_at_checked-none k bs s))
settled k bs ys (some (front, back)) s long = rw (s, split-append k bs ys front back s) refl

-- More bytes never change the length of a frame.
pub next_frame-append :
    (xs ys : Bytes) (n : ℕ) → next_frame xs ≡ ok (some n) → next_frame (xs ++ ys) ≡ ok (some n)
unfolding next_frame prefix_frame
next_frame-append [] ys n h = cc h
next_frame-append (b ∷ bs) ys n h =
    let (flags, h', count) = bind-ok _ (count_continue_flags bs) h in
    cut-append flags bs ys n count (split_at_checked (1 + flags) bs) refl h'
  where
    cut-append :
        (flags : ℕ) (bs ys : Bytes) (n : ℕ)
        → count_continue_flags bs ≡ ok flags
        → (o : Option (Bytes × Bytes)) → split_at_checked (1 + flags) bs ≡ o
        → prefix_frame (1 + flags) (split_at_checked (1 + flags) bs) ≡ ok (some n)
        → next_frame ((b ∷ bs) ++ ys) ≡ ok (some n)
    cut-append flags bs ys n count none s h' = cc (s, h')
    cut-append flags bs ys n count (some (front, back)) s h' =
        let (parts, len) = split_at_checked_sound (1 + flags) bs front back s in
        let long : 1 + flags ≤ length bs =
          omega (arith, ap length parts, length-append front back, len) in
        rw (count_continue_flags-append bs ys flags count (omega (arith, long)))
          (settled (1 + flags) bs ys _ refl long ∙ h')

-- Of a front of a frame that has arrived the answer is the length of that frame, or to wait.
pub next_frame-front :
    (xs ys : Bytes) (n : ℕ)
    → next_frame (xs ++ ys) ≡ ok (some n)
    → (next_frame xs ≡ ok none) ⊎ (next_frame xs ≡ ok (some n))
unfolding next_frame prefix_frame
next_frame-front [] ys n h = inl refl
next_frame-front (b ∷ bs) ys n h =
    let (flags, h', count) = bind-ok _ (count_continue_flags (bs ++ ys)) h in
    elim (count_continue_flags-front bs ys flags count) [
      | inl (mine, more) ↦
          inr (rw mine (sym (settled (1 + flags) bs ys _ refl (omega (arith, more))) ∙ h'))
      | inr all_of ↦ inl (rw (all_of, split_at_checked_short (1 + length bs) bs (omega arith)) refl)
    ]

pub next_frame-nil : next_frame [] ≡ ok none
unfolding next_frame
next_frame-nil = refl
