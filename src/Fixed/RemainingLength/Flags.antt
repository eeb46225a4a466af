-- ===== src/Fixed/RemainingLength/Flags.antt =====
-- `count_continue_flags` on a front of a buffer and on the whole of it.
use mcutt.Common.{
  ℕ, ◌≤◌, ◌<◌, ◌≡◌, ap, ◌∙◌, ◌⊎◌, inl, inr, Bool-cases, [], ◌∷◌, ◌++◌, length, length-take, leb,
  arith,
}
use mcutt.Bytes.{Bytes, ok}
use mcutt.Fixed.RemainingLength.{has_continue_flag, take_while, count_continue_flags}

-- The bytes at the front that carry the flag.
abbrev flagged : Bytes → ℕ
flagged bs = length (take_while has_continue_flag bs)

flagged-le-length : (bs : Bytes) → flagged bs ≤ length bs
flagged-le-length [] = omega arith
flagged-le-length (b ∷ bs) = ground (arith, flagged-le-length bs)

-- Bytes behind a byte without the flag do not count, and others only add.
flagged-append : (bs ys : Bytes) → flagged bs < length bs → flagged (bs ++ ys) ≡ flagged bs
flagged-append [] ys h = absurd (omega arith)
flagged-append (b ∷ bs) ys h = ground (arith, flagged-append bs ys)

flagged-append-le : (bs ys : Bytes) → flagged bs ≤ flagged (bs ++ ys)
flagged-append-le [] ys = omega arith
flagged-append-le (b ∷ bs) ys = ground (arith, flagged-append-le bs ys)

count-few : (bs : Bytes) → flagged bs < 4 → count_continue_flags bs ≡ ok (flagged bs)
unfolding count_continue_flags
count-few bs h = ground (arith, length-take {0} 4 (take_while has_continue_flag bs))

count-flagged : (bs : Bytes) (n : ℕ) → count_continue_flags bs ≡ ok n → (n ≡ flagged bs) × (n < 4)
unfolding count_continue_flags
count-flagged bs n h = ground (arith, length-take {0} 4 (take_while has_continue_flag bs))

-- Once a byte without the flag has arrived the count is settled.
pub count_continue_flags-append :
    (bs ys : Bytes) (n : ℕ)
    → count_continue_flags bs ≡ ok n
    → n < length bs
    → count_continue_flags (bs ++ ys) ≡ ok n
count_continue_flags-append bs ys n h more =
    let (e, few) = count-flagged bs n h in
    let same = flagged-append bs ys (omega (arith, e, more)) in
    count-few (bs ++ ys) (omega (arith, e, few, same)) ∙ ap ok (omega (arith, e, same))

-- A front either has that byte, and the count, or it has none yet.
pub count_continue_flags-front :
    (bs ys : Bytes) (n : ℕ)
    → count_continue_flags (bs ++ ys) ≡ ok n
    → ((count_continue_flags bs ≡ ok n) × (n < length bs))
      ⊎ (count_continue_flags bs ≡ ok (length bs))
count_continue_flags-front bs ys n h =
    let (e, few) = count-flagged (bs ++ ys) n h in
    let less = flagged-append-le bs ys in
    let mine = count-few bs (omega (arith, e, few, less)) in
    elim (Bool-cases (leb (length bs) (flagged bs))) [
      | inl all_of ↦
          let same : flagged bs ≡ length bs = ground (arith, all_of, flagged-le-length bs) in
          inr (mine ∙ ap ok same)
      | inr some_of ↦
          let short : flagged bs < length bs = ground (arith, some_of) in
          let same : flagged bs ≡ n = omega (arith, flagged-append bs ys short, e) in
          inl (mine ∙ ap ok same, omega (arith, same, short))
    ]
