-- ===== src/Fixed/RemainingLength/Terminated.antt =====
-- The runs of bytes that `validate` accepts, and the lengths whose encoding is one of them.
use mathlib.Core.List.{reverse, reverse-cons, reverse-reverse}
use mcutt.Common.{
  ℕ, zero, suc, ◌/◌, ◌≤◌, ◌<◌, ◌≡◌, refl, sym, ap, ◌∙◌, [], ◌∷◌, ◌++◌, length, all, all-append,
  true, false, arith,
}
use mcutt.Bytes.{Bytes, ok}
use mcutt.Fixed.RemainingLength.{has_continue_flag, encode_to_array, validate, validate_reversed}
use mcutt.Fixed.RemainingLength.Encoding.{Needs}
use mcutt.Fixed.RemainingLength.RoundTrip.{IsTerminated, digit_flag}

IsTerminated-snoc :
    (bs : Bytes) (last : ℕ)
    → all has_continue_flag bs ≡ true
    → has_continue_flag last ≡ false
    → IsTerminated (bs ++ (last ∷ []))
IsTerminated-snoc [] last a h = h
IsTerminated-snoc (b ∷ []) last a h = (ground arith, h)
IsTerminated-snoc (b ∷ c ∷ cs) last a h =
    (ground arith, IsTerminated-snoc (c ∷ cs) last (ground arith) h)

all-reverse :
    (bs : Bytes) → all has_continue_flag bs ≡ true → all has_continue_flag (reverse bs) ≡ true
all-reverse [] h = refl
all-reverse (b ∷ bs) h =
    rw (reverse-cons b bs, all-append has_continue_flag (reverse bs) (b ∷ []))
      (ground (arith, all-reverse bs))

validate_reversed-IsTerminated :
    (last : ℕ) (iter : Bytes)
    → validate_reversed (last ∷ iter) ≡ ok tt
    → IsTerminated (reverse (last ∷ iter))
unfolding validate_reversed
validate_reversed-IsTerminated last iter h =
    rw (reverse-cons last iter)
      (IsTerminated-snoc (reverse iter) last (all-reverse iter (ground arith)) (ground arith))

-- What `validate` accepts, but for no bytes at all.
pub validate_sound :
    (bs : Bytes) → 0 < length bs → validate bs ≡ ok tt → IsTerminated bs × (length bs ≤ 4)
unfolding validate
validate_sound bs pos h = go (reverse bs) refl
  where
    few : length bs ≤ 4
    few = ground arith

    runs : validate_reversed (reverse bs) ≡ ok tt
    runs = ground arith

    go : (r : Bytes) → reverse bs ≡ r → IsTerminated bs × (length bs ≤ 4)
    go [] e =
        let nil : bs ≡ [] = sym (reverse-reverse bs) ∙ ap reverse e in
        absurd (omega (arith, pos, ap length nil))
    go (last ∷ iter) e =
        let back : reverse (last ∷ iter) ≡ bs = ap reverse (sym e) ∙ reverse-reverse bs in
        (rw back at (validate_reversed-IsTerminated last iter (rw e at runs)), few)

-- Only the number of bytes that a length needs makes a terminated run of its encoding.
pub IsTerminated-Needs : (n v : ℕ) → IsTerminated (encode_to_array n v) → Needs n v
unfolding encode_to_array
IsTerminated-Needs zero v h = absurd h
IsTerminated-Needs (suc zero) v h = ground (arith, digit_flag v, h)
IsTerminated-Needs (suc (suc n)) v h =
    (ground (arith, digit_flag v, h.0), IsTerminated-Needs (suc n) (v / 128) h.1)

pub Needs-unique : (n m v : ℕ) → Needs n v → Needs m v → n ≡ m
Needs-unique zero m v h k = absurd h
Needs-unique (suc n) zero v h k = absurd k
Needs-unique (suc zero) (suc zero) v h k = refl
Needs-unique (suc zero) (suc (suc m)) v h k = absurd (omega arith)
Needs-unique (suc (suc n)) (suc zero) v h k = absurd (omega arith)
Needs-unique (suc (suc n)) (suc (suc m)) v h k =
    ap suc (Needs-unique (suc n) (suc m) (v / 128) h.1 k.1)
