-- ===== src/Fixed/RemainingLength/Value.antt =====
-- The number that a list of bytes stands for, and that `read` computes it with no overflow.
use Prim.Native.Nat.{bit_and}
use mcutt.Common.{refl, sym, ℕ, ◌+◌, ◌*◌, ◌%◌, ◌≤◌, ◌<◌, ◌≡◌, ◌∙◌, [], ◌∷◌, length, All, leb, arith}
use native.Mathlib.Nat.{mod-eq_of_lt}
use mcutt.Common.Bits.{low_seven, top_bit, bit_and-le}
use mcutt.Bytes.{Bytes, usize_mod}
use mcutt.Fixed.RemainingLength.{
  has_continue_flag, read_loop, read, read_len, read_from_buf, u32_mod,
}

abbrev pub IsByte : ℕ → Type 0
IsByte b = b < 256

-- Base 128, lowest digit first; the top bit of a byte does not count.
unfoldable pub value : Bytes → ℕ
value [] = 0
value (b ∷ bs) = b % 128 + 128 * value bs

pub has_continue_flag_lem : (b : ℕ) → IsByte b → has_continue_flag b ≡ leb 128 b
unfolding has_continue_flag
has_continue_flag_lem b h = rw (top_bit b h) (ground arith)

abbrev pow_len : Bytes → ℕ
pow_len [] = 1
pow_len (b ∷ bs) = 128 * pow_len bs

-- The same with the mask of the code, for any numbers.
abbrev masked : Bytes → ℕ
masked [] = 0
masked (b ∷ bs) = bit_and b 127 + 128 * masked bs

module _ (modulus : ℕ) (big : 268435456 < modulus) where
  -- `m` is the multiplier and `t` the total so far, below it.
  read_loop-masked :
      (bs : Bytes) (m t : ℕ)
      → t < m
      → m * pow_len bs ≤ 268435456
      → 0 < pow_len bs
      → read_loop modulus bs m t ≡ t + m * masked bs
  unfolding read_loop
  read_loop-masked [] m t ht hm hp = omega arith
  read_loop-masked (b ∷ bs) m t ht hm hp =
      rw (wraps, shifts, sums)
        (read_loop-masked bs (m * 128) (t + bit_and b 127 * m) (omega (arith, digit)) (omega arith)
            (omega arith)
          ∙ grind arith)
    where
      small : bit_and b 127 ≤ 127
      small = bit_and-le b 127

      digit : bit_and b 127 * m ≤ 127 * m
      digit = grind (arith, small)

      room : 128 * m ≤ m * (128 * pow_len bs)
      room = grind arith

      wraps : bit_and b 127 * m % modulus ≡ bit_and b 127 * m
      wraps = mod-eq_of_lt (omega (arith, digit, room))

      shifts : m * 128 % modulus ≡ m * 128
      shifts = mod-eq_of_lt (omega (arith, room))

      sums : (t + bit_and b 127 * m) % modulus ≡ t + bit_and b 127 * m
      sums = mod-eq_of_lt (omega (arith, digit, room))

masked-value : (bs : Bytes) → All IsByte bs → masked bs ≡ value bs
unfolding value
masked-value [] h = refl
masked-value (b ∷ bs) (hb, hbs) = rw (low_seven b hb, masked-value bs hbs)

pow_len-pos : (bs : Bytes) → 0 < pow_len bs
pow_len-pos [] = omega arith
pow_len-pos (b ∷ bs) = omega (arith, pow_len-pos bs)

pow_len_bound : (bs : Bytes) → length bs ≤ 4 → pow_len bs ≤ 268435456
pow_len_bound [] h = omega arith
pow_len_bound (a ∷ []) h = omega arith
pow_len_bound (a ∷ b ∷ []) h = omega arith
pow_len_bound (a ∷ b ∷ c ∷ []) h = omega arith
pow_len_bound (a ∷ b ∷ c ∷ d ∷ []) h = omega arith
pow_len_bound (a ∷ b ∷ c ∷ d ∷ e ∷ rest) h = absurd (omega arith)

masked-lt : (bs : Bytes) → masked bs < pow_len bs
masked-lt [] = omega arith
masked-lt (b ∷ bs) = omega (arith, masked-lt bs, bit_and-le b 127)

-- Of at most four numbers the three readers compute the same, with no overflow of a `u32` or a
-- `usize`.
read-masked :
    (bs : Bytes)
    → length bs ≤ 4
    → (read bs ≡ masked bs) × (read_len bs ≡ masked bs) × (read_from_buf bs ≡ masked bs)
unfolding read read_len read_from_buf
read-masked bs l = (
  read_loop-masked u32_mod (omega arith) bs 1 0 (omega arith) fits (pow_len-pos bs) ∙ omega arith,
  read_loop-masked usize_mod (omega arith) bs 1 0 (omega arith) fits (pow_len-pos bs) ∙ omega arith,
  read_loop-masked u32_mod (omega arith) bs 1 0 (omega arith) fits (pow_len-pos bs) ∙ omega arith,
)
  where
    fits : 1 * pow_len bs ≤ 268435456
    fits = omega (arith, pow_len_bound bs l)

-- The number that `next_frame` reads is the one that a parser reads, and is below the limit.
pub read_from_buf-read_len :
    (bs : Bytes) → length bs ≤ 4 → (read_from_buf bs ≡ read_len bs) × (read_len bs < 268435456)
read_from_buf-read_len bs l =
    let (r, rl, rb) = read-masked bs l in
    (rb ∙ sym rl, omega (arith, rl, masked-lt bs, pow_len_bound bs l))

-- On at most four bytes the three readers compute the value, with no overflow of a `u32` or a `usize`.
pub read-value :
    (bs : Bytes)
    → All IsByte bs
    → length bs ≤ 4
    → (read bs ≡ value bs) × (read_len bs ≡ value bs) × (read_from_buf bs ≡ value bs)
read-value bs h l =
    let (r, rl, rb) = read-masked bs l in
    let same = masked-value bs h in (r ∙ same, rl ∙ same, rb ∙ same)
