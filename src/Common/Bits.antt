-- ===== src/Common/Bits.antt =====
-- Facts on bytes that hold by checking all values: a table of Booleans, evaluated.
use Prim.Native.Nat.{
  ℕ, zero, suc, ◌+◌, ◌*◌, ◌/◌, ◌%◌, ◌<◌, ◌≤◌, bit_and, bit_and-bitwise, bit_or, digits, min,
}
use mathlib.Core.Path.{◌≡◌, refl}
use mathlib.Core.Bool.{Bool, true, ◌&&◌}
use native.Mathlib.Omega.{arith}
use mcutt.Common.Booleans.{◌==◌, ==_iff}

module _ (f g : ℕ → ℕ) where
  unfoldable pub agree_below : ℕ → Bool
  agree_below zero = true
  agree_below (suc k) = agree_below k && (f k == g k)

  pub eq_below : (n : ℕ) → agree_below n ≡ true → (x : ℕ) → x < n → f x ≡ g x
  unfolding agree_below
  eq_below zero table x below = absurd (omega arith)
  eq_below (suc k) table x below = ground (arith, eq_below k _ x, ==_iff (f k) (g k))

-- `b & 0x7f`, `b & 0x80` and `b & 0x0f` on a byte.
pub low_seven : (b : ℕ) → b < 256 → bit_and b 127 ≡ b % 128
unfolding agree_below
low_seven = eq_below _ _ 256 refl

pub top_bit : (b : ℕ) → b < 256 → bit_and 128 b ≡ b / 128 * 128
unfolding agree_below
top_bit = eq_below _ _ 256 refl

pub low_four : (b : ℕ) → b < 256 → bit_and b 15 ≡ b % 16
unfolding agree_below
low_four = eq_below _ _ 256 refl

-- `b | 128` sets the top bit.
pub set_top_bit : (b : ℕ) → b < 128 → bit_or b 128 ≡ b + 128
unfolding agree_below
set_top_bit = eq_below _ _ 128 refl

-- Only the digits of the mask are left, whatever the number.
digits_le : (n a mask : ℕ) → digits (λ b. 0) min n a mask ≤ mask
digits_le zero a mask = omega arith
digits_le (suc n) zero mask = omega arith
digits_le (suc n) (suc a) mask = ground (arith, digits_le n (suc a / 2) (mask / 2))

pub bit_and-le : (a mask : ℕ) → bit_and a mask ≤ mask
bit_and-le a mask = rw (bit_and-bitwise a mask) (digits_le a a mask)
