-- ===== src/External/Bitflags.antt =====
-- The crate bitflags, on a flag set of eight bits, given by its bits.
use Prim.Native.Nat.{bit_and, bit_or}
use mcutt.Common.{ℕ, ◌-◌, ◌≡◌, Bool, not, Option, none, some, ◌==◌, if◌then◌else◌}

pub record Bitflags : Type 0 where
  -- `F::from_bits`, where `defined` has the bits of all flags: `None` on an undefined bit.
  pub from_bits : ℕ → ℕ → Option ℕ
  pub from_bits_lem :
      (defined bits : ℕ)
      → from_bits defined bits ≡ (if bit_and bits defined == bits then some bits else none)
  -- `F::from_bits_retain`.
  pub from_bits_retain : ℕ → ℕ
  pub from_bits_retain_lem : (bits : ℕ) → from_bits_retain bits ≡ bits
  pub contains : ℕ → ℕ → Bool
  pub contains_lem : (flags other : ℕ) → contains flags other ≡ (bit_and flags other == other)
  pub intersects : ℕ → ℕ → Bool
  pub intersects_lem : (flags other : ℕ) → intersects flags other ≡ not (bit_and flags other == 0)
  pub is_empty : ℕ → Bool
  pub is_empty_lem : (flags : ℕ) → is_empty flags ≡ (flags == 0)
  -- `|` and `&`.
  pub union : ℕ → ℕ → ℕ
  pub union_lem : (flags other : ℕ) → union flags other ≡ bit_or flags other
  pub intersection : ℕ → ℕ → ℕ
  pub intersection_lem : (flags other : ℕ) → intersection flags other ≡ bit_and flags other
  -- `!flags`: the defined bits that are not set.
  pub complement : ℕ → ℕ → ℕ
  pub complement_lem :
      (defined flags : ℕ) → complement defined flags ≡ defined - bit_and defined flags
