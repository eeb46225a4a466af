-- ===== src/External/Reference.antt =====
-- Implementations of the third-party interfaces that meet their laws, for tests and examples.
use Prim.Native.Nat.{bit_and, bit_or}
use mcutt.Common.{
  ℕ, ◌+◌, ◌-◌, ◌*◌, ◌/◌, ◌%◌, refl, not, none, some, [], ◌∷◌, ◌==◌, if◌then◌else◌, split_at_checked,
}
use mcutt.Bytes.{Bytes}
use mcutt.External.Zerocopy.{Zerocopy, valid_parts, valid_tail}
use mcutt.External.Bitflags.{Bitflags}
use mcutt.External.Memchr.{Memchr, positions, first}

abbrev get_be : Bytes → ℕ
get_be (hi ∷ lo ∷ []) = hi * 256 + lo
get_be _ = 0

instance abbrev pub zerocopy : Zerocopy
zerocopy = record {
  ref_from_prefix = split_at_checked;
  ref_from_prefix_lem = λ n bs. refl;
  ref_from_bytes = split_at_checked;
  ref_from_bytes_lem = λ n bs. refl;
  split_at = split_at_checked;
  split_at_lem = λ n bs. refl;
  try_ref_from_prefix = λ n valid bs. valid_parts valid (split_at_checked n bs);
  try_ref_from_prefix_lem = λ n valid bs. refl;
  try_ref_from_bytes = λ n valid bs. valid_tail valid (split_at_checked n bs);
  try_ref_from_bytes_lem = λ n valid bs. refl;
  try_ref_from_prefix_with_elems =
      λ n count valid bs. valid_parts valid (split_at_checked (n + count) bs);
  try_ref_from_prefix_with_elems_lem = λ n count valid bs. refl;
  u16_bytes = λ v. v / 256 ∷ v % 256 ∷ [];
  u16_bytes_lem = λ v h. refl;
  u16_get = get_be;
  u16_get_lem = λ hi lo. refl;
}

instance abbrev pub bitflags : Bitflags
bitflags = record {
  from_bits = λ defined bits. if bit_and bits defined == bits then some bits else none;
  from_bits_lem = λ defined bits. refl;
  from_bits_retain = λ bits. bits;
  from_bits_retain_lem = λ bits. refl;
  contains = λ flags other. bit_and flags other == other;
  contains_lem = λ flags other. refl;
  intersects = λ flags other. not (bit_and flags other == 0);
  intersects_lem = λ flags other. refl;
  is_empty = λ flags. flags == 0;
  is_empty_lem = λ flags. refl;
  union = bit_or;
  union_lem = λ flags other. refl;
  intersection = bit_and;
  intersection_lem = λ flags other. refl;
  complement = λ defined flags. defined - bit_and defined flags;
  complement_lem = λ defined flags. refl;
}

instance abbrev pub memchr : Memchr
memchr = record {
  memchr2 = λ a b bs. first (positions 0 a b bs);
  memchr2_lem = λ a b bs. refl;
  memchr2_iter = positions 0;
  memchr2_iter_lem = λ a b bs. refl;
}
