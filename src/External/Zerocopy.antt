-- ===== src/External/Zerocopy.antt =====
-- The crate zerocopy. A type is seen as its bytes: a sized type by its size, a type that ends in a
-- slice by the size of what stands before the slice, and the values that a type admits by a test
-- on the bytes. All types of the source have alignment 1.
use mcutt.Common.{
  ℕ, ◌+◌, ◌*◌, ◌/◌, ◌%◌, ◌<◌, ◌≡◌, Bool, Option, none, some, [], ◌∷◌, if◌then◌else◌,
  split_at_checked, arith,
}
use mcutt.Bytes.{Bytes, Result, ok, err}

pub data ConvertError : Type 0 where
  alignment size validity : ConvertError

-- The bytes of a value with its rest, tested for validity.
abbrev pub valid_parts :
    (Bytes → Bool) → Option (Bytes × Bytes) → Result (Bytes × Bytes) ConvertError
valid_parts valid none = err ConvertError.size
valid_parts valid (some (this, rest)) =
    if valid this then ok (this, rest) else err ConvertError.validity

-- The same for a type that ends in a slice, where the test reads the slice.
abbrev pub valid_tail :
    (Bytes → Bool) → Option (Bytes × Bytes) → Result (Bytes × Bytes) ConvertError
valid_tail valid none = err ConvertError.size
valid_tail valid (some (head, tail)) =
    if valid tail then ok (head, tail) else err ConvertError.validity

pub record Zerocopy : Type 0 where
  -- `T::ref_from_prefix` for a sized type of this many bytes: the value's bytes and the rest.
  pub ref_from_prefix : ℕ → Bytes → Option (Bytes × Bytes)
  pub ref_from_prefix_lem : (n : ℕ) (bs : Bytes) → ref_from_prefix n bs ≡ split_at_checked n bs
  -- `T::ref_from_bytes` and `T::ref_from_prefix` for a type that ends in a byte slice, with this
  -- many bytes before it: the slice takes all that is left.
  pub ref_from_bytes : ℕ → Bytes → Option (Bytes × Bytes)
  pub ref_from_bytes_lem : (n : ℕ) (bs : Bytes) → ref_from_bytes n bs ≡ split_at_checked n bs
  -- `split_at` with `via_immutable`, on the slice that such a value ends in.
  pub split_at : ℕ → Bytes → Option (Bytes × Bytes)
  pub split_at_lem : (n : ℕ) (bs : Bytes) → split_at n bs ≡ split_at_checked n bs
  -- `T::try_ref_from_prefix`: the size is tested first, then the value.
  pub try_ref_from_prefix : ℕ → (Bytes → Bool) → Bytes → Result (Bytes × Bytes) ConvertError
  pub try_ref_from_prefix_lem :
      (n : ℕ) (valid : Bytes → Bool) (bs : Bytes)
      → try_ref_from_prefix n valid bs ≡ valid_parts valid (split_at_checked n bs)
  -- `T::try_ref_from_bytes` for a type that ends in a slice with this test.
  pub try_ref_from_bytes : ℕ → (Bytes → Bool) → Bytes → Result (Bytes × Bytes) ConvertError
  pub try_ref_from_bytes_lem :
      (n : ℕ) (valid : Bytes → Bool) (bs : Bytes)
      → try_ref_from_bytes n valid bs ≡ valid_tail valid (split_at_checked n bs)
  -- `T::try_ref_from_prefix_with_elems` for a type of `n` bytes before a slice of `count` bytes,
  -- with a test on all bytes of the value.
  pub try_ref_from_prefix_with_elems :
      ℕ → ℕ → (Bytes → Bool) → Bytes → Result (Bytes × Bytes) ConvertError
  pub try_ref_from_prefix_with_elems_lem :
      (n count : ℕ) (valid : Bytes → Bool) (bs : Bytes)
      → try_ref_from_prefix_with_elems n count valid bs
        ≡ valid_parts valid (split_at_checked (n + count) bs)
  -- The big-endian `U16`: `U16::from(v).as_bytes()` and `get`.
  pub u16_bytes : ℕ → Bytes
  pub u16_bytes_lem : (v : ℕ) → v < 65536 → u16_bytes v ≡ v / 256 ∷ v % 256 ∷ []
  pub u16_get : Bytes → ℕ
  pub u16_get_lem : (hi lo : ℕ) → u16_get (hi ∷ lo ∷ []) ≡ hi * 256 + lo

-- A value that is accepted is there.
pub valid_parts-ok :
    (valid : Bytes → Bool) (o : Option (Bytes × Bytes)) (front rest : Bytes)
    → valid_parts valid o ≡ ok (front, rest)
    → o ≡ some (front, rest)
valid_parts-ok valid none front rest h = cc h
valid_parts-ok valid (some (this, left)) front rest h = ground arith
