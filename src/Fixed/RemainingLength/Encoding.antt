-- ===== src/Fixed/RemainingLength/Encoding.antt =====
-- What `encode_to_array` writes.
use Prim.Native.Nat.{bit_or}
use mcutt.Common.{
  ℕ, zero, suc, ◌+◌, ◌/◌, ◌%◌, ◌≤◌, ◌<◌, ◌≡◌, refl, sym, ap, ◌∷◌, length, All, Bool, true, false,
  ltb, leb, if◌then◌else◌, arith,
}
use mcutt.Common.Bits.{set_top_bit}
use mcutt.Bytes.{error, out_of_range, ok, err}
use mcutt.Fixed.RemainingLength.{len_from_u32, encode_to_array}
use mcutt.Fixed.RemainingLength.Value.{IsByte, value}

-- The encoding of a number without bit operations: a byte says by 128 that more follow.
abbrev pub digit : ℕ → ℕ
digit v = if ltb 0 (v / 128) then v % 128 + 128 else v % 128

pub digit_lem : (v : ℕ) → (if ltb 0 (v / 128) then bit_or (v % 128) 128 else v % 128) ≡ digit v
digit_lem v = rw (set_top_bit (v % 128) (omega arith))

pub encode_to_array_step :
    (n v : ℕ) → encode_to_array (suc n) v ≡ digit v ∷ encode_to_array n (v / 128)
unfolding encode_to_array
encode_to_array_step n v = rw (digit_lem v)

pub length-encode_to_array : (n v : ℕ) → length (encode_to_array n v) ≡ n
unfolding encode_to_array
length-encode_to_array zero v = refl
length-encode_to_array (suc n) v = ap suc (length-encode_to_array n (v / 128))

pub encode_to_array-IsByte : (n v : ℕ) → All IsByte (encode_to_array n v)
encode_to_array-IsByte zero v = unfold encode_to_array in tt
encode_to_array-IsByte (suc n) v =
    rw encode_to_array_step (ground arith, encode_to_array-IsByte n (v / 128))

-- `n` bytes are enough for `v`.
abbrev pub Fits : ℕ → ℕ → Type 0
Fits zero v = v ≡ 0
Fits (suc n) v = Fits n (v / 128)

pub value-encode_to_array : (n v : ℕ) → Fits n v → value (encode_to_array n v) ≡ v
unfolding value encode_to_array
value-encode_to_array zero v h = sym h
value-encode_to_array (suc n) v h =
    rw (digit_lem v) (ground (arith, value-encode_to_array n (v / 128) h))

-- `n` is the number of bytes that `v` needs: no last byte of an encoding in `n` bytes is 0, but
-- for `v ≡ 0`.
abbrev pub Needs : ℕ → ℕ → Type 0
Needs zero v = ⊥
Needs (suc zero) v = v < 128
Needs (suc (suc n)) v = (0 < v / 128) × Needs (suc n) (v / 128)

pub len_from_u32-Needs : (v n : ℕ) → len_from_u32 v ≡ ok n → Needs n v × (n ≤ 4)
unfolding len_from_u32
len_from_u32-Needs v zero h = absurd (ground arith)
len_from_u32-Needs v (suc zero) h = ground arith
len_from_u32-Needs v (suc (suc zero)) h = ground arith
len_from_u32-Needs v (suc (suc (suc zero))) h = ground arith
len_from_u32-Needs v (suc (suc (suc (suc zero)))) h = ground arith
len_from_u32-Needs v (suc (suc (suc (suc (suc n))))) h = absurd (ground arith)

pub Needs-Fits : (n v : ℕ) → Needs n v → Fits n v
Needs-Fits zero v h = absurd h
Needs-Fits (suc zero) v h = omega arith
Needs-Fits (suc (suc n)) v h = Needs-Fits (suc n) (v / 128) h.1

-- The length function is total below the limit, and fails from there on.
pub len_from_u32_total : (v : ℕ) → v < 268435456 → (n : ℕ) × (len_from_u32 v ≡ ok n)
unfolding len_from_u32
len_from_u32_total v h = go (leb v 127) (leb v 16383) (leb v 2097151) refl refl refl
  where
    go :
        (a b c : Bool)
        → leb v 127 ≡ a
        → leb v 16383 ≡ b
        → leb v 2097151 ≡ c
        → (n : ℕ) × (len_from_u32 v ≡ ok n)
    go true b c p q r = (1, ground arith)
    go false true c p q r = (2, ground arith)
    go false false true p q r = (3, ground arith)
    go false false false p q r = (4, ground arith)

pub len_from_u32_limit :
    (v : ℕ) → 268435456 ≤ v → len_from_u32 v ≡ err (error out_of_range "remaining length")
unfolding len_from_u32
len_from_u32_limit v h = ground arith

pub len_from_u32-lt : (v n : ℕ) → len_from_u32 v ≡ ok n → v < 268435456
unfolding len_from_u32
len_from_u32-lt v n h = ground arith

pub len_from_u32_small : (v : ℕ) → v < 128 → len_from_u32 v ≡ ok 1
unfolding len_from_u32
len_from_u32_small v h = ground arith
