-- ===== src/Fixed/RemainingLength.antt =====
-- src/v3/packets/common/fixed/remaining_length.rs: the length of the rest of a packet, in 1 to 4
-- bytes of seven bits each, lowest first, with the top bit set on all but the last.
pub mod Value
pub mod Encoding
pub mod RoundTrip
pub mod Write
pub mod ArrayWrite
pub mod Terminated
pub mod Flags
use Prim.Native.Nat.{bit_and, bit_or}
use mathlib.Core.List.{reverse}
use mcutt.Common.{
  ℕ, zero, suc, ◌+◌, ◌*◌, ◌/◌, ◌%◌, ◌^◌, Bool, true, false, not, List, [], ◌∷◌, length, take, all,
  split_at_checked, ltb, leb, ◌==◌, if◌then◌else◌,
}
use mcutt.Bytes.{
  Bytes, Error, error, out_of_range, not_enough_space, invalid, Result, ok, err, ok_or, usize_mod,
}
use mcutt.Bytes.Try.{◌>>=◌, ◌>>◌, map_err, fail_if}
use mcutt.External.Zerocopy.{Zerocopy}

abbrev pub max_bytes : ℕ
max_bytes = 4

abbrev pub u32_mod : ℕ
u32_mod = 2 ^ 32

-- `(Self::CONTINUE_FLAG & b) == Self::CONTINUE_FLAG`.
unfoldable pub has_continue_flag : ℕ → Bool
has_continue_flag b = bit_and 128 b == 128

-- `Iterator::take_while`.
abbrev pub take_while : (ℕ → Bool) → Bytes → Bytes
take_while p [] = []
take_while p (b ∷ bs) = if p b then b ∷ take_while p bs else []

unfoldable pub count_continue_flags : Bytes → Result ℕ Error
unfolding has_continue_flag
count_continue_flags buf =
    let flags = length (take max_bytes (take_while has_continue_flag buf)) in
    if leb 4 flags
    then err (error invalid "remaining length continuation flags require more than 4 bytes")
    else ok flags

-- The map and the sum of `read`, on an unsigned integer with this modulus: products and sums wrap.
pub read_loop : ℕ → Bytes → ℕ → ℕ → ℕ
read_loop modulus [] multiplier total = total
read_loop modulus (b ∷ bs) multiplier total =
    let value = bit_and b 127 * multiplier % modulus in
    read_loop modulus bs (multiplier * 128 % modulus) ((total + value) % modulus)

pub read_from_buf : Bytes → ℕ
unfolding read_loop
read_from_buf buf = read_loop u32_mod buf 1 0

pub read : Bytes → ℕ
unfolding read_loop
read len = read_loop u32_mod len 1 0

-- The same as `usize`.
pub read_len : Bytes → ℕ
unfolding read_loop
read_len len = read_loop usize_mod len 1 0

unfoldable pub len_from_u32 : ℕ → Result ℕ Error
len_from_u32 value =
    if leb value 127
    then ok 1
    else if leb value 16383
    then ok 2
    else if leb value 2097151
    then ok 3
    else if leb value 268435455
    then ok 4
    else err (error out_of_range "remaining length")

-- `encode_to_array::<N>`.
unfoldable pub encode_to_array : ℕ → ℕ → Bytes
encode_to_array zero value = []
encode_to_array (suc n) value =
    (if ltb 0 (value / 128) then bit_or (value % 128) 128 else value % 128)
    ∷ encode_to_array n (value / 128)

-- The checks of `validate` on the bytes from the last to the first.
validate_reversed : Bytes → Result (Unit {0}) Error
validate_reversed [] = ok tt
validate_reversed (last ∷ iter) = do
  fail_if (has_continue_flag last) (error invalid "remaining length last byte continuation set")
  fail_if (not (all has_continue_flag iter))
      (error invalid "remaining length continuation flag unset")

pub validate : Bytes → Result (Unit {0}) Error
unfolding validate_reversed has_continue_flag
validate len = do
  fail_if (ltb 4 (length len)) (error invalid "remaining length too many bytes")
  validate_reversed (reverse len)

-- `<RemainingLength<[u8]>>::parse`: the bytes of the length, and the rest.
pub parse : Bytes → Result (Bytes × Bytes) Error
unfolding count_continue_flags
parse buff = do
  flags ← count_continue_flags buff
  ok_or (error not_enough_space "remaining length") (split_at_checked (flags + 1) buff)

module _ ⦃z : Zerocopy⦄ where
  -- `<RemainingLength<[u8; N]>>::parse`.
  pub parse_array : ℕ → Bytes → Result (Bytes × Bytes) Error
  unfolding validate
  parse_array n bytes = do
    parsed ← ok_or (error out_of_range "remaining length") (z.ref_from_prefix n bytes)
    validate parsed.0
    ok parsed
