-- ===== src/Fixed/RemainingLength/ArrayWrite.antt =====
-- `Encode` of the remaining length in an array of `n` bytes, which the length must fill.
use mcutt.Common.{ℕ, ◌≡◌, ◌≢◌, not, true, false, ◌==◌, arith}
use mcutt.Bytes.{Error, error, out_of_range, Result, ok, err}
use mcutt.Bytes.Try.{fail_if}
use mcutt.Bytes.Io.{Write, Io, lift, ◌>>=◌, ◌>>◌}
use mcutt.Bytes.Emits.{Emits, Rejects, Emits-lift_bind, Rejects-lift_bind, Rejects-after_lift}
use mcutt.Fixed.RemainingLength.{len_from_u32, encode_to_array}
use mcutt.Fixed.RemainingLength.Write.{write_sync_array, write_sync_array-Emits}

pub encode_len : ℕ → ℕ → Result ℕ Error
encode_len n value = ok n

module _ {W : Type 0} ⦃writer : Write W⦄ where
  pub write_sync : ℕ → ℕ → Io W ℕ
  write_sync n value = do
    len ← lift (len_from_u32 value)
    lift (fail_if (not (len == n)) (error out_of_range "remaining length array"))
    write_sync_array n value

  -- A length that takes `n` bytes is written in them.
  pub write_sync-Emits :
      (n v : ℕ) → len_from_u32 v ≡ ok n → Emits {W = W} (encode_to_array n v) n (write_sync n v)
  unfolding write_sync
  write_sync-Emits n v h =
      let same : (n == n) ≡ true = ground arith in
      let fits : fail_if (not (n == n)) (error out_of_range "remaining length array") ≡ ok tt =
        rw same in
      Emits-lift_bind _ h (Emits-lift_bind _ fits (write_sync_array-Emits n v))

  -- One that takes another number of bytes is refused, and nothing is written.
  pub write_sync-Rejects :
      (n m v : ℕ)
      → len_from_u32 v ≡ ok m
      → m ≢ n
      → Rejects {W = W} (error out_of_range "remaining length array") (write_sync n v)
  unfolding write_sync
  write_sync-Rejects n m v h other =
      let differ : (m == n) ≡ false = ground (arith, other) in
      let over : fail_if (not (m == n)) (error out_of_range "remaining length array")
          ≡ err (error out_of_range "remaining length array") =
        rw differ in
      Rejects-after_lift _ h (Rejects-lift_bind _ over)
