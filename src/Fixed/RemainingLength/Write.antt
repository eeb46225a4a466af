-- ===== src/Fixed/RemainingLength/Write.antt =====
-- `Encode` of the remaining length: `write_sync` for a slice.
use mcutt.Common.{ℕ, ◌≡◌, refl, Bool, true, false, leb, if◌then◌else◌}
use mcutt.Bytes.{Error, error, out_of_range, Result, ok, err}
use mcutt.Bytes.Io.{Write, Io, pure, lift, write_all, ◌>>◌}
use mcutt.Bytes.Emits.{Emits, Rejects, Emits-return, Emits-write_all}
use mcutt.Fixed.RemainingLength.{len_from_u32, encode_to_array}

pub encode_len : ℕ → Result ℕ Error
unfolding len_from_u32
encode_len value = len_from_u32 value

module _ {W : Type 0} ⦃writer : Write W⦄ where
  -- `write_sync_array::<N, _>`.
  pub write_sync_array : ℕ → ℕ → Io W ℕ
  write_sync_array n value = do
    write_all (encode_to_array n value) "writing remaining length"
    pure n

  pub write_sync : ℕ → Io W ℕ
  write_sync value =
      if leb value 127
      then write_sync_array 1 value
      else if leb value 16383
      then write_sync_array 2 value
      else if leb value 2097151
      then write_sync_array 3 value
      else if leb value 268435455
      then write_sync_array 4 value
      else lift (err (error out_of_range "remaining length"))

  abbrev by_length : ℕ → Result ℕ Error → Io W ℕ
  by_length value (ok n) = write_sync_array n value
  by_length value (err e) = lift (err e)

  -- The match of `write_sync` is that of `len_from_u32`.
  write_sync-by_length : (value : ℕ) → write_sync value ≡ by_length value (len_from_u32 value)
  unfolding write_sync len_from_u32
  write_sync-by_length value =
      go (leb value 127) (leb value 16383) (leb value 2097151) (leb value 268435455)
    where
      go :
          (a b c d : Bool)
          → (if a
              then write_sync_array 1 value
              else if b
              then write_sync_array 2 value
              else if c
              then write_sync_array 3 value
              else if d
              then write_sync_array 4 value
              else lift (err (error out_of_range "remaining length")))
            ≡ by_length value (
                if a
                then ok 1
                else if b
                then ok 2
                else if c
                then ok 3
                else if d
                then ok 4
                else err (error out_of_range "remaining length"))
      go true b c d = refl
      go false true c d = refl
      go false false true d = refl
      go false false false true = refl
      go false false false false = refl

  pub write_sync_array-Emits :
      (n v : ℕ) → Emits {W = W} (encode_to_array n v) n (write_sync_array n v)
  unfolding write_sync_array
  write_sync_array-Emits n v = Emits-return (λ u. n) (Emits-write_all _ _)

  pub write_sync-Emits :
      (v n : ℕ) → len_from_u32 v ≡ ok n → Emits {W = W} (encode_to_array n v) n (write_sync v)
  write_sync-Emits v n h = rw (write_sync-by_length v, h) (write_sync_array-Emits n v)

  pub write_sync-Rejects :
      (v : ℕ) (e : Error) → len_from_u32 v ≡ err e → Rejects {W = W} e (write_sync v)
  write_sync-Rejects v e h = rw (write_sync-by_length v, h) (record { at = λ w. refl })

pub encode_len_lem : (v : ℕ) → encode_len v ≡ len_from_u32 v
unfolding encode_len
encode_len_lem v = refl
