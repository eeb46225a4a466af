-- ===== src/Fields/Buff/Write.antt =====
-- Writing a buffer, and reading it back.
use mcutt.Common.{
  ℕ, ◌+◌, ◌<◌, ◌≡◌, refl, ◌++◌, append_assoc, length, length-append, some, split_at_checked,
  split_at_checked-append, arith,
}
use mcutt.Bytes.{Bytes, ok, usize_add}
use mcutt.Bytes.Io.{Write, Io, pure, lift, write_all, ◌>>=◌, ◌>>◌}
use mcutt.Bytes.Emits.{Emits, Emits-bind, Emits-lift_bind, Emits-return, Emits-write_all}
use mcutt.External.Zerocopy.{Zerocopy}
use mcutt.Fields.PacketId.Write.{length-u16_bytes, u16_get-u16_bytes, split-u16_bytes}
use mcutt.Fields.Buff.{Buff, validate_value, validate, encode_len, parse}

module _ ⦃z : Zerocopy⦄ {W : Type 0} ⦃writer : Write W⦄ where
  pub write_sync : Bytes → Io W ℕ
  write_sync value = do
    buf_len ← lift (validate_value value)
    write_all (z.u16_bytes buf_len) "writing message buffer len"
    write_all value "writing message buffer value"
    pure (usize_add 2 (length value))

module _ ⦃z : Zerocopy⦄ where
  -- The bytes of a buffer with this content.
  abbrev pub buff_bytes : Bytes → Bytes
  buff_bytes value = z.u16_bytes (length value) ++ value

  pub length-buff_bytes : (v : Bytes) → length v < 65536 → length (buff_bytes v) ≡ 2 + length v
  length-buff_bytes v h =
      omega (arith, length-append (z.u16_bytes (length v)) v, length-u16_bytes (length v) h)

  -- `parse` takes exactly the written buffer off what it is given.
  pub parse-buff_bytes :
      (v rest : Bytes)
      → length v < 65536
      → parse (buff_bytes v ++ rest)
        ≡ ok (record { len = z.u16_bytes (length v); data_bytes = v }, rest)
  unfolding parse
  parse-buff_bytes v rest h = rw (
    z.ref_from_bytes_lem 2 _,
    split,
    u16_get-u16_bytes (length v) h,
    z.split_at_lem (length v) _,
    split_at_checked-append v rest (length v) refl,
  )
    where
      split : split_at_checked 2 (buff_bytes v ++ rest) ≡ some (z.u16_bytes (length v), v ++ rest)
      split =
          rw (append_assoc (z.u16_bytes (length v)) v rest)
            (split-u16_bytes (length v) (v ++ rest) h)

pub validate_value-ok : (v : Bytes) → length v < 65536 → validate_value v ≡ ok (length v)
unfolding validate_value
validate_value-ok v h = ground arith

pub validate_lem : (this : Buff) → validate this ≡ ok tt
unfolding validate
validate_lem this = refl

pub encode_len-ok : (v : Bytes) → length v < 65536 → encode_len v ≡ ok (2 + length v)
unfolding encode_len
encode_len-ok v h = ground arith

module _ ⦃z : Zerocopy⦄ {W : Type 0} ⦃writer : Write W⦄ where
  pub write_sync-Emits :
      (v : Bytes) → length v < 65536 → Emits {W = W} (buff_bytes v) (2 + length v) (write_sync v)
  unfolding write_sync
  write_sync-Emits v h = Emits-lift_bind _ (validate_value-ok v h) (
      Emits-bind _ (Emits-write_all _ _)
        (rw fits (Emits-return (λ u. 2 + length v) (Emits-write_all _ _))))
    where
      fits : usize_add 2 (length v) ≡ 2 + length v
      fits = omega arith
