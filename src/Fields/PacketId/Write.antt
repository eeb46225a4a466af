-- ===== src/Fields/PacketId/Write.antt =====
-- Writing a packet identifier, and reading it back.
use mcutt.Common.{
  ℕ, ◌<◌, ◌≡◌, refl, [], ◌++◌, length, some, split_at_checked, split_at_checked-append, ◌==◌, false,
  arith,
}
use mcutt.Bytes.{Bytes, Error, Result, ok}
use mcutt.Bytes.Io.{Write, Io, pure, write_all, ◌>>◌}
use mcutt.Bytes.Emits.{Emits, Emits-return, Emits-write_all}
use mcutt.External.Zerocopy.{Zerocopy}
use mcutt.Fields.PacketId.{IsNonZero, read, validate, parse}

pub encode_len : ℕ → Result ℕ Error
encode_len value = ok 2

module _ ⦃z : Zerocopy⦄ {W : Type 0} ⦃writer : Write W⦄ where
  pub write_sync : ℕ → Io W ℕ
  write_sync value = do write_all (z.u16_bytes value) "writing packet ID"; pure 2

  pub write_sync-Emits : (v : ℕ) → Emits {W = W} (z.u16_bytes v) 2 (write_sync v)
  unfolding write_sync
  write_sync-Emits v = Emits-return (λ u. 2) (Emits-write_all _ _)

pub encode_len_lem : (v : ℕ) → encode_len v ≡ ok 2
unfolding encode_len
encode_len_lem v = refl

module _ ⦃z : Zerocopy⦄ where
  pub length-u16_bytes : (v : ℕ) → v < 65536 → length (z.u16_bytes v) ≡ 2
  length-u16_bytes v h = rw (z.u16_bytes_lem v h)

  pub u16_get-u16_bytes : (v : ℕ) → v < 65536 → z.u16_get (z.u16_bytes v) ≡ v
  u16_get-u16_bytes v h = rw (z.u16_bytes_lem v h, z.u16_get_lem) (omega arith)

  pub split-u16_bytes :
      (v : ℕ) (rest : Bytes)
      → v < 65536
      → split_at_checked 2 (z.u16_bytes v ++ rest) ≡ some (z.u16_bytes v, rest)
  split-u16_bytes v rest h =
      split_at_checked-append (z.u16_bytes v) rest 2 (omega (arith, length-u16_bytes v h))

  -- `parse` takes exactly the written identifier off a buffer, and `read` gives it back.
  pub parse-u16_bytes :
      (v : ℕ) (rest : Bytes)
      → IsNonZero v
      → (parse (z.u16_bytes v ++ rest) ≡ ok (record { pkid = z.u16_bytes v }, rest))
        × (read (record { pkid = z.u16_bytes v }) ≡ some v)
  unfolding parse read
  parse-u16_bytes v rest (pos, small) = (
    rw (
      z.ref_from_prefix_lem 2 _,
      split-u16_bytes v rest small,
      u16_get-u16_bytes v small,
      nonzero,
    ),
    rw (u16_get-u16_bytes v small, nonzero),
  )
    where
      nonzero : (v == 0) ≡ false
      nonzero = ground arith

  pub read-u16_bytes : (v : ℕ) → IsNonZero v → read (record { pkid = z.u16_bytes v }) ≡ some v
  read-u16_bytes v h = (parse-u16_bytes v [] h).1

  pub validate-u16_bytes :
      (v : ℕ) → IsNonZero v → validate (record { pkid = z.u16_bytes v }) ≡ ok tt
  unfolding validate
  validate-u16_bytes v (pos, small) =
      let nonzero : (v == 0) ≡ false = ground arith in rw (u16_get-u16_bytes v small, nonzero)
