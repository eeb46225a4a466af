-- ===== src/Packets/Cursor/Writing.antt =====
-- What the two folds over the filters compute: a length, and the filters' bytes one after the other.
use mcutt.Common.{
  ℕ, ◌+◌, ◌<◌, ◌≡◌, refl, List, [], ◌∷◌, ◌++◌, map, All, length, length-append, arith,
}
use mcutt.Bytes.{usize_mod, Bytes, Error, Result, ok, ok_or, checked_add, usize_add}
use mcutt.Bytes.Io.{Write, Io}
use mcutt.Bytes.Emits.{Emits, Emits-pure, Emits-bind}
use mcutt.Packets.Cursor.{fold_len, fold_write}
use mcutt.Packets.Cursor.Items.{Items}

module _ {I : Type 0} where
  -- The bytes of all items, and their sum of lengths.
  abbrev pub all_bytes : (I → Bytes) → List I → Bytes
  all_bytes bytes [] = []
  all_bytes bytes (x ∷ xs) = bytes x ++ all_bytes bytes xs

  abbrev pub all_len : (I → ℕ) → List I → ℕ
  all_len size [] = 0
  all_len size (x ∷ xs) = size x + all_len size xs

  pub length-all_bytes :
      (bytes : I → Bytes) (size : I → ℕ) (xs : List I)
      → All (λ x. length (bytes x) ≡ size x) xs
      → length (all_bytes bytes xs) ≡ all_len size xs
  length-all_bytes bytes size [] sizes = refl
  length-all_bytes bytes size (x ∷ xs) (s, sizes) =
      omega (
        arith,
        s,
        length-append (bytes x) (all_bytes bytes xs),
        length-all_bytes bytes size xs sizes,
      )

  pub fold_len-ok :
      (encode_len : I → Result ℕ Error) (e : Error) (size : I → ℕ) (len : ℕ) (xs : List I)
      → len + all_len size xs < usize_mod
      → All (λ x. encode_len x ≡ ok (size x)) xs
      → fold_len encode_len e len xs ≡ ok (len + all_len size xs)
  unfolding fold_len
  fold_len-ok encode_len e size len [] fits oks = ground arith
  fold_len-ok encode_len e size len (x ∷ xs) fits (s, oks) =
      let added : ok_or e (checked_add (size x) len) ≡ ok (size x + len) = ground arith in
      let rest = fold_len-ok encode_len e size (size x + len) xs (omega (arith, fits)) oks in
      rw (s, added, rest) (ground arith)

  pub fold_write-Emits :
      {W : Type 0} ⦃writer : Write W⦄ (write_sync : I → Io W ℕ) (bytes : I → Bytes) (size : I → ℕ)
      (acc : ℕ) (xs : List I)
      → acc + all_len size xs < usize_mod
      → All (λ x. Emits {W = W} (bytes x) (size x) (write_sync x)) xs
      → Emits {W = W} (all_bytes bytes xs) (acc + all_len size xs) (fold_write write_sync acc xs)
  unfolding fold_write
  fold_write-Emits write_sync bytes size acc [] fits emits =
      let e : acc + 0 ≡ acc = omega arith in rw e (Emits-pure acc)
  fold_write-Emits write_sync bytes size acc (x ∷ xs) fits (e, emits) =
      let added : usize_add acc (size x) ≡ acc + size x = omega (arith, fits) in
      let sum : acc + (size x + all_len size xs) ≡ acc + size x + all_len size xs = omega arith in
      rw sum (
        Emits-bind _ e (
          rw added
            (fold_write-Emits write_sync bytes size (acc + size x) xs (omega (arith, fits)) emits)))

  -- What is written for each item is read back as the items.
  pub all_bytes-Items :
      {A : Type 0} (parse : Bytes → Result (A × Bytes) Error) (bytes : I → Bytes) (this : I → A)
      (xs : List I)
      → All
          (λ x.
            (0 < length (bytes x)) × ((rest : Bytes) → parse (bytes x ++ rest) ≡ ok (this x, rest)))
          xs
      → Items parse (map this xs) (all_bytes bytes xs)
  all_bytes-Items parse bytes this [] reads = refl
  all_bytes-Items parse bytes this (x ∷ xs) ((pos, read), reads) = (
    all_bytes bytes xs,
    read (all_bytes bytes xs),
    (bytes x, refl, pos),
    all_bytes-Items parse bytes this xs reads,
  )
