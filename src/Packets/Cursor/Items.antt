-- ===== src/Packets/Cursor/Items.antt =====
-- The items of a field, as a description without positions, and what the loops over a cursor do on
-- a field that has them.
use mcutt.Common.{
  ℕ, zero, suc, ◌-◌, ◌<◌, ◌≡◌, refl, ap, List, [], ◌∷◌, ◌++◌, append_assoc, All, none, some, length,
  length-append, split_at_checked-append, arith,
}
use mcutt.Bytes.{usize_mod, Bytes, Error, Result, ok, err, usize_add}
use mcutt.Bytes.Takes.{Takes}
use mcutt.Packets.Cursor.{Cursor, read, try_for_each, collect, validate_all, collect_all}

module _ {A : Type 0} (parse : Bytes → Result (A × Bytes) Error) where
  -- One item after the other, up to the last byte.
  abbrev pub Items : List A → Bytes → Type 0
  Items [] bs = bs ≡ []
  Items (a ∷ l) bs = (rest : Bytes) × (parse bs ≡ ok (a, rest)) × Takes bs rest × Items l rest

  -- The cursor that stands between what it has read and what it has not.
  abbrev pub between : Bytes → Bytes → Cursor
  between front bs = record { bytes = front ++ bs; pos = length front }

  pub read-end : (front : Bytes) → read parse (between front []) ≡ (none, between front [])
  unfolding read
  read-end front = rw (split_at_checked-append front [] (length front) refl)

  pub read-err :
      (front bs : Bytes) (b : ℕ) (e : Error)
      → parse (b ∷ bs) ≡ err e
      → read parse (between front (b ∷ bs)) ≡ (some (err e), between front (b ∷ bs))
  unfolding read
  read-err front bs b e h = rw (split_at_checked-append front (b ∷ bs) (length front) refl, h)

  advance_pos :
      (front bs used rest : Bytes)
      → length (front ++ bs) < usize_mod
      → bs ≡ used ++ rest
      → usize_add (length front) (length bs - length rest) ≡ length (front ++ used)
  advance_pos front bs used rest h s = omega (
    arith,
    length-append front bs,
    ap length s,
    length-append used rest,
    length-append front used,
  )

  pub read-item :
      (front bs : Bytes) (b : ℕ) (a : A) (rest used : Bytes)
      → length (front ++ (b ∷ bs)) < usize_mod
      → parse (b ∷ bs) ≡ ok (a, rest)
      → b ∷ bs ≡ used ++ rest
      → read parse (between front (b ∷ bs)) ≡ (some (ok a), between (front ++ used) rest)
  unfolding read
  read-item front bs b a rest used fits h s = rw (
    split_at_checked-append front (b ∷ bs) (length front) refl,
    h,
    advance_pos front (b ∷ bs) used rest fits s,
    s,
    append_assoc front used rest,
  )

  -- The front of an item is not empty, so neither is what it is read from.
  not_empty : (bs rest : Bytes) → Takes bs rest → (b : ℕ) × (tail : Bytes) × (bs ≡ b ∷ tail)
  not_empty [] rest ([], s, h) = absurd (omega (arith, h))
  not_empty [] rest (u ∷ used, s, h) = cc
  not_empty (b ∷ tail) rest t = (b, tail, refl)

  collect-Items :
      (fuel : ℕ) (front bs : Bytes) (l : List A)
      → length bs < fuel
      → length (front ++ bs) < usize_mod
      → Items l bs
      → collect parse fuel (between front bs) ≡ some l
  unfolding collect
  collect-Items zero front bs l f fits items = absurd (omega (arith, f))
  collect-Items (suc fuel) front bs [] f fits items = rw (items, read-end front)
  collect-Items (suc fuel) front bs (a ∷ l) f fits (rest, h, (used, s, pos), items) =
      let (b, tail, e) = not_empty bs rest (used, s, pos) in
      rw (
        e,
        read-item front tail b a rest used (rw (← e) fits) (rw (← e) h) (rw (← e) s),
        collect-Items fuel (front ++ used) rest l
            (omega (arith, f, pos, ap length s, length-append used rest))
            (rw (append_assoc front used rest, ← s) fits) items,
      )

  try_for_each-Items :
      (check : A → Result (Unit {0}) Error) (fuel : ℕ) (front bs : Bytes) (l : List A)
      → length bs < fuel
      → length (front ++ bs) < usize_mod
      → Items l bs
      → All (λ a. check a ≡ ok tt) l
      → try_for_each parse fuel check (between front bs) ≡ some (ok tt)
  unfolding try_for_each
  try_for_each-Items check zero front bs l f fits items oks = absurd (omega (arith, f))
  try_for_each-Items check (suc fuel) front bs [] f fits items oks = rw (items, read-end front)
  try_for_each-Items check (suc fuel) front bs (a ∷ l) f fits (rest, h, (used, s, pos), items)
        (good, oks) =
      let (b, tail, e) = not_empty bs rest (used, s, pos) in
      rw (
        e,
        read-item front tail b a rest used (rw (← e) fits) (rw (← e) h) (rw (← e) s),
        good,
        try_for_each-Items check fuel (front ++ used) rest l
            (omega (arith, f, pos, ap length s, length-append used rest))
            (rw (append_assoc front used rest, ← s) fits) items oks,
      )

  -- On a field of items that all pass, the loop passes, and the iterator yields them in order.
  pub validate_all-Items :
      (check : A → Result (Unit {0}) Error) (bs : Bytes) (l : List A)
      → length bs < usize_mod
      → Items l bs
      → All (λ a. check a ≡ ok tt) l
      → validate_all parse check bs ≡ ok tt
  unfolding validate_all
  validate_all-Items check bs l fits items oks =
      rw (try_for_each-Items check (suc (length bs)) [] bs l (omega arith) fits items oks)

  pub collect_all-Items :
      (bs : Bytes) (l : List A) → length bs < usize_mod → Items l bs → collect_all parse bs ≡ some l
  unfolding collect_all
  collect_all-Items bs l fits items =
      collect-Items (suc (length bs)) [] bs l (omega arith) fits items
