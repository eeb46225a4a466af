-- ===== src/Slab/Unused.antt =====
-- Entries that were freed are not used again: the chain of free entries is never entered.
use mcutt.Common.{
  ℕ, ◌≤◌, ◌^◌, ◌≡◌, refl, ap, Bool, true, false, Option, none, some, List, [], ◌∷◌, ◌++◌, length,
  length-set, get_elem?, get_elem?-append_end, set, ltb, leb, if◌then◌else◌, arith,
}
use mcutt.Bytes.{Result, ok, err}
use mcutt.Slab.{
  Slab, Entry, free, occupied, stored, push_free, reserve, reserve_next, put, insert_at, insert,
  try_put, try_insert_at, try_insert, take_entry, remove,
}

-- What holds of every slab that was made by `new` and changed by the operations.
pub record IsUnchained {ℓ} {T : Type ℓ} (s : Slab T) : Type ℓ where
  pub chain : s.next_free ≡ none
  pub fits : length s.store ≤ s.max_items

module _ {ℓ} {T : Type ℓ} where
  -- The slab after a new entry for `value` was pushed.
  abbrev pub grown : Slab T → Entry T → Slab T
  grown s e = record s { store = s.store ++ (e ∷ []) }

  abbrev pub has_room : Slab T → Bool
  has_room s =
      if ltb (length s.store) (2 ^ 16)
      then (if leb s.max_items (length s.store) then false else true)
      else false

  set-append_end :
      (xs : List (Entry T)) (a b : Entry T) → set (xs ++ (a ∷ [])) (length xs) b ≡ xs ++ (b ∷ [])
  set-append_end [] a b = refl
  set-append_end (x ∷ xs) a b = ap (λ r. x ∷ r) (set-append_end xs a b)

  -- Without a chain the next index is the length of the store.
  pub reserve_next-room :
      (s : Slab T)
      → IsUnchained s
      → has_room s ≡ true
      → reserve_next s ≡ (some (length s.store), grown s (free none))
  unfolding reserve_next reserve push_free
  reserve_next-room s u h = rw u.chain (ground arith)

  pub reserve_next-full :
      (s : Slab T) → IsUnchained s → has_room s ≡ false → reserve_next s ≡ (none, s)
  unfolding reserve_next reserve push_free
  reserve_next-full s u h = rw u.chain (ground arith)

  -- The slab after `value` was inserted at a new index.
  abbrev pub with_new : Slab T → T → Slab T
  with_new s value = record s { next_free = none; store = s.store ++ (occupied value ∷ []) }

  put_new :
      {O : Type ℓ} (s : Slab T) (value : T) (out : O)
      → put
          (length s.store)
          value
          out
          (get_elem? (s.store ++ (free none ∷ [])) (length s.store))
          (grown s (free none))
        ≡ (some out, with_new s value)
  unfolding put stored
  put_new s value out = rw (get_elem?-append_end s.store (free none)) (λ i. (
    some out,
    record s { next_free = none; store = set-append_end s.store (free none) (occupied value) i },
  ))

  -- With room, `insert` takes a new index, at the end of the store.
  pub insert-room :
      {O : Type ℓ} (f : ℕ → T × O) (s : Slab T)
      → IsUnchained s
      → has_room s ≡ true
      → insert f s ≡ (some (f (length s.store)).1, with_new s (f (length s.store)).0)
  unfolding insert insert_at
  insert-room f s u h =
      rw (reserve_next-room s u h) (put_new s (f (length s.store)).0 (f (length s.store)).1)

  pub insert-full :
      {O : Type ℓ} (f : ℕ → T × O) (s : Slab T)
      → IsUnchained s
      → has_room s ≡ false
      → insert f s ≡ (none, s)
  unfolding insert insert_at
  insert-full f s u h = rw (reserve_next-full s u h)

  -- What `try_insert` makes of the closure's result, with room.
  abbrev pub tried : {O E : Type ℓ} → Slab T → Result (T × O) E → Result (Option O) E × Slab T
  tried s (ok (value, out)) = (ok (some out), with_new s value)
  tried s (err e) = (err e, grown s (free none))

  try_put_new :
      {O E : Type ℓ} (s : Slab T) (r : Result (T × O) E)
      → try_put (length s.store) r (grown s (free none)) ≡ tried s r
  unfolding try_put
  try_put_new s (err e) = refl
  try_put_new s (ok (value, out)) = rw (put_new s value out)

  pub try_insert-room :
      {O E : Type ℓ} (f : ℕ → Result (T × O) E) (s : Slab T)
      → IsUnchained s
      → has_room s ≡ true
      → try_insert f s ≡ tried s (f (length s.store))
  unfolding try_insert try_insert_at
  try_insert-room f s u h = rw (reserve_next-room s u h) (try_put_new s (f (length s.store)))

  pub try_insert-full :
      {O E : Type ℓ} (f : ℕ → Result (T × O) E) (s : Slab T)
      → IsUnchained s
      → has_room s ≡ false
      → try_insert f s ≡ (ok none, s)
  unfolding try_insert try_insert_at
  try_insert-full f s u h = rw (reserve_next-full s u h)

  pub length-remove :
      (i : ℕ) (s : Slab T)
      → ((remove i s).1.next_free ≡ s.next_free)
        × ((remove i s).1.max_items ≡ s.max_items)
        × (length (remove i s).1.store ≡ length s.store)
  unfolding remove
  length-remove i s = go (get_elem? s.store i)
    where
      go :
          (o : Option (Entry T))
          → ((take_entry i o s).1.next_free ≡ s.next_free)
            × ((take_entry i o s).1.max_items ≡ s.max_items)
            × (length (take_entry i o s).1.store ≡ length s.store)
      go none = unfold take_entry in (refl, refl, refl)
      go (some (free n)) = unfold take_entry in (refl, refl, length-set s.store i (free n))
      go (some (occupied v)) =
          unfold take_entry in (refl, refl, length-set s.store i (free s.next_free))
