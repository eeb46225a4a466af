-- ===== src/Slab/Capacity.antt =====
-- How many values a slab takes over its life, whatever is removed from it.
use mcutt.Common.{
  ℕ, ◌+◌, ◌≤◌, ◌≡◌, refl, ◌∙◌, inl, inr, true, Option, none, some, List, [], ◌∷◌, length,
  length-append, Bool-cases, arith,
}
use mcutt.Bytes.{Result, ok, err}
use mcutt.Slab.{Slab, Entry, free, occupied, new, insert, try_insert, remove}
use mcutt.Slab.Unused.{
  IsUnchained, grown, with_new, has_room, insert-room, insert-full, try_insert-room,
  try_insert-full, length-remove,
}

-- One call of an operation that may change which entries are in use. An insertion stores a value;
-- the closure of `try_insert` makes one or fails.
pub data Op (T : Type 0) : Type 0 where
  inserts : T → Op T
  tries : Option T → Op T
  removes : ℕ → Op T

abbrev count_some : Option (Unit {0}) → ℕ
count_some none = 0
count_some (some u) = 1

abbrev count_ok : Result (Option (Unit {0})) (Unit {0}) → ℕ
count_ok (ok o) = count_some o
count_ok (err e) = 0

module _ {T : Type 0} where
  abbrev attempt : Option T → Result (T × Unit {0}) (Unit {0})
  attempt none = err tt
  attempt (some v) = ok (v, tt)

  -- The number of values stored, 0 or 1, and the slab after the call.
  step : Op T → Slab T → ℕ × Slab T
  step (inserts v) s = let (o, s') = insert (λ i. (v, tt)) s in (count_some o, s')
  step (tries v) s = let (r, s') = try_insert (λ i. attempt v) s in (count_ok r, s')
  step (removes i) s = let (o, s') = remove i s in (0, s')

  -- The number of values that a sequence of calls stores.
  pub stored_total : List (Op T) → Slab T → ℕ
  unfolding step
  stored_total [] s = 0
  stored_total (op ∷ ops) s = let (n, s') = step op s in n + stored_total ops s'

  -- A call uses up an index for each value that it stores, and gives none back.
  record Used (s : Slab T) (n : ℕ) (s' : Slab T) : Type 0 where
    chain : s'.next_free ≡ none
    same_max : s'.max_items ≡ s.max_items
    fits : length s'.store ≤ s'.max_items
    used : n + length s.store ≤ length s'.store

  Used-none : (s : Slab T) → IsUnchained s → Used s 0 s
  Used-none s u = record { chain = u.chain; same_max = refl; fits = u.fits; used = omega arith }

  Used-new : (s : Slab T) (v : T) → IsUnchained s → has_room s ≡ true → Used s 1 (with_new s v)
  Used-new s v u h = record {
    chain = refl;
    same_max = refl;
    fits = ground (arith, length-append s.store (occupied v ∷ []));
    used = ground (arith, length-append s.store (occupied v ∷ []));
  }

  abbrev fresh : Entry T
  fresh = free none

  Used-grown : (s : Slab T) → IsUnchained s → has_room s ≡ true → Used s 0 (grown s (free none))
  Used-grown s u h = record {
    chain = u.chain;
    same_max = refl;
    fits = ground (arith, length-append {0} s.store (fresh ∷ []));
    used = ground (arith, length-append {0} s.store (fresh ∷ []));
  }

  step-Used : (op : Op T) (s : Slab T) → IsUnchained s → Used s (step op s).0 (step op s).1
  unfolding step
  step-Used (inserts v) s u = elim (Bool-cases (has_room s)) [
    | inl h ↦ rw (insert-room (λ i. (v, tt)) s u h) (Used-new s v u h)
    | inr h ↦ rw (insert-full (λ i. (v, tt)) s u h) (Used-none s u)
  ]
  step-Used (tries none) s u = elim (Bool-cases (has_room s)) [
    | inl h ↦ rw (try_insert-room (λ i. attempt none) s u h) (Used-grown s u h)
    | inr h ↦ rw (try_insert-full (λ i. attempt none) s u h) (Used-none s u)
  ]
  step-Used (tries (some v)) s u = elim (Bool-cases (has_room s)) [
    | inl h ↦ rw (try_insert-room (λ i. attempt (some v)) s u h) (Used-new s v u h)
    | inr h ↦ rw (try_insert-full (λ i. attempt (some v)) s u h) (Used-none s u)
  ]
  step-Used (removes i) s u =
      let (c, m, l) = length-remove i s in
      record { chain = c ∙ u.chain; same_max = m; fits = omega (arith, u.fits); used = omega arith }

  stored_total-bound :
      (ops : List (Op T)) (s : Slab T)
      → IsUnchained s
      → stored_total ops s + length s.store ≤ s.max_items
  unfolding stored_total
  stored_total-bound [] s u = omega (arith, u.fits)
  stored_total-bound (op ∷ ops) s u =
      let w = step-Used op s u in
      let rest = stored_total-bound ops (step op s).1 (record { chain = w.chain; fits = w.fits }) in
      omega (arith, w.used, w.same_max, rest)

  -- Over its whole life a slab stores at most `max_items` values, whatever is removed in between:
  -- the place of a removed value is never used again.
  pub stored_total-le-max_items :
      (max_items : ℕ) (ops : List (Op T)) → stored_total ops (new max_items) ≤ max_items
  unfolding new
  stored_total-le-max_items max_items ops =
      let empty : Slab T = record { max_items = max_items; next_free = none; store = [] } in
      omega (arith, stored_total-bound ops empty (record { chain = refl; fits = omega arith }))
