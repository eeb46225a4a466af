-- ===== src/Tests/Slots.antt =====
-- The slab, with two values in three places.
use mcutt.Common.{ℕ, ◌≤◌, ◌≡◌, refl, if◌then◌else◌, ◌==◌, ◌&&◌, none, some, [], ◌∷◌, length, arith}
use mcutt.Slab.{Slab, Entry, free, occupied, insert, remove, get, get_mut}
use mcutt.Slab.Unused.{IsUnchained, has_room}
use mcutt.Slab.Lookup.{get-insert, get-remove}
use mcutt.Slab.Capacity.{inserts, tries, removes, stored_total, stored_total-le-max_items}
use mcutt.Slab

abbrev two_stored : Slab ℕ
two_stored = record { max_items = 3; next_free = none; store = occupied 70 ∷ free none ∷ [] }

two_stored-IsUnchained : IsUnchained two_stored
two_stored-IsUnchained = record { chain = refl; fits = omega arith }

get-insert_example :
    ((insert {O = ℕ} (λ i. (i, 5)) two_stored).0 ≡ (if has_room two_stored then some 5 else none))
    × (get (insert {O = ℕ} (λ i. (i, 5)) two_stored).1 2 ≡ (
        if has_room two_stored && (2 == length two_stored.store) then some 2 else get two_stored 2))
    × IsUnchained (insert {O = ℕ} (λ i. (i, 5)) two_stored).1
get-insert_example = get-insert {O = ℕ} (λ i. (i, 5)) two_stored 2 two_stored-IsUnchained

get-remove_example :
    ((remove 0 two_stored).0 ≡ get two_stored 0)
    × (get (remove 0 two_stored).1 0 ≡ (if 0 == 0 then none else get two_stored 0))
get-remove_example = get-remove two_stored 0 0

stored_total-le-max_items_example :
    stored_total {T = ℕ} (inserts 4 ∷ removes 0 ∷ tries none ∷ inserts 5 ∷ []) (Slab.new 1) ≤ 1
stored_total-le-max_items_example =
    stored_total-le-max_items 1 (inserts 4 ∷ removes 0 ∷ tries none ∷ inserts 5 ∷ [])
