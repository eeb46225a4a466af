-- ===== src/Slab/Lookup.antt =====
-- The slab as a map from indices to values: what `get` returns after each operation.
use mathlib.Core.Option
use mcutt.Common.{
  ℕ, zero, suc, ◌≡◌, refl, ap, inl, inr, true, Option, none, some, List, [], ◌∷◌, ◌++◌, length,
  length-append, get_elem?, set, ==_iff, Bool-cases, ◌&&◌, ◌==◌, if◌then◌else◌, arith,
}
use mcutt.Slab.Unused.{IsUnchained, has_room, with_new, insert-room, insert-full}
use mcutt.Slab.{
  Slab, Entry, free, occupied, as_occupied, insert, take_entry, remove, get, update_entry, get_mut,
}

-- What `get` reads of an entry list.
abbrev pub entry {ℓ} : {T : Type ℓ} → List (Entry T) → ℕ → Option (Entry T)
entry = get_elem?

module _ {ℓ} {T : Type ℓ} where
  abbrev value : Option (Entry T) → Option T
  value none = none
  value (some (free n)) = none
  value (some (occupied v)) = some v

  get-value : (s : Slab T) (j : ℕ) → get s j ≡ value (get_elem? s.store j)
  unfolding get as_occupied Option.bind
  get-value s j = ground arith

  -- Writing an entry that is there changes that entry alone.
  get_elem?-set :
      (xs : List (Entry T)) (i j : ℕ) (old new' : Entry T)
      → get_elem? xs i ≡ some old
      → get_elem? (set xs i new') j ≡ (if j == i then some new' else get_elem? xs j)
  get_elem?-set [] i j old new' h = cc
  get_elem?-set (x ∷ xs) zero zero old new' h = refl
  get_elem?-set (x ∷ xs) zero (suc j) old new' h = ground arith
  get_elem?-set (x ∷ xs) (suc i) zero old new' h = ground arith
  get_elem?-set (x ∷ xs) (suc i) (suc j) old new' h =
      ground (arith, get_elem?-set xs i j old new' h)

  remove_entry :
      (s : Slab T) (i j : ℕ) (o : Option (Entry T))
      → get_elem? s.store i ≡ o
      → ((take_entry i o s).0 ≡ value o)
        × (value (get_elem? (take_entry i o s).1.store j)
            ≡ (if j == i then none else value (get_elem? s.store j)))
  unfolding take_entry
  remove_entry s i j none h = (refl, ground (arith, ==_iff j i))
  remove_entry s i j (some (free n)) h =
      (refl, ground (arith, ==_iff j i, get_elem?-set s.store i j (free n) (free n) h))
  remove_entry s i j (some (occupied v)) h =
      (refl, ground (arith, get_elem?-set s.store i j (occupied v) (free s.next_free) h))

  -- `remove` returns what `get` returns, and afterwards the index is vacant; no other changes.
  pub get-remove :
      (s : Slab T) (i j : ℕ)
      → ((remove i s).0 ≡ get s i) × (get (remove i s).1 j ≡ (if j == i then none else get s j))
  unfolding remove
  get-remove s i j =
      rw (get-value s i, get-value s j, get-value (remove i s).1 j) (remove_entry s i j _ refl)

  get_mut_entry :
      (g : T → T) (s : Slab T) (i j : ℕ) (o : Option (Entry T))
      → get_elem? s.store i ≡ o
      → ((update_entry g i o s).0 ≡ value o)
        × (value (get_elem? (update_entry g i o s).1.store j)
            ≡ (if j == i then Option.map g (value o) else value (get_elem? s.store j)))
  unfolding update_entry
  get_mut_entry g s i j none h = (refl, ground (arith, ==_iff j i))
  get_mut_entry g s i j (some (free n)) h = (refl, ground (arith, ==_iff j i))
  get_mut_entry g s i j (some (occupied v)) h =
      (refl, ground (arith, get_elem?-set s.store i j (occupied v) (occupied (g v)) h))

  -- `get_mut` returns what `get` returns; the change `g` reaches that value and no other.
  pub get-get_mut :
      (g : T → T) (s : Slab T) (i j : ℕ)
      → ((get_mut g i s).0 ≡ get s i)
        × (get (get_mut g i s).1 j ≡ (if j == i then Option.map g (get s i) else get s j))
  unfolding get_mut
  get-get_mut g s i j =
      rw (get-value s i, get-value s j, get-value (get_mut g i s).1 j)
        (get_mut_entry g s i j _ refl)

  get_elem?-append :
      (xs : List (Entry T)) (e : Entry T) (j : ℕ)
      → get_elem? (xs ++ (e ∷ [])) j ≡ (if j == length xs then some e else get_elem? xs j)
  get_elem?-append [] e zero = refl
  get_elem?-append [] e (suc j) = ground arith
  get_elem?-append (x ∷ xs) e zero = ground arith
  get_elem?-append (x ∷ xs) e (suc j) = ground (arith, get_elem?-append xs e j)

  get-with_new :
      (s : Slab T) (v : T) (j : ℕ)
      → get (with_new s v) j ≡ (if j == length s.store then some v else get s j)
  get-with_new s v j =
      rw (get-value s j, get-value (with_new s v) j)
        (ground (arith, get_elem?-append s.store (occupied v) j))

  with_new-IsUnchained :
      (s : Slab T) (v : T) → IsUnchained s → has_room s ≡ true → IsUnchained (with_new s v)
  with_new-IsUnchained s v u h = record {
    chain = refl;
    fits = ground (arith, length-append s.store (occupied v ∷ []));
  }

  insert-IsUnchained :
      {O : Type ℓ} (f : ℕ → T × O) (s : Slab T) → IsUnchained s → IsUnchained (insert f s).1
  insert-IsUnchained f s u = elim (Bool-cases (has_room s)) [
    | inl h ↦ rw (insert-room f s u h) (with_new-IsUnchained s (f (length s.store)).0 u h)
    | inr h ↦ rw (insert-full f s u h) u
  ]

  -- On a slab with no chain of free entries, while its store, removed entries included, is shorter than
  -- `max_items` and than 2^16: `insert` runs the closure on the index behind the store, also when
  -- entries in front of it are free, returns its second result, and from then on `get` finds its first
  -- result there; no other index changes. With a store that long it returns `none` and no index
  -- changes, also when all entries are free. No chain comes up.
  pub get-insert :
      {O : Type ℓ} (f : ℕ → T × O) (s : Slab T) (j : ℕ)
      → IsUnchained s
      → ((insert f s).0 ≡ (if has_room s then some (f (length s.store)).1 else none))
        × (get (insert f s).1 j ≡ (
            if has_room s && (j == length s.store) then some (f (length s.store)).0 else get s j))
        × IsUnchained (insert f s).1
  get-insert f s j u = elim (Bool-cases (has_room s)) [
    | inl h ↦ rw h (
      ap (λ r. r.0) (insert-room f s u h),
      rw (insert-room f s u h) (get-with_new s (f (length s.store)).0 j),
      insert-IsUnchained f s u,
    )
    | inr h ↦ rw h (
      ap (λ r. r.0) (insert-full f s u h),
      rw (insert-full f s u h) refl,
      insert-IsUnchained f s u,
    )
  ]
