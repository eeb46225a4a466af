-- ===== src/Slab.antt =====
-- src/slab.rs: the store of published packets, a vector of entries with a chain of free ones.
-- The capacity of the vector, which only says when it is moved, is left out.
pub mod Unused
pub mod Lookup
pub mod Capacity
use mcutt.Common.{
  ℕ, ◌+◌, ◌<◌, ◌^◌, Bool, true, false, Option, none, some, List, [], ◌∷◌, ◌++◌, length, get_elem?,
  set, ltb, leb, if◌then◌else◌,
}
use mathlib.Core.Option
use mcutt.Bytes.{Result, ok, err}

pub data Entry {ℓ} (T : Type ℓ) : Type ℓ where
  free : Option ℕ → Entry T
  occupied : T → Entry T

pub record Slab {ℓ} (T : Type ℓ) : Type ℓ where
  pub max_items : ℕ
  pub next_free : Option ℕ
  pub store : List (Entry T)

-- `u16::try_from(len).ok()`.
abbrev pub u16_from : ℕ → Option ℕ
u16_from n = if ltb n (2 ^ 16) then some n else none

module _ {ℓ} {T : Type ℓ} where
  pub new : ℕ → Slab T
  new max_items = record { max_items = max_items; next_free = none; store = [] }

  pub as_occupied : Entry T → Option T
  as_occupied (free n) = none
  as_occupied (occupied v) = some v

  -- What `Entry::store` returns: the chain's next entry.
  pub stored : Entry T → Option ℕ
  stored (free next_free) = next_free
  stored (occupied v) = none

  pub push_free : Option ℕ → Slab T → Option ℕ × Slab T
  push_free none s = (none, s)
  push_free (some idx) s =
      if leb s.max_items idx
      then (none, s)
      else (some idx, record s { store = s.store ++ (free none ∷ []) })

  pub reserve : Option ℕ → Slab T → Option ℕ × Slab T
  unfolding push_free
  reserve (some next_free) s = (some next_free, s)
  reserve none s = push_free (u16_from (length s.store)) s

  -- Returns the next free index or reserves a new empty one.
  pub reserve_next : Slab T → Option ℕ × Slab T
  unfolding reserve
  reserve_next s = reserve s.next_free s

  -- `self.next_free = self.store.get_mut(idx)?.store(value)`, then `Some(out)`.
  pub put : {O : Type ℓ} → ℕ → T → O → Option (Entry T) → Slab T → Option O × Slab T
  unfolding stored
  put idx value out none s = (none, s)
  put idx value out (some entry) s =
      (some out, record s { next_free = stored entry; store = set s.store idx (occupied value) })

  insert_at : {O : Type ℓ} → (ℕ → T × O) → Option ℕ × Slab T → Option O × Slab T
  unfolding put
  insert_at f (none, s) = (none, s)
  insert_at f (some idx, s) =
      let (value, out) = f idx in put idx value out (get_elem? s.store idx) s

  -- Inserts a value in the first free element; the closure makes it from the index.
  pub insert : {O : Type ℓ} → (ℕ → T × O) → Slab T → Option O × Slab T
  unfolding reserve_next insert_at
  insert f s = insert_at f (reserve_next s)

  -- The rest of `try_insert` after the closure has run.
  try_put : {O E : Type ℓ} → ℕ → Result (T × O) E → Slab T → Result (Option O) E × Slab T
  unfolding put
  try_put idx (err e) s = (err e, s)
  try_put idx (ok (value, out)) s =
      let (o, s') = put idx value out (get_elem? s.store idx) s in (ok o, s')

  try_insert_at :
      {O E : Type ℓ} → (ℕ → Result (T × O) E) → Option ℕ × Slab T → Result (Option O) E × Slab T
  unfolding try_put
  try_insert_at f (none, s) = (ok none, s)
  try_insert_at f (some idx, s) = try_put idx (f idx) s

  -- `insert` with a closure that may fail.
  pub try_insert : {O E : Type ℓ} → (ℕ → Result (T × O) E) → Slab T → Result (Option O) E × Slab T
  unfolding reserve_next try_insert_at
  try_insert f s = try_insert_at f (reserve_next s)

  -- `remove` on the entry that `get_mut` found: a free one is put back as it was.
  take_entry : ℕ → Option (Entry T) → Slab T → Option T × Slab T
  take_entry idx none s = (none, s)
  take_entry idx (some (free n)) s = (none, record s { store = set s.store idx (free n) })
  take_entry idx (some (occupied value)) s =
      (some value, record s { store = set s.store idx (free s.next_free) })

  -- Removes an element from the slab given the index.
  pub remove : ℕ → Slab T → Option T × Slab T
  unfolding take_entry
  remove idx s = take_entry idx (get_elem? s.store idx) s

  -- Returns an occupied element given the index.
  pub get : Slab T → ℕ → Option T
  unfolding as_occupied
  get s idx = Option.bind (get_elem? s.store idx) as_occupied

  update_entry : (T → T) → ℕ → Option (Entry T) → Slab T → Option T × Slab T
  update_entry g idx none s = (none, s)
  update_entry g idx (some (free n)) s = (none, s)
  update_entry g idx (some (occupied v)) s =
      (some v, record s { store = set s.store idx (occupied (g v)) })

  -- `get_mut`, with the change `g` that the caller makes through the reference.
  pub get_mut : (T → T) → ℕ → Slab T → Option T × Slab T
  unfolding update_entry
  get_mut g idx s = update_entry g idx (get_elem? s.store idx) s
