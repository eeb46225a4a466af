-- ===== src/Packets/Cursor.antt =====
-- The cursors over the topic filters of a packet. src/v3/packets/subscribe/iter.rs and
-- src/v3/packets/unsubscribe/iter.rs have the same one, but for the parser of an item, which is a
-- parameter here. The loops over a cursor are recursive on fuel.
pub mod Termination
pub mod Items
pub mod Writing
use mathlib.Core.Option
use mcutt.Common.{ℕ, zero, suc, ◌-◌, List, [], ◌∷◌, Option, none, some, length, split_at_checked}
use mcutt.Bytes.{
  Bytes, Error, error, overflow, invalid, Result, ok, err, ok_or, checked_add, usize_add,
}
use mcutt.Bytes.Try.{◌>>=◌}
use mcutt.Bytes.Io
use mcutt.Bytes.Io.{Io}

pub record Cursor : Type 0 where
  pub bytes : Bytes
  pub pos : ℕ

-- `bytes.get(pos..)`.
abbrev pub get_from : ℕ → Bytes → Option Bytes
get_from pos bytes = Option.map (λ (parts : Bytes × Bytes). parts.1) (split_at_checked pos bytes)

-- `filter(|bytes| !bytes.is_empty())`.
abbrev pub non_empty : Option Bytes → Option Bytes
non_empty none = none
non_empty (some []) = none
non_empty (some (b ∷ bs)) = some (b ∷ bs)

-- The cursor at the first of its bytes.
abbrev pub at_start : Bytes → Cursor
at_start bytes = record { bytes = bytes; pos = 0 }

-- The result of a loop. The answer for a lack of fuel is never given, as its theorem shows.
abbrev pub or_out_of_fuel : Option (Result (Unit {0}) Error) → Result (Unit {0}) Error
or_out_of_fuel none = err (error invalid "out of fuel")
or_out_of_fuel (some r) = r

module _ {A : Type 0} (parse : Bytes → Result (A × Bytes) Error) where
  -- The end of `read`: an item moves the position by the bytes that it took.
  abbrev pub advance : Cursor → Bytes → Result (A × Bytes) Error → Option (Result A Error) × Cursor
  advance this bytes (err e) = (some (err e), this)
  advance this bytes (ok (topic, rest)) =
      (some (ok topic), record this { pos = usize_add this.pos (length bytes - length rest) })

  abbrev pub read_at : Cursor → Option Bytes → Option (Result A Error) × Cursor
  read_at this none = (none, this)
  read_at this (some bytes) = advance this bytes (parse bytes)

  pub read : Cursor → Option (Result A Error) × Cursor
  read this = read_at this (non_empty (get_from this.pos this.bytes))

  -- What a loop does with one answer of the cursor: at the end it stops with `finish`, an error is
  -- handed to `fail`, an item to `more`.
  abbrev pub on_next :
      {B : Type 0} → B → (Error → B) → (A → Cursor → B) → Option (Result A Error) × Cursor → B
  on_next finish fail more (none, next) = finish
  on_next finish fail more (some (err e), next) = fail e
  on_next finish fail more (some (ok a), next) = more a next

  -- `for item in cursor { check(item?)? }`. The outer `none` says that the fuel ran out.
  pub try_for_each : ℕ → (A → Result (Unit {0}) Error) → Cursor → Option (Result (Unit {0}) Error)
  try_for_each zero check this = none
  try_for_each (suc fuel) check this =
      on_next (some (ok tt)) (λ e. some (err e))
        (λ a next. elim (check a) [ ok u ↦ try_for_each fuel check next | err e ↦ some (err e) ])
        (read this)

  -- The items that the iterator which calls `expect` yields: `none` is its panic, or no fuel.
  pub collect : ℕ → Cursor → Option (List A)
  collect zero this = none
  collect (suc fuel) this =
      on_next (some []) (λ e. none) (λ a next. Option.map (λ l. a ∷ l) (collect fuel next))
        (read this)

  -- The loops over all items of a field. One round for each byte, and one for the end, are enough.
  unfoldable pub validate_all : (A → Result (Unit {0}) Error) → Bytes → Result (Unit {0}) Error
  unfolding try_for_each
  validate_all check bytes =
      or_out_of_fuel (try_for_each (suc (length bytes)) check (at_start bytes))

  unfoldable pub collect_all : Bytes → Option (List A)
  unfolding collect
  collect_all bytes = collect (suc (length bytes)) (at_start bytes)

-- The `try_fold` of both `encode_len`: the length so far, and the filters that are left.
unfoldable pub fold_len {ℓ} :
    {I : Type ℓ} → (I → Result ℕ Error) → Error → ℕ → List I → Result ℕ Error
fold_len encode_len e len [] = ok len
fold_len encode_len e len (filter ∷ filters) = encode_len filter >>= λ topic.
    ok_or e (checked_add topic len) >>= λ len'. fold_len encode_len e len' filters

-- The `try_fold` of both `write_sync`.
unfoldable pub fold_write : {W I : Type 0} → (I → Io W ℕ) → ℕ → List I → Io W ℕ
fold_write write_sync acc [] = Io.pure acc
fold_write write_sync acc (filter ∷ filters) =
    Io.◌>>=◌ (write_sync filter) λ written. fold_write write_sync (usize_add acc written) filters
