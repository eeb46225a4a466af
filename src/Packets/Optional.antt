-- ===== src/Packets/Optional.antt =====
-- Parts of a packet that are there or not: the `if let Some(..)` of the `Encode` and `Decode` of
-- src/v3/packets/connect/mod.rs.
pub mod Reading
use mcutt.Common.{ℕ, Option, none, some, Bool, true, false, if◌then◌else◌}
use mcutt.Bytes.{Bytes, Error, Result, ok, checked_add, usize_add}
use mcutt.Bytes.Try.{◌>>=◌, map_ok}
use mcutt.Bytes.Io
use mcutt.Bytes.Io.{Io}

abbrev pub is_some {ℓ} : {A : Type ℓ} → Option A → Bool
is_some none = false
is_some (some a) = true

-- `if let Some(v) = v { T::validate(v)?; }`.
abbrev pub validate_part :
    {A : Type 0} → (A → Result (Unit {0}) Error) → Option A → Result (Unit {0}) Error
validate_part validate none = ok tt
validate_part validate (some v) = validate v

-- `len.and_then(|v| v.checked_add(l))`.
abbrev pub and_add : Option ℕ → ℕ → Option ℕ
and_add none l = none
and_add (some n) l = checked_add n l

-- `if let Some(v) = v { let l = T::encode_len(v)?; len = len.and_then(|v| v.checked_add(l)); }`.
abbrev pub add_len :
    {A : Type 0} → (A → Result ℕ Error) → Option A → Option ℕ → Result (Option ℕ) Error
add_len encode_len none len = ok len
add_len encode_len (some v) len = encode_len v >>= λ l. ok (and_add len l)

-- `if let Some(v) = v { written += T::write_sync(writer, v)?; }`.
abbrev pub add_written : {W A : Type 0} → (A → Io W ℕ) → Option A → ℕ → Io W ℕ
add_written write_sync none written = Io.pure written
add_written write_sync (some v) written =
    Io.◌>>=◌ (write_sync v) λ more. Io.pure (usize_add written more)

-- `if present { T::parse(rest).map(|(v, r)| (Some(v), r))? } else { (None, rest) }`.
abbrev pub some_left : {A : Type 0} → A × Bytes → Option A × Bytes
some_left (v, r) = (some v, r)

abbrev pub parse_part :
    {A : Type 0}
    → Bool
    → (Bytes → Result (A × Bytes) Error)
    → Bytes
    → Result (Option A × Bytes) Error
parse_part present parse rest = if present then map_ok some_left (parse rest) else ok (none, rest)
