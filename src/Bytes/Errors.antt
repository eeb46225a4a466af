-- ===== src/Bytes/Errors.antt =====
-- `ErrorKind`, `Error` and Rust's `Result`. Of `std::io::ErrorKind` the source names two values;
-- `other` stands for the rest of them.
use mcutt.Common.{ℕ, ◌+◌, ◌%◌, ◌^◌, List, String, Option, none, some, ltb, if◌then◌else◌}

abbrev pub Bytes : Type 0
Bytes = List ℕ

pub data IoErrorKind : Type 0 where
  would_block unexpected_eof : IoErrorKind
  other : ℕ → IoErrorKind

pub data ErrorKind : Type 0 where
  out_of_range not_enough_space overflow invalid : ErrorKind
  std_io : IoErrorKind → ErrorKind

pub record Error : Type 0 where
  pub kind : ErrorKind
  pub msg : String

-- `Error::new`.
abbrev pub error : ErrorKind → String → Error
error k m = record { kind = k; msg = m }

pub data Result {ℓ} (A E : Type ℓ) : Type ℓ where
  ok : A → Result A E
  err : E → Result A E

-- A `usize` has 64 bits.
abbrev pub usize_mod : ℕ
usize_mod = 2 ^ 64

-- `usize` addition, which wraps in a release build.
abbrev pub usize_add : ℕ → ℕ → ℕ
usize_add a b = (a + b) % usize_mod

-- `usize::checked_add`.
abbrev pub checked_add : ℕ → ℕ → Option ℕ
checked_add a b = if ltb (a + b) usize_mod then some (a + b) else none

-- `Option::ok_or`.
abbrev pub ok_or {ℓ} : {A E : Type ℓ} → E → Option A → Result A E
ok_or e none = err e
ok_or e (some a) = ok a
