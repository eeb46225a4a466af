-- ===== src/Sync/Read.antt =====
-- The bound `R: std::io::Read`: the two methods that src/sync.rs calls, and what the standard
-- library promises of them. A call is given the buffer, and returns what is in it afterwards.
use mcutt.Common.{ℕ, ◌<◌, ◌≤◌, ◌≡◌, ◌++◌, take, length, min}
use mcutt.Bytes.{Bytes, IoErrorKind, Result, ok, err}

-- `pending` is what the reader has still to give. `read` returns the number of bytes that it put at
-- the front of the buffer, and on an error has taken nothing; `read_exact` fills the buffer, and on
-- an error says nothing of what it has taken.
pub record Read (R : Type 0) : Type 0 where
  pub read : Bytes → R → Result ℕ IoErrorKind × Bytes × R
  pub read_exact : Bytes → R → Result (Unit {0}) IoErrorKind × Bytes × R
  pub pending : R → Bytes
  pub read_len : (buf : Bytes) (r : R) → length (read buf r).1 ≡ length buf
  pub read_ok :
      (buf : Bytes) (r : R) (n : ℕ)
      → (read buf r).0 ≡ ok n
      → (n ≤ length buf) × (pending r ≡ take n (read buf r).1 ++ pending (read buf r).2)
  pub read_err :
      (buf : Bytes) (r : R) (e : IoErrorKind)
      → (read buf r).0 ≡ err e
      → pending (read buf r).2 ≡ pending r
  pub read_exact_len : (buf : Bytes) (r : R) → length (read_exact buf r).1 ≡ length buf
  pub read_exact_ok :
      (buf : Bytes) (r : R)
      → (read_exact buf r).0 ≡ ok tt
      → pending r ≡ (read_exact buf r).1 ++ pending (read_exact buf r).2

-- A socket whose calls succeed as long as it has bytes to give, such as a slice `&[u8]`.
pub record IsLive (R : Type 0) ⦃reader : Read R⦄ : Type 0 where
  pub read_some :
      (buf : Bytes) (r : R)
      → 0 < length buf
      → 0 < length (reader.pending r)
      → (n : ℕ) × ((reader.read buf r).0 ≡ ok n) × (0 < n)
  pub read_all :
      (buf : Bytes) (r : R)
      → length buf ≤ length (reader.pending r)
      → (reader.read_exact buf r).0 ≡ ok tt

-- A socket that gives as much as it has, up to the length of the buffer.
pub record IsGreedy (R : Type 0) ⦃reader : Read R⦄ : Type 0 where
  pub read_all :
      (buf : Bytes) (r : R)
      → (reader.read buf r).0 ≡ ok (min (length buf) (length (reader.pending r)))
