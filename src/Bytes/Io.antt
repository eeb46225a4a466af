-- ===== src/Bytes/Io.antt =====
-- Actions on a writer `W`. `Write` is the bound `W: std::io::Write`: the two methods that the
-- source calls, and what the standard library promises of `write_all`.
use mcutt.Common.{◌≡◌, ◌++◌}
use mcutt.Bytes.Errors.{Bytes, IoErrorKind, std_io, Error, error, Result, ok, err}
use mcutt.Common.{String}

-- `contents` is what the writer has passed on so far. When `write_all` returns `Ok` that grows by
-- the whole buffer, and otherwise by some front of it.
pub record Write (W : Type 0) : Type 0 where
  pub write_all : Bytes → W → Result (Unit {0}) IoErrorKind × W
  pub flush : W → Result (Unit {0}) IoErrorKind × W
  pub contents : W → Bytes
  pub write_all_ok :
      (bs : Bytes) (w : W)
      → (write_all bs w).0 ≡ ok tt
      → contents (write_all bs w).1 ≡ contents w ++ bs
  pub write_all_front :
      (bs : Bytes) (w : W)
      → (front : Bytes) × (back : Bytes) × (bs ≡ front ++ back)
        × (contents (write_all bs w).1 ≡ contents w ++ front)
  pub flush_contents : (w : W) → contents (flush w).1 ≡ contents w

abbrev pub Io : Type 0 → Type 0 → Type 0
Io W A = W → Result A Error × W

module _ {W : Type 0} where
  abbrev pub pure : {A : Type 0} → A → Io W A
  pure a w = (ok a, w)

  -- A step that does not touch the writer.
  abbrev pub lift : {A : Type 0} → Result A Error → Io W A
  lift r w = (r, w)

  abbrev pub and_then : {A B : Type 0} → Result A Error × W → (A → Io W B) → Result B Error × W
  and_then (ok a, w) f = f a w
  and_then (err e, w) f = (err e, w)

  infixl 5 ◌>>=◌ ◌>>◌
  abbrev pub ◌>>=◌ : {A B : Type 0} → Io W A → (A → Io W B) → Io W B
  ◌>>=◌ m f w = and_then (m w) f

  abbrev pub ◌>>◌ : {A B : Type 0} → Io W A → Io W B → Io W B
  m >> k = m >>= λ _. k

  abbrev pub with_error : {A : Type 0} → (Error → Error) → Result A Error × W → Result A Error × W
  with_error f (ok a, w) = (ok a, w)
  with_error f (err e, w) = (err (f e), w)

  -- `.map_err(f)` on the result of an action.
  abbrev pub map_err : {A : Type 0} → (Error → Error) → Io W A → Io W A
  map_err f m w = with_error f (m w)

-- `map_err(|error| Error::new(ErrorKind::StdIo(error.kind()), msg))`.
abbrev pub from_io :
    {W : Type 0} → String → Result (Unit {0}) IoErrorKind × W → Result (Unit {0}) Error × W
from_io msg (ok a, w) = (ok tt, w)
from_io msg (err k, w) = (err (error (std_io k) msg), w)

module _ {W : Type 0} ⦃writer : Write W⦄ where
  -- `writer.write_all(bs)` with its error mapped.
  abbrev pub write_all : Bytes → String → Io W (Unit {0})
  write_all bs msg w = from_io msg (writer.write_all bs w)

  abbrev pub flush : String → Io W (Unit {0})
  flush msg w = from_io msg (writer.flush w)
