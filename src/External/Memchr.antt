-- ===== src/External/Memchr.antt =====
-- The crate memchr: the search for either of two bytes.
use mcutt.Common.{ℕ, ◌+◌, ◌≡◌, ◌||◌, Option, none, some, List, [], ◌∷◌, ◌==◌, if◌then◌else◌}
use mcutt.Bytes.{Bytes}

-- All positions of either byte, in order, counted from `i`.
abbrev pub positions : ℕ → ℕ → ℕ → Bytes → List ℕ
positions i a b [] = []
positions i a b (x ∷ xs) =
    let rest = positions (i + 1) a b xs in if (x == a) || (x == b) then i ∷ rest else rest

abbrev pub first : List ℕ → Option ℕ
first [] = none
first (x ∷ xs) = some x

pub record Memchr : Type 0 where
  pub memchr2 : ℕ → ℕ → Bytes → Option ℕ
  pub memchr2_lem : (a b : ℕ) (bs : Bytes) → memchr2 a b bs ≡ first (positions 0 a b bs)
  pub memchr2_iter : ℕ → ℕ → Bytes → List ℕ
  pub memchr2_iter_lem : (a b : ℕ) (bs : Bytes) → memchr2_iter a b bs ≡ positions 0 a b bs
