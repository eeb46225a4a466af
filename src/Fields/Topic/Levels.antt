-- ===== src/Fields/Topic/Levels.antt =====
-- Topic filters as levels, the parts between slashes, which is how the protocol states the rules
-- for wildcards: `+` is a whole level, `#` is a whole level and the last one.
use mcutt.Common.{
  ℕ, suc, ◌+◌, ◌≡◌, refl, sym, ap, ◌∙◌, inl, inr, Bool, true, false, not, ◌&&◌, ◌||◌, Bool-cases,
  ==_iff, Option, some, List, [], ◌∷◌, get_elem?, all, ◌==◌, if◌then◌else◌, arith,
}
use mcutt.Bytes.{Bytes}
use mcutt.External.Memchr.{Memchr, positions}
use mcutt.Fields.Topic.{is_none_or, before, valid_at, has_valid_wildcard}

-- The level that a text starts with, and the levels behind it.
abbrev slash : ℕ → Bytes × List Bytes → Bytes × List Bytes
slash c (l, ls) = if c == b'/' then ([], l ∷ ls) else (c ∷ l, ls)

abbrev first_level : Bytes → Bytes × List Bytes
first_level [] = ([], [])
first_level (c ∷ cs) = slash c (first_level cs)

-- The levels of a topic filter.
abbrev pub levels : Bytes → List Bytes
levels cs = (first_level cs).0 ∷ (first_level cs).1

abbrev is_wild : ℕ → Bool
is_wild c = c == b'+' || c == b'#'

abbrev is_nil : {A : Type 0} → List A → Bool
is_nil [] = true
is_nil (x ∷ xs) = false

-- One level: without wildcards, or `+`, or `#` if it is the last.
abbrev pub level_ok : Bool → Bytes → Bool
level_ok is_last [] = true
level_ok is_last (c ∷ cs) =
    if c == b'+'
    then is_nil cs
    else if c == b'#'
    then is_last && is_nil cs
    else all (λ b. not (is_wild b)) cs

abbrev pub levels_ok : List Bytes → Bool
levels_ok [] = true
levels_ok (l ∷ ls) = level_ok (is_nil ls) l && levels_ok ls

-- The test of the code in one pass: whether a level starts here, and what is left.
abbrev next_ok : ℕ → Bytes → Bool
next_ok c cs = is_none_or (λ d. (d == b'/') && (c == b'+')) (get_elem? cs 0)

abbrev scan : Bool → Bytes → Bool
scan starts [] = true
scan starts (c ∷ cs) =
    let rest = scan (c == b'/') cs in if is_wild c then (starts && next_ok c cs) && rest else rest

abbrev starts_at : Option ℕ → Bool
starts_at prev = is_none_or (λ c. c == b'/') prev

all-if :
    (p : ℕ → Bool) (b : Bool) (i : ℕ) (is : List ℕ)
    → all p (if b then i ∷ is else is) ≡ (if b then p i && all p is else all p is)
all-if p true i is = refl
all-if p false i is = refl

valid_at-scan :
    (t : Bytes) (i c : ℕ) (cs : Bytes)
    → get_elem? t i ≡ some c
    → get_elem? t (i + 1) ≡ get_elem? cs 0
    → valid_at t i ≡ (starts_at (before t i) && next_ok c cs)
unfolding valid_at
valid_at-scan t i c cs here next = rw (here, next) refl

-- The code's test of all positions from `i` on is the pass over what stands there.
all-scan :
    (t : Bytes) (i : ℕ) (cs : Bytes)
    → ((k : ℕ) → get_elem? t (i + k) ≡ get_elem? cs k)
    → all (valid_at t) (positions i b'+' b'#' cs) ≡ scan (starts_at (before t i)) cs
all-scan t i [] h = refl
all-scan t i (c ∷ cs) h =
    let same : i + 0 ≡ i = omega arith in
    let after : i + 1 ≡ suc i = omega arith in
    let here : get_elem? t i ≡ some c = sym (ap (get_elem? t) same) ∙ h 0 in
    let behind : before t (i + 1) ≡ some c = ap (before t) after ∙ here in
    let rest = all-scan t (i + 1) cs (λ k.
      let shift : i + 1 + k ≡ i + suc k = omega arith in ap (get_elem? t) shift ∙ h (suc k)) in
    let rest' : all (valid_at t) (positions (i + 1) b'+' b'#' cs) ≡ scan (c == b'/') cs =
      rest ∙ ap (λ p. scan (starts_at p) cs) behind in
    all-if (valid_at t) (is_wild c) i (positions (i + 1) b'+' b'#' cs)
    ∙ (λ j. if is_wild c then valid_at-scan t i c cs here (h 1) j && rest' j else rest' j)

-- The pass, by levels: `l` is what is left of the level that `cs` starts in.
abbrev left_ok : Bool → Bytes → List Bytes → Bool
left_ok true l ls = level_ok (is_nil ls) l && levels_ok ls
left_ok false l ls = all (λ b. not (is_wild b)) l && levels_ok ls

-- What follows a wildcard ends its level, and behind `#` the text.
next_ok-plus : (cs : Bytes) → next_ok b'+' cs ≡ is_nil (first_level cs).0
next_ok-plus [] = refl
next_ok-plus (d ∷ cs) = elim (Bool-cases (d == b'/')) [ inl h ↦ rw h refl | inr h ↦ rw h refl ]

next_ok-hash :
    (cs : Bytes) → next_ok b'#' cs ≡ (is_nil (first_level cs).0 && is_nil (first_level cs).1)
next_ok-hash [] = refl
next_ok-hash (d ∷ cs) = elim (Bool-cases (d == b'/')) [ inl h ↦ rw h refl | inr h ↦ rw h refl ]

-- The pass over `cs` says whether the levels of `cs` are allowed.
abbrev Agrees : Bool → Bytes → Type 0
Agrees starts cs = scan starts cs ≡ left_ok starts (first_level cs).0 (first_level cs).1

slash-Agrees : (starts : Bool) (cs : Bytes) → Agrees true cs → Agrees starts (b'/' ∷ cs)
slash-Agrees true cs h = h
slash-Agrees false cs h = h

plus_rest :
    (l : Bytes) (b : Bool) → (is_nil l && (all (λ x. not (is_wild x)) l && b)) ≡ (is_nil l && b)
plus_rest [] b = refl
plus_rest (x ∷ l) b = refl

plus-Agrees : (starts : Bool) (cs : Bytes) → Agrees false cs → Agrees starts (b'+' ∷ cs)
plus-Agrees true cs h =
    rw (next_ok-plus cs, h) (plus_rest (first_level cs).0 (levels_ok (first_level cs).1))
plus-Agrees false cs h = refl

hash_rest :
    (l : Bytes) (ls : List Bytes)
    → ((is_nil l && is_nil ls) && (all (λ x. not (is_wild x)) l && levels_ok ls))
      ≡ ((is_nil ls && is_nil l) && levels_ok ls)
hash_rest [] [] = refl
hash_rest [] (x ∷ ls) = refl
hash_rest (x ∷ l) [] = refl
hash_rest (x ∷ l) (y ∷ ls) = refl

hash-Agrees : (starts : Bool) (cs : Bytes) → Agrees false cs → Agrees starts (b'#' ∷ cs)
hash-Agrees true cs h = rw (next_ok-hash cs, h) (hash_rest (first_level cs).0 (first_level cs).1)
hash-Agrees false cs h = refl

other-Agrees :
    (starts : Bool) (c : ℕ) (cs : Bytes)
    → (c == b'/') ≡ false
    → (c == b'+') ≡ false
    → (c == b'#') ≡ false
    → Agrees false cs
    → Agrees starts (c ∷ cs)
other-Agrees true c cs s p q h = rw (s, p, q) h
other-Agrees false c cs s p q h = rw (s, p, q) h

scan-Agrees : (starts : Bool) (cs : Bytes) → Agrees starts cs
scan-Agrees true [] = refl
scan-Agrees false [] = refl
scan-Agrees starts (c ∷ cs) = elim (Bool-cases (c == b'/')) [
  | inl s ↦ let e = (==_iff c b'/').0 s in rw e (slash-Agrees starts cs (scan-Agrees true cs))
  | inr s ↦ elim (Bool-cases (c == b'+')) [
    | inl p ↦ let e = (==_iff c b'+').0 p in rw e (plus-Agrees starts cs (scan-Agrees false cs))
    | inr p ↦ elim (Bool-cases (c == b'#')) [
      | inl q ↦ let e = (==_iff c b'#').0 q in rw e (hash-Agrees starts cs (scan-Agrees false cs))
      | inr q ↦ other-Agrees starts c cs s p q (scan-Agrees false cs)
    ]
  ]
]

module _ ⦃m : Memchr⦄ where
  -- For every text, the code's test of the neighbours of each wildcard holds exactly if the levels
  -- are allowed: `+` and `#` stand only alone in a level, and `#` only in the last one.
  pub has_valid_wildcard-levels : (t : Bytes) → has_valid_wildcard t ≡ levels_ok (levels t)
  unfolding has_valid_wildcard
  has_valid_wildcard-levels t =
      ap (all (valid_at t)) (m.memchr2_iter_lem b'+' b'#' t)
      ∙ (all-scan t 0 t (λ k. ap (get_elem? t) (shift k)) ∙ scan-Agrees true t)
    where
      shift : (k : ℕ) → 0 + k ≡ k
      shift k = omega arith
