-- ===== src/Common/Lists.antt =====
-- Lists measured, indexed and cut by native numbers: Rust's slices and vectors.
use Prim.Native.Nat.{ℕ, zero, suc, ◌+◌, ◌-◌, ◌<◌, ◌≤◌, min}
use mathlib.Core.Path.{◌≡◌, refl, ap}
use mathlib.Core.Logic.{◌≢◌}
use mathlib.Core.Bool.{Bool, true, ◌&&◌}
use mathlib.Core.List.{List, [], ◌∷◌, ◌++◌, map}
use mathlib.Core.Option
use mathlib.Core.Option.{Option, none, some}
use native.Mathlib.Omega.{arith}

module _ {ℓ} {A : Type ℓ} where
  abbrev pub length : List A → ℕ
  length [] = 0
  length (x ∷ xs) = suc (length xs)

  abbrev pub get_elem? : List A → ℕ → Option A
  get_elem? [] i = none
  get_elem? (x ∷ xs) zero = some x
  get_elem? (x ∷ xs) (suc i) = get_elem? xs i

  abbrev pub set : List A → ℕ → A → List A
  set [] i v = []
  set (x ∷ xs) zero v = v ∷ xs
  set (x ∷ xs) (suc i) v = x ∷ set xs i v

  abbrev pub take : ℕ → List A → List A
  take zero xs = []
  take (suc n) [] = []
  take (suc n) (x ∷ xs) = x ∷ take n xs

  abbrev pub drop : ℕ → List A → List A
  drop zero xs = xs
  drop (suc n) [] = []
  drop (suc n) (x ∷ xs) = drop n xs

  abbrev pub replicate : ℕ → A → List A
  replicate zero a = []
  replicate (suc n) a = a ∷ replicate n a

  abbrev pub All {κ} : (A → Type κ) → List A → Type κ
  All P [] = Unit {κ}
  All P (x ∷ xs) = P x × All P xs

  -- `Iterator::all`.
  abbrev pub all : (A → Bool) → List A → Bool
  all p [] = true
  all p (x ∷ xs) = p x && all p xs

  abbrev pub cons_left : A → List A × List A → List A × List A
  cons_left x (l, r) = (x ∷ l, r)

  -- `<[T]>::split_at_checked`: `none` where the slice is too short.
  abbrev pub split_at_checked : ℕ → List A → Option (List A × List A)
  split_at_checked zero xs = some ([], xs)
  split_at_checked (suc n) [] = none
  split_at_checked (suc n) (x ∷ xs) = Option.map (cons_left x) (split_at_checked n xs)

module _ {ℓ} {A : Type ℓ} where
  pub length-replicate : (n : ℕ) (a : A) → length (replicate n a) ≡ n
  length-replicate zero a = refl
  length-replicate (suc n) a = omega (arith, length-replicate n a)

  pub length-append : (xs ys : List A) → length (xs ++ ys) ≡ length xs + length ys
  length-append [] ys = omega arith
  length-append (x ∷ xs) ys = omega (arith, length-append xs ys)

  pub length-set : (xs : List A) (i : ℕ) (v : A) → length (set xs i v) ≡ length xs
  length-set [] i v = refl
  length-set (x ∷ xs) zero v = refl
  length-set (x ∷ xs) (suc i) v = ap suc (length-set xs i v)

  pub get_elem?-set_self :
      (xs : List A) (i : ℕ) (v : A) → i < length xs → get_elem? (set xs i v) i ≡ some v
  get_elem?-set_self [] i v h = elim h [ ]
  get_elem?-set_self (x ∷ xs) zero v h = refl
  get_elem?-set_self (x ∷ xs) (suc i) v h = get_elem?-set_self xs i v (omega arith)

  pub get_elem?-set_ne :
      (xs : List A) {i j : ℕ} (v : A) → i ≢ j → get_elem? (set xs i v) j ≡ get_elem? xs j
  get_elem?-set_ne [] v h = refl
  get_elem?-set_ne (x ∷ xs) {i = zero} {j = zero} v h = absurd (h refl)
  get_elem?-set_ne (x ∷ xs) {i = zero} {j = suc j} v h = refl
  get_elem?-set_ne (x ∷ xs) {i = suc i} {j = zero} v h = refl
  get_elem?-set_ne (x ∷ xs) {i = suc i} {j = suc j} v h = get_elem?-set_ne xs v (λ e. h (ap suc e))

  -- What was put in front is split off again.
  pub split_at_checked-append :
      (xs ys : List A) (n : ℕ) → n ≡ length xs → split_at_checked n (xs ++ ys) ≡ some (xs, ys)
  split_at_checked-append [] ys zero h = refl
  split_at_checked-append [] ys (suc n) h = absurd (omega arith)
  split_at_checked-append (x ∷ xs) ys zero h = absurd (omega arith)
  split_at_checked-append (x ∷ xs) ys (suc n) h =
      ap (Option.map (cons_left x)) (split_at_checked-append xs ys n (omega arith))

  pub get_elem?-append_end : (xs : List A) (v : A) → get_elem? (xs ++ v ∷ []) (length xs) ≡ some v
  get_elem?-append_end [] v = refl
  get_elem?-append_end (x ∷ xs) v = get_elem?-append_end xs v

  map-cons_left :
      (z : A) (o : Option (List A × List A)) (xs ys : List A)
      → Option.map (cons_left z) o ≡ some (xs, ys)
      → (front : List A) × (xs ≡ z ∷ front) × (o ≡ some (front, ys))
  map-cons_left z none xs ys h = cc
  map-cons_left z (some (l, r)) xs ys h = (l, cc, cc)

  map-none : (z : A) (o : Option (List A × List A)) → Option.map (cons_left z) o ≡ none → o ≡ none
  map-none z none h = refl
  map-none z (some p) h = cc h

  pub split_at_checked-suc :
      (n : ℕ) (z : A) (zs xs ys : List A)
      → split_at_checked (suc n) (z ∷ zs) ≡ some (xs, ys)
      → (front : List A) × (xs ≡ z ∷ front) × (split_at_checked n zs ≡ some (front, ys))
  split_at_checked-suc n z zs xs ys h = map-cons_left z (split_at_checked n zs) xs ys h

  -- A split keeps the elements and their order, and the front has the length that was asked for.
  pub split_at_checked_sound :
      (n : ℕ) (zs : List A) (xs ys : List A)
      → split_at_checked n zs ≡ some (xs, ys)
      → (zs ≡ xs ++ ys) × (length xs ≡ n)
  split_at_checked_sound zero zs xs ys h = ground arith
  split_at_checked_sound (suc n) [] xs ys h = cc
  split_at_checked_sound (suc n) (z ∷ zs) xs ys h =
      let (front, e, h') = split_at_checked-suc n z zs xs ys h in
      let (parts, len) = split_at_checked_sound n zs front ys h' in
      rw e (ap (λ l. z ∷ l) parts, ap suc len)

  pub split_at_checked_short : (n : ℕ) (xs : List A) → length xs < n → split_at_checked n xs ≡ none
  split_at_checked_short zero xs h = elim h [ ]
  split_at_checked_short (suc n) [] h = refl
  split_at_checked_short (suc n) (x ∷ xs) h =
      ap (Option.map (cons_left x)) (split_at_checked_short n xs (omega arith))

  pub split_at_checked-none : (n : ℕ) (xs : List A) → split_at_checked n xs ≡ none → length xs < n
  split_at_checked-none zero xs h = cc h
  split_at_checked-none (suc n) [] h = omega arith
  split_at_checked-none (suc n) (x ∷ xs) h =
      let shorter = split_at_checked-none n xs (map-none x (split_at_checked n xs) h) in
      omega (arith, shorter)

  pub length-drop : (n : ℕ) (xs : List A) → length (drop n xs) ≡ length xs - n
  length-drop zero xs = omega arith
  length-drop (suc n) [] = omega arith
  length-drop (suc n) (x ∷ xs) = omega (arith, length-drop n xs)

  pub take-drop : (n : ℕ) (xs : List A) → take n xs ++ drop n xs ≡ xs
  take-drop zero xs = refl
  take-drop (suc n) [] = refl
  take-drop (suc n) (x ∷ xs) = ap (λ l. x ∷ l) (take-drop n xs)

  pub take_all : (xs : List A) → take (length xs) xs ≡ xs
  take_all [] = refl
  take_all (x ∷ xs) = ap (λ l. x ∷ l) (take_all xs)

  -- Taking and dropping in what stands behind a front.
  pub take-append :
      (xs ys : List A) (n k : ℕ) → k ≡ length xs + n → take k (xs ++ ys) ≡ xs ++ take n ys
  take-append [] ys n k h = let e : k ≡ n = omega arith in rw e refl
  take-append (x ∷ xs) ys n zero h = absurd (omega arith)
  take-append (x ∷ xs) ys n (suc k) h = ap (λ l. x ∷ l) (take-append xs ys n k (omega arith))

  pub take-append_front : (xs ys : List A) (n : ℕ) → n ≤ length xs → take n (xs ++ ys) ≡ take n xs
  take-append_front xs ys zero h = refl
  take-append_front [] ys (suc n) h = absurd (omega arith)
  take-append_front (x ∷ xs) ys (suc n) h =
      ap (λ l. x ∷ l) (take-append_front xs ys n (omega arith))

  pub drop-append_front :
      (xs ys : List A) (n : ℕ) → n ≤ length xs → drop n (xs ++ ys) ≡ drop n xs ++ ys
  drop-append_front xs ys zero h = refl
  drop-append_front [] ys (suc n) h = absurd (omega arith)
  drop-append_front (x ∷ xs) ys (suc n) h = drop-append_front xs ys n (omega arith)

  pub length-take : (n : ℕ) (xs : List A) → length (take n xs) ≡ min n (length xs)
  length-take zero xs = omega arith
  length-take (suc n) [] = omega arith
  length-take (suc n) (x ∷ xs) = omega (arith, length-take n xs)

  pub all-append : (p : A → Bool) (xs ys : List A) → all p (xs ++ ys) ≡ (all p xs && all p ys)
  all-append p [] ys = refl
  all-append p (x ∷ xs) ys = ground (arith, all-append p xs ys)

  pub length-map {κ} : {B : Type κ} (xs : List A) (f : A → B) → length (map f xs) ≡ length xs
  length-map [] f = refl
  length-map (x ∷ xs) f = ap suc (length-map xs f)

module _ {ℓ κ κ'} {A : Type ℓ} where
  pub All-map :
      {P : A → Type κ} {Q : A → Type κ'}
      → ((a : A) → P a → Q a)
      → (xs : List A) → All P xs
      → All Q xs
  All-map g [] h = tt
  All-map g (x ∷ xs) (p, h) = (g x p, All-map g xs h)

module _ {ℓ κ} {A : Type ℓ} where
  pub All-All : {P : A → Type κ} → ((a : A) → P a) → (xs : List A) → All P xs
  All-All g [] = tt
  All-All g (x ∷ xs) = (g x, All-All g xs)
