-- ===== src/Packets/Connect/Kept.antt =====
-- The flags of a CONNECT packet that say which parts are there: what the setters do to them, and
-- what a reader finds, by checking all bytes.
use Prim.Native.Nat.{bit_and, bit_or}
use mcutt.Common.{◌/◌, ◌==◌, ℕ, ◌+◌, ◌<◌, ◌≡◌, refl, Bool, true, false, ◌&&◌, if◌then◌else◌, arith}
use mcutt.Common.Bits.{agree_below, eq_below}
use mcutt.Packets.Qos.{Qos, at_most_once, at_least_once, exactly_once}

-- The flags that say what is there, with the reserved one.
abbrev pub kept : ℕ
kept = 0b1100_0101

abbrev pub flag_if : Bool → ℕ → ℕ
flag_if b flag = if b then flag else 0

-- The kept flags that a builder with these parts has.
abbrev pub of_parts : Bool → Bool → Bool → ℕ
of_parts w u p = flag_if w 4 + (flag_if u 128 + flag_if p 64)

-- A change of flags that keeps them a byte, and adds `more` to the kept ones.
abbrev pub Adds : ℕ → (ℕ → ℕ) → ℕ → Type 0
Adds more y x = (y x / 256 ≡ 0) × (bit_and (y x) kept ≡ bit_or (bit_and x kept) more)

more_table :
    (more : ℕ) (y : ℕ → ℕ)
    → agree_below (λ x. y x / 256) (λ x. 0) 256 ≡ true
    → agree_below (λ x. bit_and (y x) kept) (λ x. bit_or (bit_and x kept) more) 256 ≡ true
    → (x : ℕ) → x < 256
    → Adds more y x
more_table more y small same x h = (
  eq_below (λ x. y x / 256) (λ x. 0) 256 small x h,
  eq_below (λ x. bit_and (y x) kept) (λ x. bit_or (bit_and x kept) more) 256 same x h,
)

abbrev pub will_bits : Qos → Bool → ℕ → ℕ
will_bits at_most_once false x = bit_and (bit_or x 4) 231
will_bits at_most_once true x = bit_or (bit_and (bit_or x 4) 231) 32
will_bits at_least_once false x = bit_or (bit_and (bit_or x 4) 231) 8
will_bits at_least_once true x = bit_or (bit_or (bit_and (bit_or x 4) 231) 8) 32
will_bits exactly_once false x = bit_or (bit_and (bit_or x 4) 231) 16
will_bits exactly_once true x = bit_or (bit_or (bit_and (bit_or x 4) 231) 16) 32

pub more_clean : (x : ℕ) → x < 256 → Adds 0 (λ x. bit_or x 2) x
unfolding agree_below
more_clean = more_table 0 (λ x. bit_or x 2) refl refl

pub more_username : (x : ℕ) → x < 256 → Adds 128 (λ x. bit_or x 128) x
unfolding agree_below
more_username = more_table 128 (λ x. bit_or x 128) refl refl

pub more_password : (x : ℕ) → x < 256 → Adds 192 (λ x. bit_or x 192) x
unfolding agree_below
more_password = more_table 192 (λ x. bit_or x 192) refl refl

pub more_will : (q : Qos) (r : Bool) (x : ℕ) → x < 256 → Adds 4 (will_bits q r) x
unfolding agree_below
more_will at_most_once false = more_table 4 (will_bits at_most_once false) refl refl
more_will at_most_once true = more_table 4 (will_bits at_most_once true) refl refl
more_will at_least_once false = more_table 4 (will_bits at_least_once false) refl refl
more_will at_least_once true = more_table 4 (will_bits at_least_once true) refl refl
more_will exactly_once false = more_table 4 (will_bits exactly_once false) refl refl
more_will exactly_once true = more_table 4 (will_bits exactly_once true) refl refl

-- Each flag that a reader tests can be tested on the kept flags.
pub kept_reserved : (x : ℕ) → x < 256 → bit_and x 1 ≡ bit_and (bit_and x kept) 1
unfolding agree_below
kept_reserved = eq_below _ _ 256 refl

pub kept_will : (x : ℕ) → x < 256 → bit_and x 4 ≡ bit_and (bit_and x kept) 4
unfolding agree_below
kept_will = eq_below _ _ 256 refl

pub kept_username : (x : ℕ) → x < 256 → bit_and x 128 ≡ bit_and (bit_and x kept) 128
unfolding agree_below
kept_username = eq_below _ _ 256 refl

pub kept_password : (x : ℕ) → x < 256 → bit_and x 64 ≡ bit_and (bit_and x kept) 64
unfolding agree_below
kept_password = eq_below _ _ 256 refl

-- An equation on three Booleans, by its eight cases.
module _ (g h : Bool → Bool → Bool → ℕ) where
  abbrev same_pair : Bool → Bool → Bool
  same_pair u p = (g true u p == h true u p) && (g false u p == h false u p)

  abbrev same_parts : Bool
  same_parts =
      (same_pair true true && same_pair true false)
      && (same_pair false true && same_pair false false)

  eq_parts : same_parts ≡ true → (w u p : Bool) → g w u p ≡ h w u p
  eq_parts e true true true = ground arith
  eq_parts e true true false = ground arith
  eq_parts e true false true = ground arith
  eq_parts e true false false = ground arith
  eq_parts e false true true = ground arith
  eq_parts e false true false = ground arith
  eq_parts e false false true = ground arith
  eq_parts e false false false = ground arith

-- The kept flags with one more.
pub with_none : (w u p : Bool) → bit_or (of_parts w u p) 0 ≡ of_parts w u p
with_none = eq_parts (λ w u p. bit_or (of_parts w u p) 0) of_parts refl

pub with_will : (w u p : Bool) → bit_or (of_parts w u p) 4 ≡ of_parts true u p
with_will = eq_parts (λ w u p. bit_or (of_parts w u p) 4) (λ w u p. of_parts true u p) refl

pub with_username : (w u p : Bool) → bit_or (of_parts w u p) 128 ≡ of_parts w true p
with_username = eq_parts (λ w u p. bit_or (of_parts w u p) 128) (λ w u p. of_parts w true p) refl

pub with_password : (w u p : Bool) → bit_or (of_parts w u p) 192 ≡ of_parts w true true
with_password = eq_parts (λ w u p. bit_or (of_parts w u p) 192) (λ w u p. of_parts w true true) refl

-- The kept flags, one at a time.
pub reads_reserved : (w u p : Bool) → bit_and (of_parts w u p) 1 ≡ 0
reads_reserved = eq_parts (λ w u p. bit_and (of_parts w u p) 1) (λ w u p. 0) refl

pub reads_will : (w u p : Bool) → bit_and (of_parts w u p) 4 ≡ flag_if w 4
reads_will = eq_parts (λ w u p. bit_and (of_parts w u p) 4) (λ w u p. flag_if w 4) refl

pub reads_username : (w u p : Bool) → bit_and (of_parts w u p) 128 ≡ flag_if u 128
reads_username = eq_parts (λ w u p. bit_and (of_parts w u p) 128) (λ w u p. flag_if u 128) refl

pub reads_password : (w u p : Bool) → bit_and (of_parts w u p) 64 ≡ flag_if p 64
reads_password = eq_parts (λ w u p. bit_and (of_parts w u p) 64) (λ w u p. flag_if p 64) refl

-- What setting a will leaves of the flag that the server is to retain it.
pub retain_set : (q : Qos) (x : ℕ) → x < 256 → bit_and (will_bits q true x) 32 ≡ 32
unfolding agree_below
retain_set at_most_once = eq_below _ (λ x. 32) 256 refl
retain_set at_least_once = eq_below _ (λ x. 32) 256 refl
retain_set exactly_once = eq_below _ (λ x. 32) 256 refl

pub retain_left : (q : Qos) (x : ℕ) → x < 256 → bit_and (will_bits q false x) 32 ≡ bit_and x 32
unfolding agree_below
retain_left at_most_once = eq_below _ _ 256 refl
retain_left at_least_once = eq_below _ _ 256 refl
retain_left exactly_once = eq_below _ _ 256 refl
