-- ===== src/Sync/Connection/Pings.antt =====
-- Bytes with a number of pings behind them.
pub mod Loop
use mathlib.Core.Path.{subst}
use mcutt.Common.{
  ℕ, zero, suc, ◌+◌, ◌≡◌, refl, sym, ap, ◌∙◌, ◌⊎◌, inl, inr, List, [], ◌∷◌, ◌++◌, append-nil,
  append_assoc, Option, none, some, Bool, Bool-cases, true, false, ◌==◌, arith,
}
use mcutt.Bytes.{Bytes, IoErrorKind, Error, Result, ok, err}
use mcutt.Fixed.PacketType
use mcutt.Packets.Short.{short_bytes}

-- A PINGREQ, and a number of them.
abbrev pub ping : Bytes
ping = short_bytes PacketType.ping_req 0

abbrev pub pings : ℕ → Bytes
pings zero = []
pings (suc k) = ping ++ pings k

pings-add : (k j : ℕ) → pings (k + j) ≡ pings k ++ pings j
pings-add zero j = ap pings (omega arith)
pings-add (suc k) j =
    let e : suc k + j ≡ suc (k + j) = omega arith in
    ap pings e ∙ (ap (λ t. ping ++ t) (pings-add k j) ∙ sym (append_assoc ping (pings k) (pings j)))

-- Behind `before` there are some pings, and at the end a front of one more if the call failed.
pub record Pings {A : Type 0} (before after : Bytes) (r : Result A Error) : Type 0 where
  pub count : ℕ
  pub front : Bytes
  pub back : Bytes
  pub splits : ping ≡ front ++ back
  pub wrote : after ≡ before ++ (pings count ++ front)
  pub whole : (a : A) → r ≡ ok a → front ≡ []

pub Pings-none : {A : Type 0} (bs : Bytes) (r : Result A Error) → Pings bs bs r
Pings-none bs r = record {
  count = 0;
  front = [];
  back = ping;
  splits = refl;
  wrote = sym (append-nil bs);
  whole = λ a e. refl;
}

pub Pings-then :
    {A B : Type 0} (a b c : Bytes) (x : A) (r : Result B Error)
    → Pings {A = A} a b (ok x)
    → Pings b c r
    → Pings a c r
Pings-then a b c x r p q =
    let none_left : pings p.count ++ p.front ≡ pings p.count =
      ap (λ t. pings p.count ++ t) (p.whole x refl) ∙ append-nil (pings p.count) in
    let sum : pings p.count ++ (pings q.count ++ q.front) ≡ pings (p.count + q.count) ++ q.front =
      sym (
        ap (λ t. t ++ q.front) (pings-add p.count q.count)
        ∙ append_assoc (pings p.count) (pings q.count) q.front) in
    record {
      count = p.count + q.count;
      front = q.front;
      back = q.back;
      splits = q.splits;
      wrote =
          q.wrote
          ∙ (ap (λ t. t ++ (pings q.count ++ q.front)) (p.wrote ∙ ap (λ t. a ++ t) none_left)
              ∙ (append_assoc a (pings p.count) (pings q.count ++ q.front) ∙ ap (λ t. a ++ t) sum));
      whole = q.whole;
    }

-- The same call, with another result.
pub Pings-result :
    {A B : Type 0} (a b : Bytes) (x : A) (r : Result B Error)
    → Pings {A = A} a b (ok x)
    → Pings a b r
Pings-result a b x r p = record {
  count = p.count;
  front = p.front;
  back = p.back;
  splits = p.splits;
  wrote = p.wrote;
  whole = λ y e. p.whole x refl;
}

pub Pings-err :
    {A B : Type 0} (a b : Bytes) (x : Error) → Pings {A = A} a b (err x) → Pings {A = B} a b (err x)
Pings-err a b x p = record {
  count = p.count;
  front = p.front;
  back = p.back;
  splits = p.splits;
  wrote = p.wrote;
  whole = λ y e. cc e;
}
