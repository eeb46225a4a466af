-- ===== src/Bytes/Local.antt =====
-- Parsers that look only at what they take: the same front is parsed the same way whatever follows.
use mcutt.Common.{
  ℕ, ◌≤◌, ◌≡◌, refl, sym, ap, ◌∙◌, Option, none, some, [], ◌++◌, append_assoc, length,
  length-append, split_at_checked, split_at_checked-append, split_at_checked_sound, Bool,
  Bool-cases, inl, inr, arith,
}
use mcutt.Bytes.Errors.{Bytes, Result, ok, err, ok_or}
use mcutt.Bytes.Try.{◌>>=◌, map_ok, map_err, bind-ok, ok_or-eq-ok}
use mcutt.External.Zerocopy.{ConvertError, valid_parts}

-- The front of `bs` that was parsed as `a`, of at least `n` bytes.
pub record Front {A E : Type 0} (n : ℕ) (parse : Bytes → Result (A × Bytes) E) (bs : Bytes) (a : A)
    (rest : Bytes) : Type 0 where
  pub used : Bytes
  pub splits : bs ≡ used ++ rest
  pub least : n ≤ length used
  pub again : (more : Bytes) → parse (used ++ more) ≡ ok (a, more)

abbrev pub IsLocal : {A E : Type 0} → ℕ → (Bytes → Result (A × Bytes) E) → Type 0
IsLocal {A} n parse =
    (bs : Bytes) (a : A) (rest : Bytes) → parse bs ≡ ok (a, rest) → Front n parse bs a rest

-- A wrapped result, with the same rest.
abbrev pub with_rest : {A B : Type 0} → (B → A) → B × Bytes → A × Bytes
with_rest wrap r = (wrap r.0, r.1)

module _ {A E : Type 0} where
  -- Nothing is taken.
  pub IsLocal-pure : (a : A) → IsLocal {E = E} 0 (λ bs. ok (a, bs))
  IsLocal-pure a bs b rest h = record {
    used = [];
    splits = cc h;
    least = omega arith;
    again = λ more. cc h;
  }

module _ {A B E : Type 0} where
  -- A step that does not look at the bytes.
  pub IsLocal-check :
      (n : ℕ) (r : Result B E) (parse : B → Bytes → Result (A × Bytes) E)
      → ((b : B) → IsLocal n (parse b))
      → IsLocal n (λ bs. r >>= λ b. parse b bs)
  IsLocal-check n (err e) parse local bs a rest h = cc h
  IsLocal-check n (ok b) parse local bs a rest h = local b bs a rest h

  -- One parser, then another.
  pub IsLocal-bind :
      (n m : ℕ) (first : Bytes → Result (B × Bytes) E) (next : B → Bytes → Result (A × Bytes) E)
      → IsLocal n first
      → ((b : B) → IsLocal m (next b))
      → IsLocal n (λ bs. first bs >>= λ r. next r.0 r.1)
  IsLocal-bind n m first next one two bs a rest h =
      let ((b, left), h', e) = bind-ok _ (first bs) h in
      let f = one bs b left e in
      let g = two b left a rest h' in
      record {
        used = f.used ++ g.used;
        splits =
            f.splits ∙ (ap (λ t. f.used ++ t) g.splits ∙ sym (append_assoc f.used g.used rest));
        least = omega (arith, f.least, length-append f.used g.used);
        again = λ more.
            ap (λ t. first t >>= λ r. next r.0 r.1) (append_assoc f.used g.used more)
            ∙ (ap (λ x. x >>= λ r. next r.0 r.1) (f.again (g.used ++ more)) ∙ g.again more);
      }

  -- A result that is only wrapped.
  pub IsLocal-map_ok :
      (n : ℕ) (parse : Bytes → Result (B × Bytes) E) (wrap : B → A)
      → IsLocal n parse
      → IsLocal n (λ bs. map_ok (with_rest wrap) (parse bs))
  IsLocal-map_ok n parse wrap local bs a rest h = go (parse bs) refl h
    where
      go :
          (r : Result (B × Bytes) E)
          → parse bs ≡ r
          → map_ok (with_rest wrap) r ≡ ok (a, rest)
          → Front n (λ bs. map_ok (with_rest wrap) (parse bs)) bs a rest
      go (err e) first h' = cc h'
      go (ok (b, left)) first h' =
          let f = local bs b left first in
          let same : wrap b ≡ a = cc h' in
          let behind : left ≡ rest = cc h' in
          record {
            used = f.used;
            splits = f.splits ∙ ap (λ t. f.used ++ t) behind;
            least = f.least;
            again =
                λ more. ap (map_ok (with_rest wrap)) (f.again more) ∙ ap (λ t. ok (t, more)) same;
          }

module _ {A E : Type 0} where
  pub IsLocal-le :
      (m n : ℕ) (parse : Bytes → Result (A × Bytes) E) → m ≤ n → IsLocal n parse → IsLocal m parse
  IsLocal-le m n parse le local bs a rest h =
      let f = local bs a rest h in
      record {
        used = f.used;
        splits = f.splits;
        least = omega (arith, f.least, le);
        again = f.again;
      }

  -- The same parser, written in another way.
  pub IsLocal-same :
      (n : ℕ) (parse other : Bytes → Result (A × Bytes) E)
      → ((bs : Bytes) → parse bs ≡ other bs)
      → IsLocal n other
      → IsLocal n parse
  IsLocal-same n parse other same local bs a rest h =
      let f = local bs a rest (sym (same bs) ∙ h) in
      record {
        used = f.used;
        splits = f.splits;
        least = f.least;
        again = λ more. same (f.used ++ more) ∙ f.again more;
      }

module _ {E : Type 0} where
  pub IsLocal-split_at_checked : (n : ℕ) (e : E) → IsLocal n (λ bs. ok_or e (split_at_checked n bs))
  IsLocal-split_at_checked n e bs front rest h =
      let (parts, len) = split_at_checked_sound n bs front rest (ok_or-eq-ok e _ h) in
      record {
        used = front;
        splits = parts;
        least = omega (arith, len);
        again = λ more. ap (ok_or e) (split_at_checked-append front more n (sym len));
      }

  -- A value of `n` bytes that passes a test.
  pub IsLocal-valid_parts :
      (n : ℕ) (f : ConvertError → E) (valid : Bytes → Bool)
      → IsLocal n (λ bs. map_err f (valid_parts valid (split_at_checked n bs)))
  IsLocal-valid_parts n f valid bs front rest h = go (split_at_checked n bs) refl h
    where
      go :
          (o : Option (Bytes × Bytes))
          → split_at_checked n bs ≡ o
          → map_err f (valid_parts valid o) ≡ ok (front, rest)
          → Front n (λ bs. map_err f (valid_parts valid (split_at_checked n bs))) bs front rest
      go none e h' = cc h'
      go (some (this, left)) e h' = elim (Bool-cases (valid this)) [
        | inr bad ↦ absurd (cc (h', bad))
        | inl good ↦
            let taken : ◌≡◌ {A = Result (Bytes × Bytes) E} (ok (this, left)) (ok (front, rest)) =
              sym (rw good refl) ∙ h' in
            let same : this ≡ front = cc taken in
            let behind : left ≡ rest = cc taken in
            let (parts, len) = split_at_checked_sound n bs this left e in
            record {
              used = front;
              splits = parts ∙ (λ i. same i ++ behind i);
              least = omega (arith, len, ap length same);
              again = λ more.
                  ap (λ o. map_err f (valid_parts valid o))
                    (split_at_checked-append front more n (sym len ∙ ap length same))
                  ∙ rw (← same) (rw good refl);
            }
      ]
