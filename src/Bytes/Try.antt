-- ===== src/Bytes/Try.antt =====
-- The `?` operator and the methods of Rust's `Result`, and `Decode::consume` of src/bytes.rs.
use mcutt.Common.{
  ap, ◌∙◌, ◌↔◌, ◌⊎◌, inl, inr, Option, none, some, ◌≡◌, refl, [], ◌∷◌, Bool, true, false,
}
use mcutt.Bytes.Errors.{ok_or, Bytes, Error, error, invalid, Result, ok, err}

infixl 5 ◌>>=◌ ◌>>◌
abbrev pub ◌>>=◌ {ℓ} : {A B E : Type ℓ} → Result A E → (A → Result B E) → Result B E
ok a >>= f = f a
err e >>= f = err e

abbrev pub ◌>>◌ {ℓ} : {A B E : Type ℓ} → Result A E → Result B E → Result B E
m >> k = m >>= λ _. k

abbrev pub map_ok {ℓ} : {A B E : Type ℓ} → (A → B) → Result A E → Result B E
map_ok f (ok a) = ok (f a)
map_ok f (err e) = err e

abbrev pub map_err {ℓ} : {A E F : Type ℓ} → (E → F) → Result A E → Result A F
map_err f (ok a) = ok a
map_err f (err e) = err (f e)

-- `if bad { return Err(e) }`.
abbrev pub fail_if : Bool → Error → Result (Unit {0}) Error
fail_if true e = err e
fail_if false e = ok tt

-- The end of `Decode::consume`, on what `parse` returned: nothing may be left.
abbrev pub no_rest : {A : Type 0} → A × Bytes → Result A Error
no_rest (this, []) = ok this
no_rest (this, b ∷ bs) = err (error invalid "remaining bytes in consumed packet")

-- `Decode::consume`, for a type with this `parse`.
unfoldable pub consume : {A : Type 0} → (Bytes → Result (A × Bytes) Error) → Bytes → Result A Error
consume parse buf = do parsed ← parse buf; no_rest parsed

-- A chain that succeeds has a first step that does.
pub bind-ok {ℓ} :
    {A B E : Type ℓ} (f : A → Result B E) (r : Result A E) {b : B}
    → r >>= f ≡ ok b
    → (first : A) × (f first ≡ ok b) × (r ≡ ok first)
bind-ok f (err e) p = cc
bind-ok f (ok first) p = (first, p, refl)

no_rest-ok : {A : Type 0} (parsed : A × Bytes) (a : A) → no_rest parsed ≡ ok a → parsed ≡ (a, [])
no_rest-ok (this, []) a h = cc
no_rest-ok (this, b ∷ bs) a h = cc

-- Whatever the parser, `consume` accepts exactly the buffers that it uses up to the last byte.
pub consume_iff :
    {A : Type 0} (parse : Bytes → Result (A × Bytes) Error) (buf : Bytes) (a : A)
    → (consume parse buf ≡ ok a) ↔ (parse buf ≡ ok (a, []))
unfolding consume
consume_iff parse buf a = (
  λ h.
      let (parsed, left, first) = bind-ok no_rest (parse buf) h in
      first ∙ ap ok (no_rest-ok parsed a left),
  λ h. rw h,
)

pub ok_or-eq-ok {ℓ} : {A E : Type ℓ} (e : E) (o : Option A) {a : A} → ok_or e o ≡ ok a → o ≡ some a
ok_or-eq-ok e none h = cc
ok_or-eq-ok e (some x) h = cc

-- To split on a result and keep the equation.
pub Result-cases {ℓ} :
    {A E : Type ℓ} (r : Result A E) → ((a : A) × (r ≡ ok a)) ⊎ ((e : E) × (r ≡ err e))
Result-cases (ok a) = inl (a, refl)
Result-cases (err e) = inr (e, refl)

pub map_err-ok {ℓ} :
    {A E F : Type ℓ} (f : E → F) (r : Result A E) {a : A} → map_err f r ≡ ok a → r ≡ ok a
map_err-ok f (ok a) h = cc h
map_err-ok f (err e) h = cc h
