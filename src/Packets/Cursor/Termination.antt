-- ===== src/Packets/Cursor/Termination.antt =====
-- The loop over a cursor ends, and a field that passes it is a field of items.
use mcutt.Common.{
  ℕ, zero, suc, ◌<◌, ◌≡◌, refl, ap, List, [], ◌∷◌, ◌++◌, append_assoc, All, Option, some, length,
  length-append, arith, ◌⊎◌, inl, inr,
}
use mcutt.Bytes.{usize_mod, Bytes, Error, Result, ok, err}
use mcutt.Bytes.Try.{Result-cases}
use mcutt.Bytes.Takes.{Consumes}
use mcutt.Packets.Cursor.{at_start, or_out_of_fuel, try_for_each, validate_all}
use mcutt.Packets.Cursor.Items.{Items, between, read-end, read-err, read-item}

module _ {A : Type 0} (parse : Bytes → Result (A × Bytes) Error) (consumes : Consumes parse)
    (check : A → Result (Unit {0}) Error) where
  -- The items of a field of which each passes the check.
  abbrev pub Passes : Bytes → List A → Type 0
  Passes bs l = Items parse l bs × All (λ a. check a ≡ ok tt) l

  -- How the loop may end: all items passed, or some error.
  abbrev Ends : Bytes → Option (Result (Unit {0}) Error) → Type 0
  Ends bs r = ((r ≡ some (ok tt)) × (l : List A) × Passes bs l) ⊎ ((e : Error) × (r ≡ some (err e)))

  try_for_each-Ends :
      (fuel : ℕ) (front bs : Bytes)
      → length bs < fuel
      → length (front ++ bs) < usize_mod
      → Ends bs (try_for_each parse fuel check (between parse front bs))
  unfolding try_for_each
  try_for_each-Ends zero front bs f fits = absurd (omega (arith, f))
  try_for_each-Ends (suc fuel) front [] f fits = inl (rw (read-end parse front), [], (refl, tt))
  try_for_each-Ends (suc fuel) front (b ∷ bs) f fits = elim (Result-cases (parse (b ∷ bs))) [
    | inr (e, h) ↦ inr (e, rw (read-err parse front bs b e h))
    | inl ((a, rest), h) ↦
        let (used, s, pos) = consumes (b ∷ bs) a rest h in
        let next = read-item parse front bs b a rest used fits h s in
        elim (Result-cases (check a)) [
          | inr (e, bad) ↦ inr (e, rw (next, bad))
          | inl (u, good) ↦
              elim (try_for_each-Ends fuel (front ++ used) rest
                (omega (arith, f, pos, ap length s, length-append used rest))
                (rw (append_assoc front used rest, ← s) fits)) [
                  | inr (e, bad) ↦ inr (e, rw (next, good, bad))
                  | inl (r, l, (items, oks)) ↦
                      inl
                        (rw (next, good, r), a ∷ l, ((rest, h, (used, s, pos), items), (good, oks)))
                ]
        ]
  ]

  or_out_of_fuel-Ends :
      (bs : Bytes) (r : Option (Result (Unit {0}) Error))
      → Ends bs r
      → (end : Result (Unit {0}) Error) × (r ≡ some end)
  or_out_of_fuel-Ends bs r (inl (h, l, p)) = (ok tt, h)
  or_out_of_fuel-Ends bs r (inr (e, h)) = (err e, h)

  -- The fuel of a field is enough.
  pub validate_all-halts :
      (bs : Bytes)
      → length bs < usize_mod
      → (end : Result (Unit {0}) Error) × (try_for_each parse (suc (length bs)) check (at_start bs)
          ≡ some end)
        × (validate_all parse check bs ≡ end)
  unfolding validate_all
  validate_all-halts bs fits =
      let (end, h) =
        or_out_of_fuel-Ends bs _ (try_for_each-Ends (suc (length bs)) [] bs (omega arith) fits) in
      (end, h, ap or_out_of_fuel h)

  -- A field that passes is a field of items that pass.
  pub validate_all-Passes :
      (bs : Bytes)
      → length bs < usize_mod
      → validate_all parse check bs ≡ ok tt
      → (l : List A) × Passes bs l
  unfolding validate_all
  validate_all-Passes bs fits h =
      elim (try_for_each-Ends (suc (length bs)) [] bs (omega arith) fits) [
        | inl (r, l, p) ↦ (l, p)
        | inr (e, r) ↦ absurd (cc (h, r))
      ]
