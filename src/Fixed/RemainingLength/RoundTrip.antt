-- ===== src/Fixed/RemainingLength/RoundTrip.antt =====
-- What `parse` and `validate` accept, and that they accept what is written.
use Prim.Native.Nat.{bit_or}
use mathlib.Core.List.{reverse, reverse-cons}
use mcutt.Common.{
  ◌<◌, ℕ, zero, suc, ◌+◌, ◌-◌, ◌/◌, ◌%◌, ◌≤◌, ◌<◌, ◌≡◌, refl, ap, ◌∙◌, inl, inr, [], ◌∷◌, ◌++◌,
  length, length-take, take, all, all-append, true, false, Bool-cases, some, split_at_checked,
  split_at_checked-append, split_at_checked_sound, split_at_checked-suc, ltb, leb, if◌then◌else◌,
  arith,
}
use mcutt.Bytes.{Bytes, Error, error, not_enough_space, Result, ok, err, ok_or}
use mcutt.Bytes.Try.{◌>>=◌, ok_or-eq-ok}
use mcutt.Fixed.RemainingLength.{
  has_continue_flag, take_while, count_continue_flags, len_from_u32, encode_to_array, parse,
  validate, read, read_len, read_from_buf,
}
use mcutt.Fixed.RemainingLength.Value.{read-value, has_continue_flag_lem}
use mcutt.Fixed.RemainingLength.Encoding.{
  Needs, digit, digit_lem, length-encode_to_array, encode_to_array-IsByte, value-encode_to_array,
  Needs-Fits, len_from_u32-Needs, len_from_u32_total,
}

-- The continuation flag is set on all bytes but the last.
abbrev pub IsTerminated : Bytes → Type 0
IsTerminated [] = ⊥
IsTerminated (b ∷ []) = has_continue_flag b ≡ false
IsTerminated (b ∷ c ∷ cs) = (has_continue_flag b ≡ true) × IsTerminated (c ∷ cs)

take_while-IsTerminated :
    (bs rest : Bytes)
    → IsTerminated bs
    → length (take_while has_continue_flag (bs ++ rest)) + 1 ≡ length bs
take_while-IsTerminated [] rest h = absurd h
take_while-IsTerminated (b ∷ []) rest h = rw h (omega arith)
take_while-IsTerminated (b ∷ c ∷ cs) rest h =
    rw (h.0) (omega (arith, take_while-IsTerminated (c ∷ cs) rest h.1))

-- The flags of a terminated run of at most four bytes are one fewer than its bytes.
pub count_continue_flags-IsTerminated :
    (bs rest : Bytes)
    → IsTerminated bs
    → length bs ≤ 4
    → count_continue_flags (bs ++ rest) ≡ ok (length bs - 1)
unfolding count_continue_flags
count_continue_flags-IsTerminated bs rest h l = rw (flags, few)
  where
    few : leb 4 (length bs - 1) ≡ false
    few = ground arith

    run : length (take_while has_continue_flag (bs ++ rest)) + 1 ≡ length bs
    run = take_while-IsTerminated bs rest h

    flags : length (take 4 (take_while has_continue_flag (bs ++ rest))) ≡ length bs - 1
    flags = omega (arith, run, length-take {0} 4 (take_while has_continue_flag (bs ++ rest)))

pub IsTerminated-pos : (bs : Bytes) → IsTerminated bs → 0 < length bs
IsTerminated-pos [] h = absurd h
IsTerminated-pos (b ∷ bs) h = omega arith

-- `parse` takes a terminated run of at most four bytes off any buffer that starts with it.
pub parse-IsTerminated :
    (bs rest : Bytes) → IsTerminated bs → length bs ≤ 4 → parse (bs ++ rest) ≡ ok (bs, rest)
unfolding parse
parse-IsTerminated bs rest h l = rw (
  count_continue_flags-IsTerminated bs rest h l,
  split_at_checked-append bs rest (length bs - 1 + 1) (omega (arith, IsTerminated-pos bs h)),
)

-- A run of at most three bytes that all carry the flag.
take_while-all :
    (bs : Bytes) → all has_continue_flag bs ≡ true → take_while has_continue_flag bs ≡ bs
take_while-all [] h = refl
take_while-all (b ∷ bs) h = ground (arith, take_while-all bs)

take_few : (bs : Bytes) → length bs < 4 → length (take 4 bs) ≡ length bs
take_few bs h = omega (arith, length-take {0} 4 bs)

pub count_continue_flags-all :
    (bs : Bytes)
    → all has_continue_flag bs ≡ true
    → length bs < 4
    → count_continue_flags bs ≡ ok (length bs)
unfolding count_continue_flags
count_continue_flags-all bs h l = rw (take_while-all bs h, take_few bs l) (ground arith)

-- What stands before the last byte of a terminated run carries the flag.
pub all-IsTerminated :
    (bs : Bytes) (c : ℕ) (back : Bytes)
    → IsTerminated (bs ++ (c ∷ back))
    → all has_continue_flag bs ≡ true
all-IsTerminated [] c back h = refl
all-IsTerminated (b ∷ []) c back h = rw (h.0)
all-IsTerminated (b ∷ d ∷ bs) c back h = rw (h.0) (all-IsTerminated (d ∷ bs) c back h.1)

-- What stands in front after a run of continuation flags, when the buffer goes on.
split-IsTerminated :
    (buf this rest : Bytes)
    → split_at_checked (length (take_while has_continue_flag buf) + 1) buf ≡ some (this, rest)
    → IsTerminated this
split-IsTerminated [] this rest h = cc
split-IsTerminated (b ∷ bs) this rest h = elim (Bool-cases (has_continue_flag b)) [
  | inl e ↦
      let eq : length (take_while has_continue_flag (b ∷ bs)) + 1
          ≡ suc (length (take_while has_continue_flag bs) + 1) =
        rw e (omega arith) in
      let (front, e', h') =
        split_at_checked-suc (length (take_while has_continue_flag bs) + 1) b bs this rest
          (rw eq at h) in
      rw e' (more front e (split-IsTerminated bs front rest h'))
  | inr e ↦
      let eq : length (take_while has_continue_flag (b ∷ bs)) + 1 ≡ 1 = rw e (omega arith) in
      let (front, e', h') = split_at_checked-suc 0 b bs this rest (rw eq at h) in
      rw e' (rw (nil front h') e)
]
  where
    more :
        (front : Bytes) → has_continue_flag b ≡ true → IsTerminated front → IsTerminated (b ∷ front)
    more [] e t = absurd t
    more (c ∷ cs) e t = (e, t)

    nil : (front : Bytes) → split_at_checked 0 bs ≡ some (front, rest) → front ≡ []
    nil front h' = cc

count_continue_flags_sound :
    (buf : Bytes) (n : ℕ)
    → count_continue_flags buf ≡ ok n
    → (n ≡ length (take_while has_continue_flag buf)) × (n < 4)
unfolding count_continue_flags
count_continue_flags_sound buf n h =
    ground (arith, length-take {0} 4 (take_while has_continue_flag buf))

-- What `parse` accepts: the front of the buffer, terminated, of at most four bytes.
pub parse_sound :
    (buff this rest : Bytes)
    → parse buff ≡ ok (this, rest)
    → (buff ≡ this ++ rest) × IsTerminated this × (length this ≤ 4)
unfolding parse
parse_sound buff this rest h = go (count_continue_flags buff) refl h
  where
    go :
        (r : Result ℕ Error)
        → count_continue_flags buff ≡ r
        → (r >>= λ n.
            ok_or (error not_enough_space "remaining length") (split_at_checked (n + 1) buff))
          ≡ ok (this, rest)
        → (buff ≡ this ++ rest) × IsTerminated this × (length this ≤ 4)
    go (err e) c h' = cc
    go (ok n) c h' =
        let (eq, few) = count_continue_flags_sound buff n c in
        let split = ok_or-eq-ok _ (split_at_checked (n + 1) buff) h' in
        let (parts, len) = split_at_checked_sound (n + 1) buff this rest split in
        (parts, split-IsTerminated buff this rest (rw eq at split), omega arith)

pub digit_flag :
    (v : ℕ)
    → has_continue_flag (if ltb 0 (v / 128) then bit_or (v % 128) 128 else v % 128)
      ≡ ltb 0 (v / 128)
digit_flag v = rw (digit_lem v, has_continue_flag_lem (digit v) (ground arith)) (ground arith)

pub encode_to_array-IsTerminated : (n v : ℕ) → Needs n v → IsTerminated (encode_to_array n v)
unfolding encode_to_array
encode_to_array-IsTerminated zero v h = absurd h
encode_to_array-IsTerminated (suc zero) v h = rw (digit_flag v) (ground arith)
encode_to_array-IsTerminated (suc (suc n)) v h =
    rw (digit_flag v) (ground arith, encode_to_array-IsTerminated (suc n) (v / 128) h.1)

reverse-IsTerminated :
    (bs : Bytes)
    → IsTerminated bs
    → (last : ℕ) × (iter : Bytes) × (reverse bs ≡ last ∷ iter)
      × (has_continue_flag last ≡ false)
      × (all has_continue_flag iter ≡ true)
reverse-IsTerminated [] h = absurd h
reverse-IsTerminated (b ∷ []) h = (b, [], reverse-cons b [], h, refl)
reverse-IsTerminated (b ∷ c ∷ cs) h =
    let (last, iter, r, l, a) = reverse-IsTerminated (c ∷ cs) h.1 in
    (
      last,
      iter ++ (b ∷ []),
      reverse-cons b (c ∷ cs) ∙ ap (λ t. t ++ (b ∷ [])) r,
      l,
      rw (all-append has_continue_flag iter (b ∷ []), a, h.0) refl,
    )

-- `validate` accepts every terminated run of at most four bytes.
pub validate-IsTerminated : (bs : Bytes) → IsTerminated bs → length bs ≤ 4 → validate bs ≡ ok tt
unfolding validate
validate-IsTerminated bs h l =
    let (last, iter, r, e, a) = reverse-IsTerminated bs h in
    let few : ltb 4 (length bs) ≡ false = ground arith in rw (few, r, e, a)

-- On one byte `validate` accepts exactly a byte without the flag.
pub validate_one : (b : ℕ) → validate (b ∷ []) ≡ ok tt → has_continue_flag b ≡ false
unfolding validate
validate_one b h = ground arith

-- Every number below the limit 268435456 has an encoding, of 1 to 4 bytes; `parse` takes exactly
-- it off whatever follows, `validate` accepts it, and all three readers give the number back.
pub parse-encode_to_array :
    (v : ℕ) (rest : Bytes)
    → v < 268435456
    → (n : ℕ) × (len_from_u32 v ≡ ok n)
      × (length (encode_to_array n v) ≡ n)
      × (parse (encode_to_array n v ++ rest) ≡ ok (encode_to_array n v, rest))
      × (validate (encode_to_array n v) ≡ ok tt)
      × (read (encode_to_array n v) ≡ v)
      × (read_len (encode_to_array n v) ≡ v)
      × (read_from_buf (encode_to_array n v) ≡ v)
parse-encode_to_array v rest h =
    let (n, e) = len_from_u32_total v h in
    let (needs, few) = len_from_u32-Needs v n e in
    let term = encode_to_array-IsTerminated n v needs in
    let len = length-encode_to_array n v in
    let fits : length (encode_to_array n v) ≤ 4 = omega (arith, len) in
    let is_v = value-encode_to_array n v (Needs-Fits n v needs) in
    let (r, rl, rb) = read-value (encode_to_array n v) (encode_to_array-IsByte n v) fits in
    (
      n,
      e,
      len,
      parse-IsTerminated (encode_to_array n v) rest term fits,
      validate-IsTerminated (encode_to_array n v) term fits,
      r ∙ is_v,
      rl ∙ is_v,
      rb ∙ is_v,
    )

-- The number of flags that is returned is below the limit of four.
pub count_continue_flags-lt : (bs : Bytes) (n : ℕ) → count_continue_flags bs ≡ ok n → n < 4
unfolding count_continue_flags
count_continue_flags-lt bs n h = ground arith
