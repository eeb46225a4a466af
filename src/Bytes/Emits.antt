-- ===== src/Bytes/Emits.antt =====
-- What an action puts on a writer: the rules by which a `write_sync` refines the bytes of its frame.
use mcutt.Common.{
  ℕ, length, ◌≡◌, refl, sym, ◌∙◌, ap, ◌⊎◌, inl, inr, ◌++◌, [], append-nil, append_assoc, String,
}
use mcutt.Bytes.Errors.{Bytes, IoErrorKind, std_io, Error, error, Result, ok, err}
use mcutt.Bytes.Io
use mcutt.Bytes.Io.{Write, Io, pure, lift, and_then, with_error, from_io, ◌>>=◌}

module _ {W A : Type 0} ⦃writer : Write W⦄ where
  -- The whole of `bs` was written and `a` returned.
  abbrev pub Sent : Bytes → A → W → Result A Error × W → Type 0
  Sent bs a w r = (r.0 ≡ ok a) × (writer.contents r.1 ≡ writer.contents w ++ bs)

  -- A call of the writer failed after a front of `bs`, and the error carries its kind.
  pub record Broken (bs : Bytes) (w : W) (r : Result A Error × W) : Type 0 where
    pub io : IoErrorKind
    pub msg : String
    pub front : Bytes
    pub back : Bytes
    pub buffer : Bytes
    pub before : W
    pub blame : (writer.write_all buffer before).0 ≡ err io
    pub failed : r.0 ≡ err (error (std_io io) msg)
    pub splits : bs ≡ front ++ back
    pub wrote : writer.contents r.1 ≡ writer.contents w ++ front

  -- From any state of the writer: `bs` is written and `a` returned, unless the writer itself fails.
  pub record Emits (bs : Bytes) (a : A) (m : Io W A) : Type 0 where
    pub at : (w : W) → Sent bs a w (m w) ⊎ Broken bs w (m w)

  -- From any state of the writer: the error is `e` and nothing is written.
  pub record Rejects (e : Error) (m : Io W A) : Type 0 where
    pub at : (w : W) → m w ≡ (err e, w)

module _ {W : Type 0} ⦃writer : Write W⦄ where
  pub Emits-pure : {A : Type 0} (a : A) → Emits [] a (pure {W = W} a)
  Emits-pure a = record { at = λ w. inl (refl, sym (append-nil (writer.contents w))) }

  pub Emits-lift :
      {A : Type 0} (r : Result A Error) {a : A} → r ≡ ok a → Emits [] a (lift {W = W} r)
  Emits-lift r h = record { at = λ w. inl (h, sym (append-nil (writer.contents w))) }

  from_io_cases :
      (bs : Bytes) (msg : String) (w : W) (r : Result (Unit {0}) IoErrorKind × W)
      → (r.0 ≡ ok tt → writer.contents r.1 ≡ writer.contents w ++ bs)
      → (front : Bytes) (back : Bytes) → bs ≡ front ++ back
      → r ≡ writer.write_all bs w
      → writer.contents r.1 ≡ writer.contents w ++ front
      → Sent bs tt w (from_io msg r) ⊎ Broken bs w (from_io msg r)
  from_io_cases bs msg w (ok a, w') sent front back s q e = inl (refl, sent refl)
  from_io_cases bs msg w (err k, w') sent front back s q e = inr (record {
    io = k;
    buffer = bs;
    before = w;
    blame = sym (ap (λ r. r.0) q);
    msg = msg;
    front = front;
    back = back;
    failed = refl;
    splits = s;
    wrote = e;
  })

  pub Emits-write_all : (bs : Bytes) (msg : String) → Emits {W = W} bs tt (Io.write_all bs msg)
  Emits-write_all bs msg = record {
    at = λ w.
        let (front, back, s, e) = writer.write_all_front bs w in
        from_io_cases bs msg w (writer.write_all bs w) (writer.write_all_ok bs w) front back s refl
          e;
  }

  and_then-Sent :
      {A B : Type 0} (bs cs : Bytes) {a : A} {b : B} (f : A → Io W B) (w : W)
      (r : Result A Error × W)
      → Sent bs a w r
      → Emits cs b (f a)
      → Sent (bs ++ cs) b w (and_then r f) ⊎ Broken (bs ++ cs) w (and_then r f)
  and_then-Sent bs cs f w (err e, w') (h, c) n = cc
  and_then-Sent bs cs {a = a} f w (ok a', w') (h, c) n = rw eq (elim (n.at w') [
    | inl (h', c') ↦ inl (h', c' ∙ regroup cs)
    | inr b ↦ inr (record {
      io = b.io;
      buffer = b.buffer;
      before = b.before;
      blame = b.blame;
      msg = b.msg;
      front = bs ++ b.front;
      back = b.back;
      failed = b.failed;
      splits = ap (λ t. bs ++ t) b.splits ∙ sym (append_assoc bs b.front b.back);
      wrote = b.wrote ∙ regroup b.front;
    })
  ])
    where
      eq : a' ≡ a
      eq = cc

      regroup : (xs : Bytes) → writer.contents w' ++ xs ≡ writer.contents w ++ (bs ++ xs)
      regroup xs = ap (λ t. t ++ xs) c ∙ append_assoc (writer.contents w) bs xs

  and_then-Broken :
      {A B : Type 0} (bs cs : Bytes) (f : A → Io W B) (w : W) (r : Result A Error × W)
      → Broken bs w r
      → Broken (bs ++ cs) w (and_then r f)
  and_then-Broken bs cs f w (ok a, w') b = absurd (cc (b.failed))
  and_then-Broken bs cs f w (err e, w') b = record {
    io = b.io;
    buffer = b.buffer;
    before = b.before;
    blame = b.blame;
    msg = b.msg;
    front = b.front;
    back = b.back ++ cs;
    failed = cc (b.failed);
    splits = ap (λ t. t ++ cs) b.splits ∙ append_assoc b.front b.back cs;
    wrote = b.wrote;
  }

  -- One action after another: the bytes are appended.
  pub Emits-bind :
      {A B : Type 0} {bs cs : Bytes} {a : A} {b : B} {m : Io W A} (f : A → Io W B)
      → Emits bs a m
      → Emits cs b (f a)
      → Emits (bs ++ cs) b (m >>= f)
  Emits-bind {bs = bs} {cs = cs} {m = m} f p q = record {
    at = λ w. elim (p.at w) [
      | inl s ↦ and_then-Sent bs cs f w (m w) s q
      | inr b ↦ inr (and_then-Broken bs cs f w (m w) b)
    ];
  }

  -- A step that only computes.
  pub Emits-lift_bind :
      {A B : Type 0} {cs : Bytes} {r : Result A Error} {a : A} {b : B} (f : A → Io W B)
      → r ≡ ok a
      → Emits cs b (f a)
      → Emits cs b (lift r >>= f)
  Emits-lift_bind {r = r} f h q = Emits-bind f (Emits-lift r h) q

  -- The last step of an action, which writes nothing.
  pub Emits-return :
      {A B : Type 0} {bs : Bytes} {a : A} {m : Io W A} (f : A → B)
      → Emits bs a m
      → Emits bs (f a) (m >>= λ x. pure (f x))
  Emits-return {bs = bs} {a = a} f p = rw (← append-nil bs) (Emits-bind _ p (Emits-pure (f a)))

  with_error-outcome :
      {A : Type 0} {bs : Bytes} {a : A} (g : Error → Error) (w : W) (r : Result A Error × W)
      → ((k : IoErrorKind) (msg : String)
          → (m : String) × (g (error (std_io k) msg) ≡ error (std_io k) m))
      → Sent bs a w r ⊎ Broken bs w r
      → Sent bs a w (with_error g r) ⊎ Broken bs w (with_error g r)
  with_error-outcome g w (ok a', w') keeps (inl s) = inl s
  with_error-outcome g w (err e, w') keeps (inl s) = absurd (cc (s.0))
  with_error-outcome g w (ok a', w') keeps (inr b) = absurd (cc (b.failed))
  with_error-outcome g w (err e, w') keeps (inr b) = inr (record {
    io = b.io;
    buffer = b.buffer;
    before = b.before;
    blame = b.blame;
    msg = (keeps b.io b.msg).0;
    front = b.front;
    back = b.back;
    failed = ap err (ap g inner ∙ (keeps b.io b.msg).1);
    splits = b.splits;
    wrote = b.wrote;
  })
    where
      inner : e ≡ error (std_io b.io) b.msg
      inner = cc (b.failed)

  -- Mapping the error leaves what is written, if it keeps the kind of an I/O error.
  pub Emits-map_err :
      {A : Type 0} {bs : Bytes} {a : A} {m : Io W A} (g : Error → Error)
      → ((k : IoErrorKind) (msg : String)
          → (m : String) × (g (error (std_io k) msg) ≡ error (std_io k) m))
      → Emits bs a m
      → Emits bs a (Io.map_err g m)
  Emits-map_err {m = m} g keeps p = record { at = λ w. with_error-outcome g w (m w) keeps (p.at w) }

  pub Rejects-bind :
      {A B : Type 0} {e : Error} {m : Io W A} (f : A → Io W B) → Rejects e m → Rejects e (m >>= f)
  Rejects-bind f p = record { at = λ w. ap (λ r. and_then r f) (p.at w) }

  pub Rejects-lift :
      {A : Type 0} {r : Result A Error} {e : Error} → r ≡ err e → Rejects e (lift {W = W} r)
  Rejects-lift h = record { at = λ w. ap (λ r. (r, w)) h }

  pub Rejects-lift_bind :
      {A B : Type 0} {r : Result A Error} {e : Error} (f : A → Io W B)
      → r ≡ err e
      → Rejects e (lift r >>= f)
  Rejects-lift_bind f h = Rejects-bind f (Rejects-lift h)

  -- A step that succeeds without writing, before one that is refused.
  pub Rejects-after_lift :
      {A B : Type 0} {r : Result A Error} {a : A} {e : Error} (f : A → Io W B)
      → r ≡ ok a
      → Rejects e (f a)
      → Rejects e (lift r >>= f)
  Rejects-after_lift f h p = record { at = λ w. ap (λ r. and_then (r, w) f) h ∙ p.at w }

  -- On a writer that does not fail, the action succeeds.
  pub Emits-infallible :
      {A : Type 0} {bs : Bytes} {a : A} {m : Io W A}
      → ((cs : Bytes) (v : W) → (writer.write_all cs v).0 ≡ ok tt)
      → Emits bs a m
      → (w : W) → Sent bs a w (m w)
  Emits-infallible infallible p w = elim (p.at w) [
    | inl s ↦ s
    | inr b ↦ absurd (cc (b.blame, infallible b.buffer b.before))
  ]

-- What is written is read back: the action emits some bytes and returns their number, and `parse`
-- takes exactly these bytes off any buffer that starts with them, for a value that satisfies `P`.
abbrev pub Delivers :
    {W : Type 0} ⦃writer : Write W⦄ {A : Type 0}
    → Io W ℕ
    → (Bytes → Result (A × Bytes) Error)
    → (A → Type 0)
    → Type 0
Delivers {W} ⦃writer⦄ {A} m parse P =
    (bs : Bytes) × (this : A) × Emits {W = W} bs (length bs) m
    × ((rest : Bytes) → parse (bs ++ rest) ≡ ok (this, rest))
    × P this
