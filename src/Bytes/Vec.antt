-- ===== src/Bytes/Vec.antt =====
-- `Vec<u8>` as a writer: it takes every buffer, at its end.
use mcutt.Common.{◌≡◌, refl, sym, ◌++◌, [], append-nil}
use mcutt.Bytes.Errors.{Bytes, ok}
use mcutt.Bytes.Io.{Write, Io}
use mcutt.Bytes.Emits.{Emits, Emits-infallible}

instance abbrev pub vec_write : Write Bytes
vec_write = record {
  write_all = λ bs out. (ok tt, out ++ bs);
  flush = λ out. (ok tt, out);
  contents = λ out. out;
  write_all_ok = λ bs out h. refl;
  write_all_front = λ bs out. (bs, [], sym (append-nil bs), refl);
  flush_contents = λ out. refl;
}

-- Into a vector an action that emits `bs` succeeds and appends `bs`.
pub Emits-vec :
    {A : Type 0} {bs : Bytes} {a : A} {m : Io Bytes A}
    → Emits bs a m
    → (out : Bytes) → m out ≡ (ok a, out ++ bs)
Emits-vec {m = m} p out = let (r, c) = Emits-infallible (λ cs v. refl) p out in λ i. (r i, c i)
