-- ===== src/Packets/Publish/Qos.antt =====
-- What the setters of the PUBLISH builder keep.
use Prim.Native.Nat.{bit_and, bit_or}
use mcutt.Fixed.TypeFlags
use mcutt.Common.{
  sym, ◌∙◌, ◌/◌, ◌==◌, not, ℕ, ◌+◌, ◌<◌, ◌≡◌, refl, Bool, true, false, Option, none, some, arith,
  length,
}
use mcutt.Common.Bits.{agree_below, eq_below}
use mcutt.External.Bitflags.{Bitflags}
use mcutt.External.Memchr.{Memchr}
use mcutt.Fields.PacketId.{IsNonZero}
use mcutt.Packets.Publish.Builder.{
  PublishBuilder, at_most_once, at_least_once, exactly_once, retain, qos,
}
use mcutt.Packets.Publish.RoundTrip.{IsSendable, HasPkid}

-- The flags after `qos` with this duplicate flag and this flag of the QoS.
abbrev pub set_flags : Bool → ℕ → ℕ → ℕ
set_flags false q flags = bit_or (bit_and flags 9) q
set_flags true q flags = bit_or (bit_or (bit_and flags 9) 8) q

-- Four bits, of which those of the QoS are `q`.
abbrev pub HasQos : ℕ → ℕ → Type 0
HasQos q flags = (flags / 16 ≡ 0) × (bit_and flags 6 ≡ q)

qos_table :
    (q : ℕ) (y : ℕ → ℕ)
    → agree_below (λ x. y x / 16) (λ x. 0) 16 ≡ true
    → agree_below (λ x. bit_and (y x) 6) (λ x. q) 16 ≡ true
    → (x : ℕ) → x < 16
    → HasQos q (y x)
qos_table q y small same x h = (
  eq_below (λ x. y x / 16) (λ x. 0) 16 small x h,
  eq_below (λ x. bit_and (y x) 6) (λ x. q) 16 same x h,
)

pub set_qos_1 : (dup : Bool) (x : ℕ) → x < 16 → HasQos 2 (set_flags dup 2 x)
unfolding agree_below
set_qos_1 false = qos_table 2 (set_flags false 2) refl refl
set_qos_1 true = qos_table 2 (set_flags true 2) refl refl

set_qos_2 : (dup : Bool) (x : ℕ) → x < 16 → HasQos 4 (set_flags dup 4 x)
unfolding agree_below
set_qos_2 false = qos_table 4 (set_flags false 4) refl refl
set_qos_2 true = qos_table 4 (set_flags true 4) refl refl

pub clear_qos : (x : ℕ) → x < 16 → HasQos 0 (bit_and x 9)
unfolding agree_below
clear_qos = qos_table 0 (λ x. bit_and x 9) refl refl

small_retain : (x : ℕ) → x < 16 → bit_or x 1 / 16 ≡ 0
unfolding agree_below
small_retain = eq_below _ _ 16 refl

same_retain : (x : ℕ) → x < 16 → bit_and (bit_or x 1) 6 ≡ bit_and x 6
unfolding agree_below
same_retain = eq_below _ _ 16 refl

module _ ⦃f : Bitflags⦄ where
  pub intersects_qos :
      (flags : ℕ)
      → f.intersects flags (f.union TypeFlags.publish_qos_1 TypeFlags.publish_qos_2)
        ≡ not (bit_and flags 6 == 0)
  intersects_qos flags = rw (f.union_lem 2 4, f.intersects_lem flags 6)

  pub qos_1_flags :
      (dup : Bool) (v : ℕ) (b : PublishBuilder)
      → (qos (at_least_once dup v) b).flags ≡ set_flags dup 2 b.flags
  unfolding qos
  qos_1_flags false v b = simp (f.union_lem, f.complement_lem, f.intersection_lem)
  qos_1_flags true v b = simp (f.union_lem, f.complement_lem, f.intersection_lem)

  qos_2_flags :
      (dup : Bool) (v : ℕ) (b : PublishBuilder)
      → (qos (exactly_once dup v) b).flags ≡ set_flags dup 4 b.flags
  unfolding qos
  qos_2_flags false v b = simp (f.union_lem, f.complement_lem, f.intersection_lem)
  qos_2_flags true v b = simp (f.union_lem, f.complement_lem, f.intersection_lem)

  pub qos_0_flags : (b : PublishBuilder) → (qos at_most_once b).flags ≡ bit_and b.flags 9
  unfolding qos
  qos_0_flags b = simp (f.union_lem, f.complement_lem, f.intersection_lem)

module _ ⦃f : Bitflags⦄ ⦃m : Memchr⦄ where
  -- With an identifier and room for it, a message that may be sent with no identifier may be sent
  -- with QoS 1 or 2, as a duplicate or not: the flags then say that the identifier is there.
  pub qos-IsSendable :
      (b : PublishBuilder) (dup : Bool) (v : ℕ)
      → IsSendable b
      → IsNonZero v
      → 2 + length b.topic + 2 + length b.payload < 268435456
      → IsSendable (qos (at_least_once dup v) b) × IsSendable (qos (exactly_once dup v) b)
  unfolding qos
  qos-IsSendable b dup v s h room =
      let one = set_qos_1 dup b.flags s.flags in
      let two = set_qos_2 dup b.flags s.flags in
      (
        record {
          topic = s.topic;
          plain = s.plain;
          flags = rw (qos_1_flags dup v b) (omega (arith, one.0));
          pkid = (intersects_qos _ ∙ rw (qos_1_flags dup v b, one.1) refl, h);
          fits = room;
        },
        record {
          topic = s.topic;
          plain = s.plain;
          flags = rw (qos_2_flags dup v b) (omega (arith, two.0));
          pkid = (intersects_qos _ ∙ rw (qos_2_flags dup v b, two.1) refl, h);
          fits = room;
        },
      )

  HasPkid-intersects :
      (fl fl' : ℕ) (o : Option ℕ) → bit_and fl' 6 ≡ bit_and fl 6 → HasPkid fl o → HasPkid fl' o
  HasPkid-intersects fl fl' none e h = intersects_qos fl' ∙ rw e (sym (intersects_qos fl) ∙ h)
  HasPkid-intersects fl fl' (some v) e (h, nonzero) =
      (intersects_qos fl' ∙ rw e (sym (intersects_qos fl) ∙ h), nonzero)

  retain_flags : (b : PublishBuilder) → (retain b).flags ≡ bit_or b.flags 1
  unfolding retain
  retain_flags b = simp f.union_lem

  -- A message that may be sent may be sent with the retain flag.
  pub retain-IsSendable : (b : PublishBuilder) → IsSendable b → IsSendable (retain b)
  unfolding retain
  retain-IsSendable b s = record {
    topic = s.topic;
    plain = s.plain;
    flags = rw (retain_flags b) (omega (arith, small_retain b.flags s.flags));
    pkid =
        HasPkid-intersects b.flags (retain b).flags b.pkid
          (rw (retain_flags b) (same_retain b.flags s.flags)) s.pkid;
    fits = s.fits;
  }
