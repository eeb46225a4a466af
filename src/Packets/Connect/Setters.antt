-- ===== src/Packets/Connect/Setters.antt =====
-- The builders of a CONNECT packet that the public functions reach, and what they all have.
use Prim.Native.Nat.{bit_and, bit_or}
use mcutt.Common.{sym, ◌∙◌, ap, ◌==◌, ◌||◌, ℕ, ◌<◌, ◌≡◌, refl, [], Bool, true, false, arith}
use mcutt.Bytes.{Bytes, ok}
use mcutt.External.Zerocopy.{Zerocopy}
use mcutt.External.Bitflags.{Bitflags}
use mcutt.Packets.Optional.{is_some}
use mcutt.Packets.ConnectParts.Flags
use mcutt.Packets.ConnectParts.Header.{KeepAlive}
use mcutt.Packets.ConnectParts.ClientId
use mcutt.Packets.Qos.{Qos, at_most_once, at_least_once, exactly_once}
use mcutt.Packets.Connect.Builder.{
  ConnectBuilder, create, new_unchecked, with_empty_client_id, clean_session, keepalive, will_flags,
  will, username, username_password,
}
use mcutt.Packets.Connect.Frame.{Agrees}
use mcutt.Packets.Connect.Kept.{
  kept, flag_if, of_parts, Adds, will_bits, more_clean, more_username, more_password, more_will,
  kept_reserved, kept_will, kept_username, kept_password, with_none, with_will, with_username,
  with_password, reads_reserved, reads_will, reads_username, reads_password, retain_set,
  retain_left,
}

module _ ⦃z : Zerocopy⦄ ⦃f : Bitflags⦄ where
  -- One call of a setter.
  pub data Step (b : ConnectBuilder) : ConnectBuilder → Type 0 where
    set_clean : Step b (clean_session b)
    set_keepalive : (k : KeepAlive) → Step b (keepalive k b)
    set_will :
        (topic message : Bytes) (qos : Qos) (retain : Bool)
        → Step b (will topic message qos retain b)
    set_username : (name : Bytes) → Step b (username name b)
    set_password : (name password : Bytes) → Step b (username_password name password b)

  -- A constructor, and then any calls of setters.
  pub data Reach : ConnectBuilder → Type 0 where
    created : (id : Bytes) {b : ConnectBuilder} → create id ≡ ok b → Reach b
    unchecked : (id : Bytes) → Reach (new_unchecked id)
    empty : Reach with_empty_client_id
    later : {b c : ConnectBuilder} → Reach b → Step b c → Reach c

-- The invariant: the flags are a byte, and the kept ones are those of the parts that are there.
record IsKept (b : ConnectBuilder) : Type 0 where
  byte : b.flags < 256
  bits : bit_and b.flags kept ≡ of_parts (is_some b.will) (is_some b.username) (is_some b.password)

-- The rule for a setter.
more-IsKept :
    (more : ℕ) (y : ℕ → ℕ) (b c : ConnectBuilder)
    → ((x : ℕ) → x < 256 → Adds more y x)
    → c.flags ≡ y b.flags
    → bit_or (of_parts (is_some b.will) (is_some b.username) (is_some b.password)) more
      ≡ of_parts (is_some c.will) (is_some c.username) (is_some c.password)
    → IsKept b
    → IsKept c
more-IsKept more y b c adds e parts k = record {
  byte = let (small, same) = adds b.flags k.byte in rw e (omega (arith, small));
  bits =
      ap (λ x. bit_and x kept) e
      ∙ ((adds b.flags k.byte).1 ∙ (ap (λ x. bit_or x more) k.bits ∙ parts));
}

module _ ⦃f : Bitflags⦄ where
  will_flags-bits : (q : Qos) (r : Bool) (x : ℕ) → will_flags q r x ≡ will_bits q r x
  will_flags-bits at_most_once false x = simp (f.union_lem, f.intersection_lem)
  will_flags-bits at_most_once true x = simp (f.union_lem, f.intersection_lem)
  will_flags-bits at_least_once false x = simp (f.union_lem, f.intersection_lem)
  will_flags-bits at_least_once true x = simp (f.union_lem, f.intersection_lem)
  will_flags-bits exactly_once false x = simp (f.union_lem, f.intersection_lem)
  will_flags-bits exactly_once true x = simp (f.union_lem, f.intersection_lem)

module _ ⦃z : Zerocopy⦄ ⦃f : Bitflags⦄ where
  clean_session-IsKept : (b : ConnectBuilder) → IsKept b → IsKept (clean_session b)
  unfolding clean_session
  clean_session-IsKept b =
      more-IsKept 0 (λ x. bit_or x 2) b _ more_clean (f.union_lem b.flags 2) (with_none _ _ _)

  keepalive-IsKept : (k : KeepAlive) (b : ConnectBuilder) → IsKept b → IsKept (keepalive k b)
  unfolding keepalive
  keepalive-IsKept k b h = record { byte = h.byte; bits = h.bits }

  will-IsKept :
      (topic message : Bytes) (q : Qos) (r : Bool) (b : ConnectBuilder)
      → IsKept b
      → IsKept (will topic message q r b)
  unfolding will
  will-IsKept topic message q r b =
      more-IsKept 4 (will_bits q r) b _ (more_will q r) (will_flags-bits q r b.flags)
        (with_will (is_some b.will) _ _)

  username-IsKept : (name : Bytes) (b : ConnectBuilder) → IsKept b → IsKept (username name b)
  unfolding username
  username-IsKept name b =
      more-IsKept 128 (λ x. bit_or x 128) b _ more_username (f.union_lem b.flags 128)
        (with_username _ (is_some b.username) _)

  username_password-IsKept :
      (name password : Bytes) (b : ConnectBuilder)
      → IsKept b
      → IsKept (username_password name password b)
  unfolding username_password
  username_password-IsKept name password b =
      more-IsKept 192 (λ x. bit_or x 192) b _ more_password
        (ap (f.union b.flags) (f.union_lem 128 64) ∙ f.union_lem b.flags 192)
        (with_password _ (is_some b.username) (is_some b.password))

  new_unchecked-IsKept : (id : Bytes) → IsKept (new_unchecked id)
  unfolding new_unchecked
  new_unchecked-IsKept id = record { byte = omega arith; bits = refl }

  create-new_unchecked : (id : Bytes) (b : ConnectBuilder) → create id ≡ ok b → new_unchecked id ≡ b
  unfolding create new_unchecked ClientId.validate_value
  create-new_unchecked id b h = cc h

  empty-IsKept : IsKept with_empty_client_id
  unfolding with_empty_client_id new_unchecked
  empty-IsKept = clean_session-IsKept (new_unchecked []) (new_unchecked-IsKept [])

  Step-IsKept : {b c : ConnectBuilder} → Step b c → IsKept b → IsKept c
  Step-IsKept {b = b} Step.set_clean k = clean_session-IsKept b k
  Step-IsKept {b = b} (Step.set_keepalive v) k = keepalive-IsKept v b k
  Step-IsKept {b = b} (Step.set_will t m q r) k = will-IsKept t m q r b k
  Step-IsKept {b = b} (Step.set_username n) k = username-IsKept n b k
  Step-IsKept {b = b} (Step.set_password n p) k = username_password-IsKept n p b k

  Reach-IsKept : {b : ConnectBuilder} → Reach b → IsKept b
  Reach-IsKept (Reach.created id {b} h) =
      let e = create-new_unchecked id b h in rw (← e) (new_unchecked-IsKept id)
  Reach-IsKept (Reach.unchecked id) = new_unchecked-IsKept id
  Reach-IsKept Reach.empty = empty-IsKept
  Reach-IsKept (Reach.later r s) = Step-IsKept s (Reach-IsKept r)

-- A flag that is kept is set exactly if its part is there.
flag-is_set : (b : Bool) (x m : ℕ) → 0 < m → x ≡ flag_if b m → (x == m) ≡ b
flag-is_set true x m pos e = ground arith
flag-is_set false x m pos e = ground arith

module _ ⦃f : Bitflags⦄ where
  IsKept-Agrees : (b : ConnectBuilder) → IsKept b → Agrees b
  IsKept-Agrees b k =
      let w = is_some b.will in
      let u = is_some b.username in
      let p = is_some b.password in
      record {
        reserved =
            f.contains_lem b.flags 1
            ∙ flag-is_set false _ 1 (omega arith) (
                kept_reserved b.flags k.byte
                ∙ (ap (λ x. bit_and x 1) k.bits ∙ reads_reserved w u p));
        will =
            f.contains_lem b.flags 4
            ∙ flag-is_set w _ 4 (omega arith)
                (kept_will b.flags k.byte ∙ (ap (λ x. bit_and x 4) k.bits ∙ reads_will w u p));
        username =
            f.contains_lem b.flags 128
            ∙ flag-is_set u _ 128 (omega arith) (
                kept_username b.flags k.byte
                ∙ (ap (λ x. bit_and x 128) k.bits ∙ reads_username w u p));
        password =
            f.contains_lem b.flags 64
            ∙ flag-is_set p _ 64 (omega arith) (
                kept_password b.flags k.byte
                ∙ (ap (λ x. bit_and x 64) k.bits ∙ reads_password w u p));
      }

module _ ⦃z : Zerocopy⦄ ⦃f : Bitflags⦄ where
  -- Of every builder that the constructors and setters can reach, in any order and number of calls,
  -- the flags say exactly whether there is a will, a user name and a password, and the reserved flag
  -- is not set.
  pub Reach-Agrees : (b : ConnectBuilder) → Reach b → Agrees b
  Reach-Agrees b r = IsKept-Agrees b (Reach-IsKept r)

  -- On every builder that can be reached, `will` sets the retain flag when asked to, and does not
  -- clear it otherwise: after a will that is retained, one that is not keeps the flag.
  pub will-retain :
      (b : ConnectBuilder) (topic message : Bytes) (q : Qos) (retain : Bool)
      → Reach b
      → f.contains (will topic message q retain b).flags Flags.will_retain
        ≡ (retain || f.contains b.flags Flags.will_retain)
  unfolding will
  will-retain b topic message q true r =
      ap (λ x. f.contains x 32) (will_flags-bits q true b.flags)
      ∙ (f.contains_lem (will_bits q true b.flags) 32
          ∙ ap (λ x. x == 32) (retain_set q b.flags (Reach-IsKept r).byte))
  will-retain b topic message q false r =
      ap (λ x. f.contains x 32) (will_flags-bits q false b.flags)
      ∙ (f.contains_lem (will_bits q false b.flags) 32
          ∙ (ap (λ x. x == 32) (retain_left q b.flags (Reach-IsKept r).byte)
              ∙ sym (f.contains_lem b.flags 32)))
