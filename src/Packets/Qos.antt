-- ===== src/Packets/Qos.antt =====
-- `Qos` of src/v3/packets/mod.rs, and the bytes that stand for it.
use mcutt.Common.{ℕ, ◌<◌, ◌≡◌, ◌↔◌, ◌==◌, if◌then◌else◌, arith}
use mcutt.Bytes.{Result, ok, err}

pub data Qos : Type 0 where
  at_most_once at_least_once exactly_once : Qos

-- `From<Qos> for u8`.
u8_from : Qos → ℕ
u8_from at_most_once = 0
u8_from at_least_once = 1
u8_from exactly_once = 2

-- `TryFrom<u8> for Qos`: the error is the byte.
try_from : ℕ → Result Qos ℕ
try_from value =
    if value == 0
    then ok at_most_once
    else if value == 1
    then ok at_least_once
    else if value == 2
    then ok exactly_once
    else err value

-- A byte is a QoS exactly when it is the byte of that QoS.
try_from_iff : (value : ℕ) (q : Qos) → (try_from value ≡ ok q) ↔ (value ≡ u8_from q)
unfolding try_from u8_from
try_from_iff value at_most_once = ground arith
try_from_iff value at_least_once = ground arith
try_from_iff value exactly_once = ground arith

-- Any other is given back as the error.
try_from_err_iff : (value e : ℕ) → (try_from value ≡ err e) ↔ ((2 < value) × (e ≡ value))
unfolding try_from
try_from_err_iff value e = ground arith
