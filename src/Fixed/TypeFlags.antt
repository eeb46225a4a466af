-- ===== src/Fixed/TypeFlags.antt =====
-- The flags of `TypeFlags`, src/v3/packets/common/fixed/mod.rs, as bits.
use mcutt.Common.{ℕ}

abbrev pub publish_dup : ℕ
publish_dup = 8

abbrev pub publish_qos_1 : ℕ
publish_qos_1 = 2

abbrev pub publish_qos_2 : ℕ
publish_qos_2 = 4

abbrev pub publish_retain : ℕ
publish_retain = 1

abbrev pub pubrel : ℕ
pubrel = 2

abbrev pub subscribe : ℕ
subscribe = 2

abbrev pub unsubscribe : ℕ
unsubscribe = 2

-- The bits of all flags.
abbrev pub all_bits : ℕ
all_bits = 15
