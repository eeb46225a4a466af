-- ===== src/Packets/ConnectParts/Flags.antt =====
-- `ConnectFlags` of src/v3/packets/connect/mod.rs, by their bits.
use mcutt.Common.{ℕ}

abbrev pub username : ℕ
username = 0b1000_0000

abbrev pub password : ℕ
password = 0b0100_0000

abbrev pub will_retain : ℕ
will_retain = 0b0010_0000

abbrev pub will_qos_1 : ℕ
will_qos_1 = 0b0000_1000

abbrev pub will_qos_2 : ℕ
will_qos_2 = 0b0001_0000

abbrev pub will_qos_reset : ℕ
will_qos_reset = 0b1110_0111

abbrev pub will_flag : ℕ
will_flag = 0b0000_0100

abbrev pub clean_session : ℕ
clean_session = 0b0000_0010

abbrev pub reserved : ℕ
reserved = 0b0000_0001
