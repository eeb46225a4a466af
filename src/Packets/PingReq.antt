-- ===== src/Packets/PingReq.antt =====
-- src/v3/packets/ping/mod.rs: the PINGREQ packet, a header and nothing behind it.
pub mod Write
use mcutt.Common.{ℕ}
use mcutt.Bytes.{Bytes, Error, Result, ok}
use mcutt.Bytes.Try.{◌>>=◌}
use mcutt.External.Zerocopy.{Zerocopy}
use mcutt.External.Bitflags.{Bitflags}
use mcutt.Fixed.Header

pub data PingReq : Type 0 where
  ping_req : PingReq

module _ ⦃z : Zerocopy⦄ ⦃f : Bitflags⦄ where
  pub parse : Bytes → Result (PingReq × Bytes) Error
  parse buf = do (fixed, rest) ← Header.parse_array 1 buf; ok (ping_req, rest)
