-- ===== src/Packets/PingResp.antt =====
-- src/v3/packets/ping/resp.rs: the PINGRESP packet, a header and nothing behind it.
pub mod Write
use mcutt.Common.{ℕ}
use mcutt.Bytes.{Bytes, Error, Result, ok}
use mcutt.Bytes.Try.{◌>>=◌}
use mcutt.External.Zerocopy.{Zerocopy}
use mcutt.External.Bitflags.{Bitflags}
use mcutt.Fixed.Header

pub data PingResp : Type 0 where
  ping_resp : PingResp

module _ ⦃z : Zerocopy⦄ ⦃f : Bitflags⦄ where
  pub parse : Bytes → Result (PingResp × Bytes) Error
  parse buf = do (fixed, rest) ← Header.parse_array 1 buf; ok (ping_resp, rest)
