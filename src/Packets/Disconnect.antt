-- ===== src/Packets/Disconnect.antt =====
-- src/v3/packets/disconnect.rs: the DISCONNECT packet, a header and nothing behind it.
pub mod Write
use mcutt.Common.{ℕ}
use mcutt.Bytes.{Bytes, Error, Result, ok}
use mcutt.Bytes.Try.{◌>>=◌}
use mcutt.External.Zerocopy.{Zerocopy}
use mcutt.External.Bitflags.{Bitflags}
use mcutt.Fixed.Header

pub data Disconnect : Type 0 where
  disconnect : Disconnect

module _ ⦃z : Zerocopy⦄ ⦃f : Bitflags⦄ where
  pub parse : Bytes → Result (Disconnect × Bytes) Error
  parse buf = do (fixed, rest) ← Header.parse_array 1 buf; ok (disconnect, rest)
