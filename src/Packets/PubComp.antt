-- ===== src/Packets/PubComp.antt =====
-- src/v3/packets/publish/comp.rs: the PUBCOMP packet, which answers a PUBREL.
pub mod Write
use mcutt.Common.{ℕ}
use mcutt.Bytes.{Bytes, Error, Result, ok}
use mcutt.Bytes.Try.{◌>>=◌, ◌>>◌}
use mcutt.External.Zerocopy.{Zerocopy}
use mcutt.External.Bitflags.{Bitflags}
use mcutt.Fixed.Header
use mcutt.Fields.PacketId
use mcutt.Fields.PacketId.{PacketId}

pub record PubComp : Type 0 where
  pub pkid : PacketId

-- `Parsed::validate`.
pub validate : PubComp → Result (Unit {0}) Error
validate this = ok tt

pub encode_len : ℕ → Result ℕ Error
encode_len value = PacketId.Write.encode_len value

module _ ⦃z : Zerocopy⦄ ⦃f : Bitflags⦄ where
  pub parse : Bytes → Result (PubComp × Bytes) Error
  unfolding validate
  parse buf = do
    (fixed, rest) ← Header.parse_array 1 buf
    (pkid, rest') ← PacketId.parse rest
    validate (record { pkid = pkid })
    ok (record { pkid = pkid }, rest')
