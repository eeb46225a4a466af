-- ===== src/Packets/Connect.antt =====
-- src/v3/packets/connect/mod.rs: the CONNECT packet.
pub mod Builder
pub mod Write
pub mod Frame
pub mod RoundTrip
pub mod Kept
pub mod Setters
pub mod Received
use mcutt.Common.{ℕ, Option}
use mcutt.Bytes.{Bytes, Error, error, invalid, Result, ok, err}
use mcutt.Bytes.Try.{◌>>=◌, ◌>>◌}
use mcutt.External.Zerocopy.{Zerocopy}
use mcutt.External.Bitflags.{Bitflags}
use mcutt.Fixed.PacketType
use mcutt.Fixed.PacketType.{ControlPacketType}
use mcutt.Fixed.Header
use mcutt.Fixed.Header.{FixedHeader}
use mcutt.Fields.Buff
use mcutt.Fields.Buff.{Buff}
use mcutt.Fields.MqttStr
use mcutt.Fields.MqttStr.{MqttStr}
use mcutt.Packets.Optional.{validate_part, parse_part}
use mcutt.Packets.ConnectParts.Flags
use mcutt.Packets.ConnectParts.Header as VariableHeader
use mcutt.Packets.ConnectParts.Header.{ConnectHeader}
use mcutt.Packets.ConnectParts.ClientId
use mcutt.Packets.ConnectParts.ClientId.{ClientId}
use mcutt.Packets.ConnectParts.Will
use mcutt.Packets.ConnectParts.Will.{WillMsg}

pub record Connect : Type 0 where
  pub fixed : FixedHeader
  pub header : ConnectHeader
  pub client_id : ClientId
  pub will : Option WillMsg
  pub username : Option MqttStr
  pub password : Option Buff

abbrev pub is_connect : ControlPacketType → Result (Unit {0}) Error
is_connect PacketType.connect = ok tt
is_connect _ = err (error invalid "controll packet type")

module _ ⦃f : Bitflags⦄ where
  -- The packet type is that of a header that was parsed, so that reading it does not panic.
  unfoldable pub validate : Connect → Result (Unit {0}) Error
  validate this = do
    type ← Header.packet_type this.fixed
    is_connect type
    VariableHeader.validate this.header
    ClientId.validate this.client_id
    validate_part Will.validate this.will
    validate_part MqttStr.validate this.username
    validate_part Buff.validate this.password

module _ ⦃z : Zerocopy⦄ ⦃f : Bitflags⦄ where
  -- The packet is not cut to its remaining length: its parts say where it ends.
  unfoldable pub parse : Bytes → Result (Connect × Bytes) Error
  unfolding validate
  parse buf = do
    (fixed, rest) ← Header.parse buf
    (header, rest) ← VariableHeader.parse rest
    (client_id, rest) ← ClientId.parse rest
    (will, rest) ← parse_part (f.contains header.flags Flags.will_flag) Will.parse rest
    (username, rest) ← parse_part (f.contains header.flags Flags.username) MqttStr.parse rest
    (password, rest) ← parse_part (f.contains header.flags Flags.password) Buff.parse rest
    validate (record {
      fixed = fixed;
      header = header;
      client_id = client_id;
      will = will;
      username = username;
      password = password;
    })
    ok (
      record {
        fixed = fixed;
        header = header;
        client_id = client_id;
        will = will;
        username = username;
        password = password;
      },
      rest,
    )
