-- ===== src/Packets/Connect/Builder.antt =====
-- src/v3/packets/connect/builder.rs: the builder of a CONNECT packet.
use mcutt.Common.{ℕ, Option, none, some, [], Bool, if◌then◌else◌}
use mcutt.Bytes.{Bytes, Error, Result, ok}
use mcutt.Bytes.Try.{◌>>◌}
use mcutt.External.Zerocopy.{Zerocopy}
use mcutt.External.Bitflags.{Bitflags}
use mcutt.Packets.Qos.{Qos, at_most_once, at_least_once, exactly_once}
use mcutt.Packets.ConnectParts.Flags
use mcutt.Packets.ConnectParts.Header.{KeepAlive, default}
use mcutt.Packets.ConnectParts.ClientId
use mcutt.Packets.ConnectParts.Will.{Will}

pub record ConnectBuilder : Type 0 where
  pub client_id : Bytes
  pub flags : ℕ
  pub keepalive : KeepAlive
  pub will : Option Will
  pub username : Option Bytes
  pub password : Option Bytes

module _ ⦃z : Zerocopy⦄ where
  unfoldable pub new_unchecked : Bytes → ConnectBuilder
  new_unchecked client_id = record {
    client_id = client_id;
    flags = 0;
    keepalive = default;
    will = none;
    username = none;
    password = none;
  }

  unfoldable pub create : Bytes → Result ConnectBuilder Error
  create client_id = do
    ClientId.validate_value client_id
    ok (record {
      client_id = client_id;
      flags = 0;
      keepalive = default;
      will = none;
      username = none;
      password = none;
    })

module _ ⦃f : Bitflags⦄ where
  unfoldable pub clean_session : ConnectBuilder → ConnectBuilder
  clean_session this = record this { flags = f.union this.flags Flags.clean_session }

module _ ⦃z : Zerocopy⦄ ⦃f : Bitflags⦄ where
  unfoldable pub with_empty_client_id : ConnectBuilder
  unfolding clean_session
  with_empty_client_id =
      let this : ConnectBuilder = record {
        client_id = [];
        flags = 0;
        keepalive = default;
        will = none;
        username = none;
        password = none;
      } in
      clean_session this

unfoldable pub keepalive : KeepAlive → ConnectBuilder → ConnectBuilder
keepalive value this = record this { keepalive = value }

module _ ⦃f : Bitflags⦄ where
  -- The match on the QoS of the will.
  abbrev pub add_qos : Qos → ℕ → ℕ
  add_qos at_most_once flags = flags
  add_qos at_least_once flags = f.union flags Flags.will_qos_1
  add_qos exactly_once flags = f.union flags Flags.will_qos_2

  abbrev pub will_flags : Qos → Bool → ℕ → ℕ
  will_flags qos retain flags =
      let flags = f.union flags Flags.will_flag in
      let flags = f.intersection flags Flags.will_qos_reset in
      let flags = add_qos qos flags in if retain then f.union flags Flags.will_retain else flags

  unfoldable pub will : Bytes → Bytes → Qos → Bool → ConnectBuilder → ConnectBuilder
  will topic message qos retain this = record this {
    will = some (record { topic = topic; message = message });
    flags = will_flags qos retain this.flags;
  }

  unfoldable pub username : Bytes → ConnectBuilder → ConnectBuilder
  username name this = record this {
    flags = f.union this.flags Flags.username;
    username = some name;
  }

  unfoldable pub username_password : Bytes → Bytes → ConnectBuilder → ConnectBuilder
  username_password name password this = record this {
    flags = f.union this.flags (f.union Flags.username Flags.password);
    username = some name;
    password = some password;
  }
