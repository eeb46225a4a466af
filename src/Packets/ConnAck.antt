-- ===== src/Packets/ConnAck.antt =====
-- src/v3/packets/connect/ack.rs: the CONNACK packet, the server's answer to a CONNECT.
pub mod Write
pub mod Reserved
pub mod Local
use mcutt.Common.{ℕ, ◌*◌, List, [], ◌∷◌, Bool, true, false, not, ◌==◌, leb, if◌then◌else◌}
use mcutt.Bytes.{Bytes, Error, error, invalid, Result, ok, err}
use mcutt.Bytes.Try.{◌>>=◌, ◌>>◌, map_err, fail_if}
use mcutt.External.Zerocopy.{Zerocopy}
use mcutt.External.Bitflags.{Bitflags}
use mcutt.Fixed.Header
use mcutt.Fields.MqttStr.{convert_kind}

pub data ReturnCode : Type 0 where
  accepted protocol_version identifier_rejected : ReturnCode
  server_unavailable bad_username_password not_authorized : ReturnCode

-- The discriminant.
abbrev pub code_byte : ReturnCode → ℕ
code_byte accepted = 0
code_byte protocol_version = 1
code_byte identifier_rejected = 2
code_byte server_unavailable = 3
code_byte bad_username_password = 4
code_byte not_authorized = 5

-- `ReturnCode::try_from`.
unfoldable pub try_from : ℕ → Result ReturnCode Error
try_from value =
    if value == 0
    then ok accepted
    else if value == 1
    then ok protocol_version
    else if value == 2
    then ok identifier_rejected
    else if value == 3
    then ok server_unavailable
    else if value == 4
    then ok bad_username_password
    else if value == 5
    then ok not_authorized
    else err (error invalid "CONNACK return code")

pub record ConnAck : Type 0 where
  pub flags : ℕ
  pub return_code : ReturnCode

abbrev pub session_present_flag : ℕ
session_present_flag = 1

-- The bits of all flags of `ConnAckFlags`.
abbrev pub all_flags : ℕ
all_flags = 1

unfoldable pub is_accepted : ReturnCode → Bool
is_accepted accepted = true
is_accepted _ = false

unfoldable pub error_for_code : ConnAck → Result ConnAck Error
error_for_code this = elim (this.return_code) [
  | accepted ↦ ok this
  | protocol_version ↦ err (error invalid "protocl version")
  | identifier_rejected ↦ err (error invalid "client id")
  | server_unavailable ↦ err (error invalid "server not available")
  | bad_username_password ↦ err (error invalid "username or password")
  | not_authorized ↦ err (error invalid "not authorized")
]

-- The two bytes of the struct: any flags, and a return code that is one of the enum's.
abbrev pub valid_bytes : Bytes → Bool
valid_bytes (flags ∷ code ∷ []) = leb code 5
valid_bytes _ = false

abbrev pub code_of : ℕ → ReturnCode
code_of code =
    if code == 0
    then accepted
    else if code == 1
    then protocol_version
    else if code == 2
    then identifier_rejected
    else if code == 3
    then server_unavailable
    else if code == 4
    then bad_username_password
    else not_authorized

abbrev pub from_bytes : Bytes → ConnAck
from_bytes (flags ∷ code ∷ []) = record { flags = flags; return_code = code_of code }
from_bytes _ = record { flags = 0; return_code = accepted }

abbrev pub as_bytes : ConnAck → Bytes
as_bytes this = this.flags ∷ code_byte this.return_code ∷ []

module _ ⦃f : Bitflags⦄ where
  unfoldable pub session_present : ConnAck → Bool
  session_present this = f.contains this.flags session_present_flag

  unfoldable pub validate : ConnAck → Result (Unit {0}) Error
  validate this =
      let reserved = f.intersection this.flags (f.complement all_flags session_present_flag) in
      fail_if (not (f.is_empty reserved)) (error invalid "connack flags reserved")

module _ ⦃z : Zerocopy⦄ ⦃f : Bitflags⦄ where
  unfoldable pub parse : Bytes → Result (ConnAck × Bytes) Error
  unfolding validate
  parse buff = do
    (fixed, rest) ← Header.parse_array 1 buff
    (this, rest') ←
        map_err (λ e. error (convert_kind e) "CONNACK packet")
          (z.try_ref_from_prefix 2 valid_bytes rest)
    validate (from_bytes this)
    ok (from_bytes this, rest')
