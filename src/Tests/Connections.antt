-- ===== src/Tests/Connections.antt =====
-- CONNECT on concrete connection requests.
use mcutt.Common.{◌||◌, length, true, false, ◌≡◌, refl, ◌++◌, [], ◌∷◌, arith}
use mcutt.Bytes.{Bytes, err}
use mcutt.Bytes.Vec.{vec_write}
use mcutt.Bytes.Emits.{Emits, Delivers}
use mcutt.External.Reference.{zerocopy, bitflags}
use mcutt.Fields.Utf8.{decode, is_utf8, chars}
use mcutt.Fields.MqttStr.{is_valid_char}
use mcutt.Fields.MqttStr.Write.{IsText}
use mcutt.Packets.ConnectParts.Flags
use mcutt.Packets.ConnectParts.ClientId.{valid_len}
use mcutt.Packets.ConnectParts.ClientId.Write.{IsClientId, len_error}
use mcutt.Packets.Connect
use mcutt.Packets.Qos.{at_least_once, at_most_once}
use mcutt.Packets.Connect.Builder.{ConnectBuilder, new_unchecked, will, username_password}
use mcutt.Packets.Connect.Write.{write_sync}
use mcutt.Packets.Connect.Frame.{Agrees, HasParts}
use mcutt.Packets.Connect.RoundTrip.{Same, Connect-Delivers}
use mcutt.Packets.Connect.Received.{write_sync-refused}
use mcutt.Packets.Connect.Setters.{Step, Reach, Reach-Agrees, will-retain}

-- The client `id`, with a will to `w` and a name.
abbrev id : Bytes
id = 105 ∷ 100 ∷ []

abbrev topic : Bytes
topic = 119 ∷ []

abbrev with_will : ConnectBuilder
with_will = will topic (1 ∷ []) at_least_once true (new_unchecked id)

abbrev pub request : ConnectBuilder
request = username_password topic (7 ∷ 8 ∷ []) with_will

pub request-Reach : Reach request
request-Reach =
    Reach.later (Reach.later (Reach.unchecked id) (Step.set_will topic (1 ∷ []) at_least_once true))
      (Step.set_password topic (7 ∷ 8 ∷ []))

id-IsText : IsText id
unfolding is_utf8 decode chars is_valid_char
id-IsText = record { utf8 = refl; allowed = refl; short = omega arith }

topic-IsText : IsText topic
unfolding is_utf8 decode chars is_valid_char
topic-IsText = record { utf8 = refl; allowed = refl; short = omega arith }

empty-IsText : IsText []
unfolding is_utf8 decode chars is_valid_char
empty-IsText = record { utf8 = refl; allowed = refl; short = omega arith }

id-IsClientId : IsClientId id
unfolding chars decode
id-IsClientId = record { text = id-IsText; len = refl; ascii = refl }

pub request-HasParts : HasParts request
unfolding will username_password new_unchecked mcutt.Packets.ConnectParts.Header.default
request-HasParts = record {
  client_id = id-IsText;
  keepalive = refl;
  will = record { topic = topic-IsText; message = omega arith };
  username = topic-IsText;
  password = omega arith;
}

pub request_id : IsClientId request.client_id
unfolding will username_password new_unchecked
request_id = id-IsClientId

Reach-Agrees_example : Agrees request
Reach-Agrees_example = Reach-Agrees request request-Reach

Connect-Delivers_example : Delivers {W = Bytes} (write_sync request) Connect.parse (Same request)
Connect-Delivers_example =
    Connect-Delivers request request-HasParts (Reach-Agrees request request-Reach) request_id

-- A second will, which is not to be retained.
will-retain_example :
    bitflags.contains (will topic [] at_most_once false with_will).flags Flags.will_retain
    ≡ (false || bitflags.contains with_will.flags Flags.will_retain)
will-retain_example =
    will-retain with_will topic [] at_most_once false
      (Reach.later (Reach.unchecked id) (Step.set_will topic (1 ∷ []) at_least_once true))

-- A request with the empty client id.
abbrev anonymous : ConnectBuilder
anonymous = new_unchecked []

anonymous-HasParts : HasParts anonymous
unfolding new_unchecked mcutt.Packets.ConnectParts.Header.default
anonymous-HasParts = record {
  client_id = empty-IsText;
  keepalive = refl;
  will = tt;
  username = tt;
  password = tt;
}

anonymous_len : valid_len (length anonymous.client_id) ≡ false
unfolding new_unchecked
anonymous_len = refl

write_sync-refused_example :
    (bs : Bytes) × Emits {W = Bytes} bs (length bs) (write_sync anonymous)
    × ((rest : Bytes) → Connect.parse (bs ++ rest) ≡ err len_error)
write_sync-refused_example =
    write_sync-refused anonymous anonymous-HasParts (Reach-Agrees anonymous (Reach.unchecked []))
      anonymous_len
