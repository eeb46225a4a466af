-- ===== src/Packets/ConnectParts/Will/Write.antt =====
-- Writing a will, and reading it back.
use mcutt.Common.{ℕ, ◌+◌, ◌<◌, ◌≡◌, refl, ◌++◌, append_assoc, length, length-append, arith}
use mcutt.Bytes.{Bytes, ok, usize_add}
use mcutt.Bytes.Io.{Write, Io, pure, ◌>>=◌}
use mcutt.Bytes.Emits.{Emits, Emits-bind, Emits-return}
use mcutt.External.Zerocopy.{Zerocopy}
use mcutt.Fields.Buff
use mcutt.Fields.Buff.Write.{buff_bytes, length-buff_bytes, parse-buff_bytes}
use mcutt.Fields.MqttStr
use mcutt.Fields.MqttStr.Write.{IsText, encode_len_fits, parse-buff_bytes-IsText}
use mcutt.Packets.ConnectParts.Will.{Will, WillMsg, encode_len, parse, validate}

module _ ⦃z : Zerocopy⦄ {W : Type 0} ⦃writer : Write W⦄ where
  unfoldable pub write_sync : Will → Io W ℕ
  write_sync value = do
    topic ← MqttStr.Write.write_sync value.topic
    msg ← Buff.Write.write_sync value.message
    pure (usize_add topic msg)

-- A will that may be sent.
pub record IsWill (w : Will) : Type 0 where
  pub topic : IsText w.topic
  pub message : length w.message < 65536

abbrev pub will_len : Will → ℕ
will_len w = 4 + length w.topic + length w.message

pub validate_lem : (this : WillMsg) → validate this ≡ ok tt
unfolding validate
validate_lem this = refl

pub encode_len-ok : (w : Will) → IsWill w → encode_len w ≡ ok (will_len w)
unfolding encode_len
encode_len-ok w h =
    let sum : usize_add (2 + length w.topic) (2 + length w.message) ≡ will_len w =
      omega (arith, h.message, h.topic.short) in
    rw (
      encode_len_fits w.topic (omega (arith, h.topic.short)),
      Buff.Write.encode_len-ok w.message h.message,
      sum,
    )

module _ ⦃z : Zerocopy⦄ where
  abbrev pub will_bytes : Will → Bytes
  will_bytes w = buff_bytes w.topic ++ buff_bytes w.message

  pub length-will_bytes : (w : Will) → IsWill w → length (will_bytes w) ≡ will_len w
  length-will_bytes w h = omega (
    arith,
    length-append (buff_bytes w.topic) (buff_bytes w.message),
    length-buff_bytes w.topic h.topic.short,
    length-buff_bytes w.message h.message,
  )

  abbrev pub read_will : Will → WillMsg
  read_will w = record {
    topic = record { len = z.u16_bytes (length w.topic); text = w.topic };
    message = record { len = z.u16_bytes (length w.message); data_bytes = w.message };
  }

  -- `parse` takes exactly the written will off what it is given.
  pub parse-will_bytes :
      (w : Will) (rest : Bytes) → IsWill w → parse (will_bytes w ++ rest) ≡ ok (read_will w, rest)
  unfolding parse validate
  parse-will_bytes w rest h = rw (
    append_assoc (buff_bytes w.topic) (buff_bytes w.message) rest,
    parse-buff_bytes-IsText w.topic (buff_bytes w.message ++ rest) h.topic,
    parse-buff_bytes w.message rest h.message,
  )

module _ ⦃z : Zerocopy⦄ {W : Type 0} ⦃writer : Write W⦄ where
  pub write_sync-Emits :
      (w : Will) → IsWill w → Emits {W = W} (will_bytes w) (will_len w) (write_sync w)
  unfolding write_sync
  write_sync-Emits w h =
      let sum : usize_add (2 + length w.topic) (2 + length w.message) ≡ will_len w =
        omega (arith, h.message, h.topic.short) in
      Emits-bind _ (MqttStr.Write.write_sync-Emits w.topic h.topic) (
        rw (← sum) (
          Emits-return (usize_add (2 + length w.topic))
            (Buff.Write.write_sync-Emits w.message h.message)))
