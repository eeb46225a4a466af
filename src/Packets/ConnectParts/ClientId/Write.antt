-- ===== src/Packets/ConnectParts/ClientId/Write.antt =====
-- Writing a client id, and reading it back.
use mcutt.Common.{ℕ, ◌+◌, ◌≡◌, refl, ◌++◌, length, true, false, all, arith}
use mcutt.Bytes.{Bytes, Error, error, out_of_range, Result, ok, err}
use mcutt.Bytes.Io.{Write, Io, lift, ◌>>◌}
use mcutt.Bytes.Emits.{Emits, Emits-lift_bind}
use mcutt.External.Zerocopy.{Zerocopy}
use mcutt.Fields.Utf8.{chars}
use mcutt.Fields.Buff.Write.{buff_bytes}
use mcutt.Fields.MqttStr
use mcutt.Fields.MqttStr.Write.{IsText, encode_len_fits, parse-buff_bytes-IsText}
use mcutt.Packets.ConnectParts.ClientId.{
  ClientId, validate_value, is_ascii_alphanumeric, valid_len, validate, parse,
}

unfoldable pub encode_len : Bytes → Result ℕ Error
encode_len value = MqttStr.encode_len value

module _ ⦃z : Zerocopy⦄ {W : Type 0} ⦃writer : Write W⦄ where
  unfoldable pub write_sync : Bytes → Io W ℕ
  unfolding validate_value
  write_sync value = do lift (validate_value value); MqttStr.Write.write_sync value

pub encode_len-ok : (s : Bytes) → IsText s → encode_len s ≡ ok (2 + length s)
unfolding encode_len
encode_len-ok s h = encode_len_fits s (omega (arith, h.short))

accepts : (s : Bytes) → validate_value s ≡ ok tt
unfolding validate_value
accepts s = refl

-- A client id that a receiver accepts.
pub record IsClientId (s : Bytes) : Type 0 where
  pub text : IsText s
  pub len : valid_len (length s) ≡ true
  pub ascii : all is_ascii_alphanumeric (chars s) ≡ true

module _ ⦃z : Zerocopy⦄ where
  abbrev pub read_client_id : Bytes → ClientId
  read_client_id s = record { id = record { len = z.u16_bytes (length s); text = s } }

  pub validate-read_client_id : (s : Bytes) → IsClientId s → validate (read_client_id s) ≡ ok tt
  unfolding validate
  validate-read_client_id s h = rw (h.len, h.ascii)

  -- `parse` takes exactly the written client id off what it is given.
  pub parse-client_id :
      (s rest : Bytes) → IsClientId s → parse (buff_bytes s ++ rest) ≡ ok (read_client_id s, rest)
  unfolding parse
  parse-client_id s rest h = rw (parse-buff_bytes-IsText s rest h.text, validate-read_client_id s h)

abbrev pub len_error : Error
len_error = error out_of_range "client id must be between 1 and 23 bytes long"

module _ ⦃z : Zerocopy⦄ where
  -- A client id of another length is written, and refused by the reader.
  pub parse-bad_len :
      (s rest : Bytes)
      → IsText s
      → valid_len (length s) ≡ false
      → parse (buff_bytes s ++ rest) ≡ err len_error
  unfolding parse validate
  parse-bad_len s rest t h = rw (parse-buff_bytes-IsText s rest t, h)

module _ ⦃z : Zerocopy⦄ {W : Type 0} ⦃writer : Write W⦄ where
  pub write_sync-Emits :
      (s : Bytes) → IsText s → Emits {W = W} (buff_bytes s) (2 + length s) (write_sync s)
  unfolding write_sync
  write_sync-Emits s h =
      Emits-lift_bind (λ u. MqttStr.Write.write_sync s) (accepts s)
        (MqttStr.Write.write_sync-Emits s h)
