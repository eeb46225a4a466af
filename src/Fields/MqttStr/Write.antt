-- ===== src/Fields/MqttStr/Write.antt =====
-- Writing a string, and reading it back.
use mcutt.Common.{ℕ, ◌+◌, ◌<◌, ◌≡◌, refl, ◌++◌, length, true, arith}
use mcutt.Bytes.{usize_mod, Bytes, error, ok}
use mcutt.Bytes.Io.{Write, Io, lift, map_err, ◌>>◌}
use mcutt.Bytes.Emits.{Emits, Emits-lift_bind, Emits-map_err}
use mcutt.External.Zerocopy.{Zerocopy}
use mcutt.Fields.Utf8.{is_utf8}
use mcutt.Fields.Buff
use mcutt.Fields.Buff.{Buff}
use mcutt.Fields.Buff.Write.{buff_bytes, parse-buff_bytes}
use mcutt.Fields.PacketId.Write.{split-u16_bytes}
use mcutt.Fields.MqttStr.{MqttStr, valid_chars, validate_value, validate, encode_len, parse}

module _ ⦃z : Zerocopy⦄ {W : Type 0} ⦃writer : Write W⦄ where
  pub write_sync : Bytes → Io W ℕ
  write_sync value = do
    lift (validate_value value)
    map_err (λ e. error e.kind "writing MQTT string") (Buff.Write.write_sync value)

-- A string that may be sent: valid UTF-8 of at most 65535 bytes, with no forbidden character.
pub record IsText (s : Bytes) : Type 0 where
  pub utf8 : is_utf8 s ≡ true
  pub allowed : valid_chars s ≡ true
  pub short : length s < 65536

pub validate_value-ok : (s : Bytes) → valid_chars s ≡ true → validate_value s ≡ ok tt
unfolding validate_value
validate_value-ok s h = rw h

pub validate-ok : (this : MqttStr) → valid_chars this.text ≡ true → validate this ≡ ok tt
unfolding validate
validate-ok this h = rw h

pub encode_len_fits : (s : Bytes) → 2 + length s < usize_mod → encode_len s ≡ ok (2 + length s)
unfolding encode_len
encode_len_fits s h = ground arith

module _ ⦃z : Zerocopy⦄ where
  -- `parse` takes exactly the written string off what it is given.
  pub parse-buff_bytes-IsText :
      (s rest : Bytes)
      → IsText s
      → parse (buff_bytes s ++ rest) ≡ ok (record { len = z.u16_bytes (length s); text = s }, rest)
  unfolding parse validate
  parse-buff_bytes-IsText s rest t = rw (
    parse-buff_bytes s rest t.short,
    z.try_ref_from_bytes_lem 2 is_utf8 _,
    split-u16_bytes (length s) s t.short,
    t.utf8,
    t.allowed,
  )

module _ ⦃z : Zerocopy⦄ {W : Type 0} ⦃writer : Write W⦄ where
  pub write_sync-Emits :
      (s : Bytes) → IsText s → Emits {W = W} (buff_bytes s) (2 + length s) (write_sync s)
  unfolding write_sync
  write_sync-Emits s t = Emits-lift_bind _ (validate_value-ok s t.allowed) (
      Emits-map_err _ (λ k msg. ("writing MQTT string", refl))
        (Buff.Write.write_sync-Emits s t.short))
