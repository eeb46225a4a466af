-- ===== src/Packets/PingResp/Write.antt =====
-- Writing PINGRESP, and reading it back.
use mcutt.Common.{ℕ, ◌<◌, ◌≡◌, refl, ◌++◌, arith}
use mcutt.Bytes.{Bytes, ok}
use mcutt.Bytes.Io.{Write, Io}
use mcutt.Bytes.Local.{IsLocal, IsLocal-bind, IsLocal-pure}
use mcutt.Bytes.Emits.{Emits, Delivers}
use mcutt.External.Zerocopy.{Zerocopy}
use mcutt.External.Bitflags.{Bitflags}
use mcutt.Fixed.PacketType
use mcutt.Fixed.Header
use mcutt.Fixed.Header.Builder
use mcutt.Fixed.Header.Builder.Emits.{write_sync-new-Emits}
use mcutt.Fixed.RemainingLength.{encode_to_array}
use mcutt.Packets.Framed.{DeliversAs, DeliversAs-Delivers}
use mcutt.Packets.Short.{short_bytes, length-short_bytes, parse_array-short_bytes}
use mcutt.Packets.PingResp.{PingResp, ping_resp, parse}

module _ ⦃f : Bitflags⦄ {W : Type 0} ⦃writer : Write W⦄ where
  pub write_sync : Io W ℕ
  write_sync = Builder.write_sync (Builder.new PacketType.ping_resp)

  pub write_sync-Emits : Emits {W = W} (short_bytes PacketType.ping_resp 0) 2 write_sync
  unfolding write_sync
  write_sync-Emits = write_sync-new-Emits PacketType.ping_resp

module _ ⦃z : Zerocopy⦄ ⦃f : Bitflags⦄ where
  pub parse-IsLocal : IsLocal 2 parse
  unfolding parse
  parse-IsLocal =
      IsLocal-bind 2 0 (Header.parse_array 1) (λ fixed rest. ok (ping_resp, rest))
        (Header.Local.parse_array-IsLocal 1) (λ fixed. IsLocal-pure ping_resp)

  -- The remaining length that the header gives is not looked at.
  pub parse-any_length :
      (len : ℕ) (rest : Bytes)
      → len < 128
      → parse (short_bytes PacketType.ping_resp len ++ rest) ≡ ok (ping_resp, rest)
  unfolding parse
  parse-any_length len rest small = rw (parse_array-short_bytes PacketType.ping_resp len rest small)

  pub parse-short_bytes :
      (rest : Bytes) → parse (short_bytes PacketType.ping_resp 0 ++ rest) ≡ ok (ping_resp, rest)
  parse-short_bytes rest = parse-any_length 0 rest (omega arith)

module _ ⦃z : Zerocopy⦄ ⦃f : Bitflags⦄ {W : Type 0} ⦃writer : Write W⦄ where
  -- The packet starts with the first byte of its type.
  pub PingResp-DeliversAs :
      DeliversAs {W = W} PacketType.ping_resp
        (PacketType.default_flags PacketType.ping_resp)
        write_sync
        parse
        (λ (this : PingResp). this ≡ ping_resp)
  PingResp-DeliversAs = (
    encode_to_array 1 0,
    ping_resp,
    rw (length-short_bytes PacketType.ping_resp 0) write_sync-Emits,
    parse-short_bytes,
    refl,
  )

  -- On any writer `write_sync` writes a PINGRESP and returns its length, unless the writer fails, and
  -- `parse` takes exactly that packet off any buffer.
  pub PingResp-Delivers : Delivers {W = W} write_sync parse (λ (this : PingResp). this ≡ ping_resp)
  PingResp-Delivers =
      DeliversAs-Delivers PacketType.ping_resp (PacketType.default_flags PacketType.ping_resp) parse
        PingResp-DeliversAs
