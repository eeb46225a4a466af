-- ===== src/Packets/PingReq/Write.antt =====
-- Writing PINGREQ, and reading it back.
use mcutt.Common.{ℕ, ◌≡◌, refl, ◌++◌, arith}
use mcutt.Bytes.{Bytes, ok}
use mcutt.Bytes.Io.{Write, Io}
use mcutt.Bytes.Emits.{Emits, Delivers}
use mcutt.External.Zerocopy.{Zerocopy}
use mcutt.External.Bitflags.{Bitflags}
use mcutt.Fixed.PacketType
use mcutt.Fixed.Header.Builder
use mcutt.Fixed.Header.Builder.Emits.{write_sync-new-Emits}
use mcutt.Packets.Short.{short_bytes, length-short_bytes, parse_array-short_bytes}
use mcutt.Packets.PingReq.{PingReq, ping_req, parse}

module _ ⦃f : Bitflags⦄ {W : Type 0} ⦃writer : Write W⦄ where
  pub write_sync : Io W ℕ
  write_sync = Builder.write_sync (Builder.new PacketType.ping_req)

  pub write_sync-Emits : Emits {W = W} (short_bytes PacketType.ping_req 0) 2 write_sync
  unfolding write_sync
  write_sync-Emits = write_sync-new-Emits PacketType.ping_req

module _ ⦃z : Zerocopy⦄ ⦃f : Bitflags⦄ where
  pub parse-short_bytes :
      (rest : Bytes) → parse (short_bytes PacketType.ping_req 0 ++ rest) ≡ ok (ping_req, rest)
  unfolding parse
  parse-short_bytes rest = rw (parse_array-short_bytes PacketType.ping_req 0 rest (omega arith))

module _ ⦃z : Zerocopy⦄ ⦃f : Bitflags⦄ {W : Type 0} ⦃writer : Write W⦄ where
  -- On any writer `write_sync` writes a PINGREQ and returns its length, unless the writer fails, and
  -- `parse` takes exactly that packet off any buffer.
  pub PingReq-Delivers : Delivers {W = W} write_sync parse (λ (this : PingReq). this ≡ ping_req)
  PingReq-Delivers = (
    short_bytes PacketType.ping_req 0,
    ping_req,
    rw (length-short_bytes PacketType.ping_req 0) write_sync-Emits,
    parse-short_bytes,
    refl,
  )
