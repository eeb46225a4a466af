-- ===== src/Packets/Disconnect/Write.antt =====
-- Writing DISCONNECT, and reading it back.
use mcutt.Common.{ℕ, ◌≡◌, refl, ◌++◌, arith}
use mcutt.Bytes.{Bytes, ok}
use mcutt.Bytes.Io.{Write, Io}
use mcutt.Bytes.Emits.{Emits, Delivers}
use mcutt.External.Zerocopy.{Zerocopy}
use mcutt.External.Bitflags.{Bitflags}
use mcutt.Fixed.PacketType
use mcutt.Fixed.Header.Builder
use mcutt.Fixed.Header.Builder.Emits.{write_sync-new-Emits}
use mcutt.Packets.Short.{short_bytes, length-short_bytes, parse_array-short_bytes}
use mcutt.Packets.Disconnect.{Disconnect, disconnect, parse}

module _ ⦃f : Bitflags⦄ {W : Type 0} ⦃writer : Write W⦄ where
  pub write_sync : Io W ℕ
  write_sync = Builder.write_sync (Builder.new PacketType.disconnect)

  pub write_sync-Emits : Emits {W = W} (short_bytes PacketType.disconnect 0) 2 write_sync
  unfolding write_sync
  write_sync-Emits = write_sync-new-Emits PacketType.disconnect

module _ ⦃z : Zerocopy⦄ ⦃f : Bitflags⦄ where
  pub parse-short_bytes :
      (rest : Bytes) → parse (short_bytes PacketType.disconnect 0 ++ rest) ≡ ok (disconnect, rest)
  unfolding parse
  parse-short_bytes rest = rw (parse_array-short_bytes PacketType.disconnect 0 rest (omega arith))

module _ ⦃z : Zerocopy⦄ ⦃f : Bitflags⦄ {W : Type 0} ⦃writer : Write W⦄ where
  -- On any writer `write_sync` writes a DISCONNECT and returns its length, unless the writer fails, and
  -- `parse` takes exactly that packet off any buffer.
  pub Disconnect-Delivers :
      Delivers {W = W} write_sync parse (λ (this : Disconnect). this ≡ disconnect)
  Disconnect-Delivers = (
    short_bytes PacketType.disconnect 0,
    disconnect,
    rw (length-short_bytes PacketType.disconnect 0) write_sync-Emits,
    parse-short_bytes,
    refl,
  )
