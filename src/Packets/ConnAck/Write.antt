-- ===== src/Packets/ConnAck/Write.antt =====
-- The `Encode` of src/v3/packets/connect/ack.rs: it writes the two bytes of the variable header.
use mcutt.Common.{ℕ, ◌≡◌}
use mcutt.Bytes.{ok}
use mcutt.Bytes.Io.{Write, Io, pure, lift, write_all, ◌>>◌}
use mcutt.Bytes.Emits.{Emits, Emits-lift_bind, Emits-return, Emits-write_all}
use mcutt.External.Bitflags.{Bitflags}
use mcutt.Packets.ConnAck.{ConnAck, as_bytes, validate}

module _ ⦃f : Bitflags⦄ {W : Type 0} ⦃writer : Write W⦄ where
  unfoldable pub write_sync : ConnAck → Io W ℕ
  write_sync value = do
    lift (validate value)
    write_all (as_bytes value) "writing CONNACK packet"
    pure 2

  pub write_sync-Emits :
      (v : ConnAck) → validate v ≡ ok tt → Emits {W = W} (as_bytes v) 2 (write_sync v)
  unfolding write_sync
  write_sync-Emits v h = Emits-lift_bind _ h (Emits-return (λ u. 2) (Emits-write_all _ _))
