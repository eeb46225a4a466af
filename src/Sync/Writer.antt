-- ===== src/Sync/Writer.antt =====
-- `WriterHalf` of src/sync.rs, which sends packets and remembers whether one was sent since the
-- last tick of the keep-alive timer. Its methods are actions on its state; the flag is an atomic
-- that all of them share, and a sequence of calls is a sequence of actions.
pub mod Sends
pub mod Trace
pub mod KeepAlive
use mcutt.Common.{ℕ, Bool, true, false, if◌then◌else◌}
use mcutt.Bytes.{Error, Result, ok, err}
use mcutt.Bytes.Io
use mcutt.Bytes.Io.{Write, Io, and_then}
use mcutt.External.Zerocopy.{Zerocopy}
use mcutt.External.Bitflags.{Bitflags}
use mcutt.External.Memchr.{Memchr}
use mcutt.Packets.Publish
use mcutt.Packets.Publish.Builder.{PublishBuilder}
use mcutt.Packets.Subscribe
use mcutt.Packets.Subscribe.{SubscribeBuilder}
use mcutt.Packets.Unsubscribe
use mcutt.Packets.Unsubscribe.{UnsubscribeBuilder}
use mcutt.Packets.PingReq
use mcutt.Packets.Disconnect

pub record WriterHalf (W : Type 0) : Type 0 where
  pub sent_flag : Bool
  pub inner : W

module _ {W : Type 0} where
  -- A call on `&mut &self.inner`.
  abbrev pub with_inner :
      {A : Type 0} → WriterHalf W → Result A Error × W → Result A Error × WriterHalf W
  with_inner this (r, w) = (r, record this { inner = w })

  -- `sent_flag.store(flag)`, the last step.
  abbrev pub store : Bool → Io (WriterHalf W) (Unit {0})
  store flag this = (ok tt, record this { sent_flag = flag })

module _ {W : Type 0} ⦃writer : Write W⦄ where
  unfoldable pub flush : Io (WriterHalf W) (Unit {0})
  flush this = with_inner this (Io.flush "while flusing the writer" this.inner)

  -- A packet is written and flushed, and then `last` is done.
  abbrev pub send : Io W ℕ → Io (WriterHalf W) (Unit {0}) → Io (WriterHalf W) (Unit {0})
  send packet last this =
      and_then (with_inner this (packet this.inner))
        (λ written next. and_then (flush next) (λ u. last))

module _ ⦃z : Zerocopy⦄ ⦃f : Bitflags⦄ {W : Type 0} ⦃writer : Write W⦄ where
  unfoldable pub disconnect : Io (WriterHalf W) (Unit {0})
  unfolding flush
  disconnect = send Disconnect.Write.write_sync (λ this. (ok tt, this))

  -- The compare-and-exchange clears the flag; a ping is sent only if it was clear.
  unfoldable pub handle_ping : Io (WriterHalf W) (Unit {0})
  unfolding flush
  handle_ping this =
      if this.sent_flag
      then (ok tt, record this { sent_flag = false })
      else send PingReq.Write.write_sync (store false) this

module _ ⦃z : Zerocopy⦄ ⦃f : Bitflags⦄ ⦃m : Memchr⦄ {W : Type 0} ⦃writer : Write W⦄ where
  unfoldable pub publish : PublishBuilder → Io (WriterHalf W) (Unit {0})
  unfolding flush
  publish packet = send (Publish.Write.write_sync packet) (store true)

  unfoldable pub subscribe : SubscribeBuilder → Io (WriterHalf W) (Unit {0})
  unfolding flush
  subscribe packet = send (Subscribe.Write.write_sync packet) (store true)

  unfoldable pub unsubscribe : UnsubscribeBuilder → Io (WriterHalf W) (Unit {0})
  unfolding flush
  unsubscribe packet = send (Unsubscribe.Write.write_sync packet) (store true)
