-- ===== src/Tests/Ticks.antt =====
-- Sequences of calls and ticks on a `Vec<u8>`, which never fails.
use mcutt.Common.{
  ℕ, ◌<◌, ◌≡◌, refl, ap, ◌∙◌, List, [], ◌∷◌, ◌++◌, Bool, true, false, some, none, length,
}
use mcutt.Bytes.{Bytes, Error, Result, ok, err, error, std_io, other}
use mcutt.Bytes.Io.{Io, and_then}
use mcutt.Bytes.Vec.{vec_write, Emits-vec}
use mcutt.Bytes.Emits.{Emits}
use mcutt.External.Mio.{Token}
use mcutt.External.Reference.{zerocopy, bitflags, memchr}
use mcutt.Packets.PingReq
use mcutt.Packets.Publish
use mcutt.Packets.Publish.RoundTrip.{Publish-Delivers}
use mcutt.Sync.Writer.{WriterHalf, flush, with_inner, store, send, handle_ping, publish}
use mcutt.Sync.Writer.Trace.{Call, publishes, ticks, run, run-Written, Written}
use mcutt.Sync.Writer.KeepAlive.{run-KeepsAlive}
use mcutt.Sync.Connection.{Connection, poll_event, for_events, after_round, or_next, on_writer}
use mcutt.Sync.Connection.Pings.{ping}
use mcutt.Sync.Connection.Pings.Loop.{PingsOnly, poll_event-PingsOnly}
use mcutt.Tests.Messages.{message, message-IsSendable}
use mcutt.Tests.Streams.{byte_slice}
use mcutt.Tests.Sockets.{Script, script_poll, script_timer}

abbrev Half : Type 0
Half = WriterHalf Bytes

abbrev half : Bool → Bytes → Half
half flag out = record { sent_flag = flag; inner = out }

send-vec :
    (bs : Bytes) (n : ℕ) (packet : Io Bytes ℕ) (flag was : Bool) (out : Bytes)
    → Emits {W = Bytes} bs n packet
    → send packet (store flag) (half was out) ≡ (ok tt, half flag (out ++ bs))
unfolding flush
send-vec bs n packet flag was out e =
    ap
      (λ (r : Result ℕ Error × Bytes).
        and_then (with_inner (half was out) r)
          (λ written next. and_then (flush next) (λ u. store flag)))
      (Emits-vec e out)

abbrev message_bytes : Bytes
message_bytes = (Publish-Delivers {W = Bytes} message message-IsSendable).0

tick-clear : (out : Bytes) → handle_ping (half false out) ≡ (ok tt, half false (out ++ ping))
unfolding handle_ping
tick-clear out =
    send-vec ping 2 PingReq.Write.write_sync false false out PingReq.Write.write_sync-Emits

tick-set : (out : Bytes) → handle_ping (half true out) ≡ (ok tt, half false out)
unfolding handle_ping
tick-set out = refl

publish-vec :
    (was : Bool) (out : Bytes)
    → publish message (half was out) ≡ (ok tt, half true (out ++ message_bytes))
unfolding publish
publish-vec was out =
    let (bs, this, emits, read, same) = Publish-Delivers {W = Bytes} message message-IsSendable in
    send-vec bs (length bs) (Publish.Write.write_sync message) true was out emits

-- A tick, a message and a tick, when nothing had been sent.
abbrev calls : List Call
calls = ticks ∷ publishes message ∷ ticks ∷ []

run-calls : (run calls (half false [])).0 ≡ ok tt
run-calls =
    ap
      (λ (r : Result (Unit {0}) Error × Half).
        (and_then r (λ u. run (publishes message ∷ ticks ∷ []))).0)
      (tick-clear [])
    ∙ (ap (λ (r : Result (Unit {0}) Error × Half). (and_then r (λ u. run (ticks ∷ []))).0)
          (publish-vec false ping)
        ∙ ap (λ (r : Result (Unit {0}) Error × Half). (and_then r (λ u. run [])).0)
            (tick-set (ping ++ message_bytes)))

run-Written_example :
    (bs : Bytes) × ((run calls (half false [])).1.inner ≡ [] ++ bs)
    × Written calls false bs (run calls (half false [])).1.sent_flag
run-Written_example =
    run-Written calls (half false []) (tt, (message-IsSendable, (tt, tt))) run-calls

run-KeepsAlive_example : length (half false []).inner < length (run calls (half false [])).1.inner
run-KeepsAlive_example =
    run-KeepsAlive (publishes message ∷ []) (half false []) (message-IsSendable, (tt, tt)) run-calls

-- One tick, and then the poll fails.
abbrev ticking : Script → Bytes → Connection Script ℕ Bytes
ticking script out = record {
  writer = half false out;
  reader = record {
    poll = script;
    timer_fd = 3;
    inner = record { buf = []; pos = 0; frame = none; filled = 0; inner = [] };
  };
}

abbrev failed : Result Bytes Error × Connection Script ℕ Bytes
failed = (err (error (std_io (other 4)) "while polling"), ticking [] ping)

poll_event-ticking : poll_event 2 (ticking ((Token.timer ∷ []) ∷ []) []) ≡ some failed
unfolding poll_event
poll_event-ticking =
    ap
      (λ (r : Result (Unit {0}) Error × Half). after_round (poll_event 1) (
        and_then (and_then (on_writer (ticking [] []) r) (λ u next. (ok false, next)))
          (or_next (for_events []))))
      (tick-clear [])

poll_event-PingsOnly_example : PingsOnly (ticking ((Token.timer ∷ []) ∷ []) []) failed
poll_event-PingsOnly_example =
    poll_event-PingsOnly 2 (ticking ((Token.timer ∷ []) ∷ []) []) failed poll_event-ticking
