-- ===== src/Tests/Sockets.antt =====
-- A network, a poll and a timer for tests. A socket is its bytes; the poll reports what a script
-- says, and fails at its end; every tick is read in full.
use mcutt.Common.{ℕ, zero, suc, List, [], ◌∷◌}
use mcutt.Bytes.{Bytes, IoErrorKind, other, Result, ok, err}
use mcutt.External.Mio.{Token, Poll, Timer, Net}

abbrev pub Script : Type 0
Script = List (List Token)

abbrev pub next_events : Script → Result (List Token) IoErrorKind × Script
next_events [] = (err (other 4), [])
next_events (ts ∷ script) = (ok ts, script)

instance abbrev pub script_poll : Poll Script Bytes ℕ
script_poll = record {
  new = ok ((Token.timer ∷ []) ∷ []);
  register_source = λ p s t. (ok tt, p);
  register_fd = λ p fd t. (ok tt, p);
  poll = next_events;
}

instance abbrev pub script_timer : Timer ℕ
script_timer = record {
  create = ok 3;
  set_time = λ interval value fd. (ok tt, fd);
  read = λ fd. (ok 8, fd);
}

-- No one listens at address 0.
abbrev pub dial : ℕ → Result Bytes IoErrorKind
dial zero = err (other 111)
dial (suc addr) = ok []

instance abbrev pub script_net : Net ℕ Bytes
script_net = record {
  connect_timeout = λ addr timeout. dial addr;
  set_nodelay = λ s. ok tt;
  set_nonblocking = λ s. ok tt;
  set_read_timeout = λ s timeout. ok tt;
  set_write_timeout = λ s timeout. ok tt;
  dup = λ s. ok s;
}
