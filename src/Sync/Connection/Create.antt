-- ===== src/Sync/Connection/Create.antt =====
-- How a connection is made: `connect_socket`, `create_timer_fd`, `register` and the two `create`.
-- The calls that configure a socket change no state that is modelled; a call that fails ends the
-- attempt with its error.
use mcutt.Common.{ℕ, ◌/◌, ◌^◌, String, List, [], ◌∷◌, Option, none, some, false, ltb, if◌then◌else◌}
use mcutt.Bytes.{IoErrorKind, std_io, invalid, out_of_range, Error, error, Result, ok, err, ok_or}
use mcutt.Bytes.Try.{◌>>=◌, ◌>>◌, map_err}
use mcutt.External.Mio.{Token, Poll, Timer, Net}
use mcutt.Sync.Reader
use mcutt.Sync.Reader.{Reader}
use mcutt.Sync.Connection.{ReaderHalf, Connection}

abbrev pub opening_error : IoErrorKind → Error
opening_error kind = error (std_io kind) "while opening socket"

-- The first attempt that succeeded.
abbrev pub or_first : {S : Type 0} → Result S IoErrorKind → Option S → Option S
or_first (ok pair) rest = some pair
or_first (err e) rest = rest

module _ {A S : Type 0} ⦃net : Net A S⦄ where
  -- The closure on an address: a configured socket and its clone for reading.
  unfoldable pub open_socket : ℕ → A → Result (S × S) IoErrorKind
  open_socket timeout addr = do
    writer ← net.connect_timeout addr timeout
    net.set_nodelay writer
    net.set_nonblocking writer
    net.set_read_timeout writer timeout
    net.set_write_timeout writer timeout
    reader ← net.dup writer
    ok (writer, reader)

  -- `addrs.map(open).find(Result::is_ok).transpose()`, one address after the other.
  unfoldable pub first_open : ℕ → List A → Option (S × S)
  unfolding open_socket
  first_open timeout [] = none
  first_open timeout (addr ∷ addrs) = or_first (open_socket timeout addr) (first_open timeout addrs)

  -- The addresses are what `to_socket_addrs` returned.
  unfoldable pub connect_socket :
      Result (List A) IoErrorKind → ℕ → Result (Option (S × S)) IoErrorKind
  unfolding first_open
  connect_socket addrs timeout = do list ← addrs; ok (first_open timeout list)

-- `Duration::as_secs`, of a duration in nanoseconds.
abbrev pub as_secs : ℕ → ℕ
as_secs interval = interval / 1000000000

-- `i64::try_from(interval.as_secs())` succeeds below this.
abbrev i64_end : ℕ
i64_end = 2 ^ 63

module _ {F : Type 0} ⦃timer : Timer F⦄ where
  abbrev settled : Result (Unit {0}) IoErrorKind × F → Result F Error
  settled (ok u, fd) = ok fd
  settled (err e, fd) = err (error (std_io e) "while setting interval time")

  unfoldable pub create_timer_fd : ℕ → Result F Error
  create_timer_fd interval = do
    fd ← map_err (λ e. error (std_io e) "while creating timer_fd") timer.create
    let sec = as_secs interval
    if ltb sec i64_end then ok tt else err (error out_of_range "interval seconds")
    settled (timer.set_time sec sec fd)

abbrev pub registered :
    {A P : Type 0} → String → Result A IoErrorKind × P → (P → Result P Error) → Result P Error
registered msg (ok u, p) k = k p
registered msg (err e, p) k = err (error (std_io e) msg)

module _ {P F S : Type 0} ⦃polls : Poll P S F⦄ where
  -- `ReaderHalf::register`: the socket, then the timer.
  unfoldable pub register : ReaderHalf P F S → Result (ReaderHalf P F S) Error
  register this = do
    p ←
        registered "while registering socket"
          (polls.register_source this.poll this.inner.inner Token.reader)
          λ p.
            registered "while registering timer" (polls.register_fd p this.timer_fd Token.timer)
              λ p. ok p
    ok (record this { poll = p })

module _ {P F S : Type 0} ⦃polls : Poll P S F⦄ ⦃timer : Timer F⦄ where
  -- `ReaderHalf::create`. The buffer has 8 KiB, so that `expect` does not panic.
  unfoldable pub create_reader_half : S → ℕ → Result (ReaderHalf P F S) Error
  unfolding create_timer_fd
  create_reader_half reader timeout = do
    inner ← ok_or (error invalid "size is greater than 8K") (Reader.with_capacity reader 8192)
    timer_fd ← create_timer_fd timeout
    poll ← map_err (λ e. error (std_io e) "while creating polll") polls.new
    ok (record { poll = poll; timer_fd = timer_fd; inner = inner })

abbrev pub connection : {P F S : Type 0} → S → ReaderHalf P F S → Connection P F S
connection socket half = record {
  writer = record { sent_flag = false; inner = socket };
  reader = half;
}

module _ {P F S : Type 0} ⦃polls : Poll P S F⦄ ⦃timer : Timer F⦄ where
  -- The second half of `create`, from the two handles of the socket.
  unfoldable pub with_sockets : ℕ → S × S → Result (Connection P F S) Error
  unfolding create_reader_half register
  with_sockets timeout (writer, socket) = do
    half ← create_reader_half socket timeout
    reader ← register half
    ok (connection writer reader)

module _ {A P F S : Type 0} ⦃net : Net A S⦄ ⦃polls : Poll P S F⦄ ⦃timer : Timer F⦄ where
  -- `Connection::create`.
  unfoldable pub create : Result (List A) IoErrorKind → ℕ → Result (Connection P F S) Error
  unfolding connect_socket with_sockets
  create addrs timeout = do
    opt ← map_err opening_error (connect_socket addrs timeout)
    pair ← ok_or (error invalid "socket addrs") opt
    with_sockets timeout pair
