-- ===== src/External/Mio.antt =====
-- The crate mio and the operating system, as src/sync.rs calls them: the poll, the timer's file
-- descriptor of rustix, and what opens a socket. Every call may fail.
use mcutt.Common.{ℕ, List}
use mcutt.Bytes.{IoErrorKind, Result}

-- The tokens that are registered; a poll reports no other.
pub data Token : Type 0 where
  reader timer : Token

-- `mio::Poll`: `poll` gives the tokens of the events, in their order.
pub record Poll (P S F : Type 0) : Type 0 where
  pub new : Result P IoErrorKind
  pub register_source : P → S → Token → Result (Unit {0}) IoErrorKind × P
  pub register_fd : P → F → Token → Result (Unit {0}) IoErrorKind × P
  pub poll : P → Result (List Token) IoErrorKind × P

-- `rustix::time` and `rustix::io`: `set_time` is given the seconds of the interval and of the first
-- expiration, and `read` returns how many of the eight bytes of the counter it read.
pub record Timer (F : Type 0) : Type 0 where
  pub create : Result F IoErrorKind
  pub set_time : ℕ → ℕ → F → Result (Unit {0}) IoErrorKind × F
  pub read : F → Result ℕ IoErrorKind × F

-- `std::net` and `std::os`: a socket `S` for an address `A`; `dup` is `try_clone`.
pub record Net (A S : Type 0) : Type 0 where
  pub connect_timeout : A → ℕ → Result S IoErrorKind
  pub set_nodelay : S → Result (Unit {0}) IoErrorKind
  pub set_nonblocking : S → Result (Unit {0}) IoErrorKind
  pub set_read_timeout : S → ℕ → Result (Unit {0}) IoErrorKind
  pub set_write_timeout : S → ℕ → Result (Unit {0}) IoErrorKind
  pub dup : S → Result S IoErrorKind
