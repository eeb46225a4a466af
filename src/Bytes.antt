-- ===== src/Bytes.antt =====
-- src/bytes.rs: the errors of the crate, and the results and actions that carry them.
-- `Result` is the library's; `Io` is a function that takes `&mut W` and returns a `Result`.
mod Errors
pub mod Try
pub mod Io
pub mod Emits
pub mod Vec
pub mod Takes
pub mod Local
unfoldable pub use Errors.*
