-- ===== src/External.antt =====
-- The third-party crates that the packets are built on, as parameters: `zerocopy` (bytes read as
-- structs), `bitflags` (flag sets) and `memchr` (byte search). Each is a record of the functions
-- that the source calls, with their documented behaviour as laws; `External.Reference` has an
-- implementation of each, for the tests. The module names no file of the repository.
pub mod Zerocopy
pub mod Bitflags
pub mod Memchr
pub mod Mio
pub mod Reference
