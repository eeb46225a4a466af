-- ===== src/Sync.antt =====
-- src/sync.rs: the synchronous client. The socket is any reader and any writer; opening it, the
-- poll and the timer are calls of the operating system.
pub mod Read
pub mod Reader
pub mod Writer
pub mod Connection
