-- ===== src/Tests.antt =====
-- Runs on concrete inputs, and the theorems applied to them, with the reference implementations of
-- the third-party crates and a `Vec<u8>` as the writer.
pub mod Codec
pub mod Frames
pub mod Received
pub mod Acks
pub mod Messages
pub mod Subscriptions
pub mod Unsubscriptions
pub mod Connections
pub mod Slots
pub mod Streams
pub mod Sockets
pub mod Sessions
pub mod Receiving
pub mod Ticks
pub mod Connection
