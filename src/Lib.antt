-- ===== src/Lib.antt =====
-- mcutt, a library for the MQTT 3.1.1 protocol: its packets, how they are written to a stream and
-- read from a buffer, and the store of unacknowledged packets.
--
-- Every packet is a fixed header (a byte with the packet type and its flags, then the remaining
-- length in 1 to 4 bytes), a variable header and a payload. A packet is written by `write_sync`:
-- `encode_len` computes the remaining length, the builder of the fixed header checks and writes it,
-- and each field writes itself. It is read by `parse`, which takes it off the front of a buffer,
-- with `validate` on each part. The packets use the fields (packet identifier, buffer, string) and
-- the fixed header; all use the errors and traits of src/bytes.rs. The slab stands alone.
--
-- The files and the code that they model:
--   Bytes: src/bytes.rs. `Errors` has the errors, `Try` the `?` operator and `Decode::consume`,
--     `Io` the actions on a writer, `Emits` what such an action puts on a writer, `Vec` the writer
--     `Vec<u8>`; `Takes` and `Local` have what a parser takes off the front of a buffer.
--   Fixed/RemainingLength: src/v3/packets/common/fixed/remaining_length.rs; `Write` has the `Encode`
--     of the slice, `ArrayWrite` that of the array.
--   Fixed/TypeFlags, Fixed/PacketType, Fixed/Header: src/v3/packets/common/fixed/mod.rs, and
--     Fixed/Header/Builder: src/v3/packets/common/fixed/builder.rs, with the `Encode` of the slice;
--     `Fixed/Header/ArrayWriter` has that of the array.
--   Fields/PacketId, Fields/Buff, Fields/MqttStr, Fields/Topic: packet_id.rs, message.rs,
--     string.rs and topic.rs of src/v3/packets/common; Fields/TopicFilter:
--     src/v3/packets/subscribe/topic.rs. Fields/Utf8 is the part of `str` that these use.
--   Packets: a module for each control packet of src/v3/packets, and `Packet` for packet.rs, which
--     tells received packets apart by their first byte. `X.antt` has the packet and its `Decode`,
--     `X/Write.antt` its `Encode`, other files of `X` what they prove. `Short` has what the packets
--     of fixed length share, `Framed` what it means to start with the byte of a type, `Framed/Body` the
--     round trip of a header and a body, `Cursor` the iterators over the filters of SUBSCRIBE and
--     UNSUBSCRIBE (subscribe/iter.rs, unsubscribe/iter.rs), `Optional` the parts of a CONNECT that
--     may be absent, and `ConnectParts` its flags, header, client id and will. `Qos` is
--     that of src/v3/packets/mod.rs.
--   Slab: src/slab.rs.
--   Sync: src/sync.rs. `Read` is the bound `std::io::Read`, `Reader` cuts the frames out of the
--     stream, `Writer` is `WriterHalf`, which sends packets and the pings of the keep-alive timer,
--     and `Connection` has `ReaderHalf` with its poll loop and `Connection`; `Connection/Create` is
--     how one is made, other files of `Reader`, `Writer` and `Connection` what they prove.
--   External: the crates zerocopy, bitflags and memchr as interfaces, records of the functions that
--     the code calls with their documented results as laws, and `Mio` for the poll, the timer and
--     what opens a socket, which promise nothing; `Reference` has an instance of each of the first.
--   Common: the library names and the lemmas on lists and bits that all share.
--   Tests: the theorems at concrete inputs.
--
-- How the code is translated. Functions keep their names, and the trait methods `validate_value`,
-- `validate`, `encode_len`, `write_sync` and `parse` stand in the module of their type. A
-- `Result` is a value; `write_sync` is an action that takes the state of a writer and returns a
-- result and the next state. The writer is any type with `write_all` as `std::io::Write`
-- documents it: `Ok` means that the whole buffer was passed on, an error that some front of it
-- was. Bytes are native numbers; integers of w bits wrap, `% 2 ^ w` written out, and a `usize`
-- has 64 bits. A `&str` is its bytes, with the hypothesis `is_utf8`; a `NonZero<u16>` is a number
-- with `IsNonZero`. A `debug_assert!` is left out, as in a release build; that of
-- `Reader::next_frame` does not always hold, and `Waits` says when it does. A loop is a
-- structural recursion on a list or on a number of bytes, but for two that run on fuel. The loops
-- over a cursor have one round for each byte of the field and one more: an item takes at least
-- two bytes, so that this is enough. The loop of `Reader::next_frame` has six rounds: each reads
-- a byte or more of a header of at most five. It is shown of both that the fuel never runs out. A
-- `Reader` reads from any type with `read` and `read_exact` as `std::io::Read` documents them;
-- its methods take the state and return a result and the next state. The flag of `WriterHalf` is
-- a Boolean of its state: an atomic in the code, where a sequence of calls is a sequence of
-- actions.
--
-- The two halves of a connection share one `WriterHalf`, which stands once in its state, so that the
-- methods of `ReaderHalf`, which ping through it, are actions on the connection. A poll gives a list
-- of tokens, the events in their order, and the loop of `poll_event` runs for a number of polls;
-- `none` means that it still waits after them, as it may for ever.
--
-- Not modelled: `Display` and `Debug`, the texts that are printed, and what `tracing` logs of them,
-- since nothing that is sent or received depends on them; the module lists, the examples and the
-- benchmarks. A getter of one field is the field of the record.
pub mod Common
pub mod External
pub mod Bytes
pub mod Slab
pub mod Fixed
pub mod Fields
pub mod Packets
pub mod Sync
pub mod Tests
