-- ===== src/Tests/Acks.antt =====
-- The packets of a fixed length, on concrete identifiers.
use mcutt.Common.{◌≡◌, [], ◌++◌, arith}
use mcutt.Bytes.{Bytes, err, error, invalid}
use mcutt.Bytes.Vec.{vec_write}
use mcutt.Bytes.Emits.{Emits}
use mcutt.External.Reference.{zerocopy, bitflags}
use mcutt.Packets.ConnAck.{ConnAck, accepted, as_bytes, parse}
use mcutt.Packets.ConnAck.Write.{write_sync}
use mcutt.Packets.ConnAck.Reserved.{parse-write_sync_refused}

-- A CONNACK with the session present.
abbrev pub plain_ack : ConnAck
plain_ack = record { flags = 1; return_code = accepted }

parse-write_sync_refused_example :
    Emits {W = Bytes} (as_bytes plain_ack) 2 (write_sync plain_ack)
    × (parse (as_bytes plain_ack ++ []) ≡ err (error invalid "control packet type"))
parse-write_sync_refused_example = parse-write_sync_refused plain_ack [] (omega arith)
