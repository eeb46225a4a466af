-- ===== src/Packets/Connect/Received.antt =====
-- A CONNECT with a client id that the reader does not accept.
use mcutt.Common.{◌≡◌, false, ◌++◌, length, arith}
use mcutt.Bytes.{Bytes, ok, err}
use mcutt.Bytes.Io.{Write}
use mcutt.Bytes.Emits.{Emits}
use mcutt.External.Zerocopy.{Zerocopy}
use mcutt.External.Bitflags.{Bitflags}
use mcutt.Fixed.PacketType
use mcutt.Fixed.Header
use mcutt.Fixed.Header.{FixedHeader}
use mcutt.Fields.Buff.Write.{buff_bytes}
use mcutt.Packets.Framed.Body.{default_frame, Writes-Frames}
use mcutt.Packets.ConnectParts.Header as VariableHeader
use mcutt.Packets.ConnectParts.Header.{as_bytes}
use mcutt.Packets.ConnectParts.Header.Write.{header_of}
use mcutt.Packets.ConnectParts.ClientId
use mcutt.Packets.ConnectParts.ClientId.{valid_len}
use mcutt.Packets.ConnectParts.ClientId.Write.{len_error}
use mcutt.Packets.Connect.{parse}
use mcutt.Packets.Connect.Builder.{ConnectBuilder}
use mcutt.Packets.Connect.Write.{write_sync}
use mcutt.Packets.Connect.Frame.{
  Agrees, HasParts, tail_parts, body, body_len_lt, length-body, write_sync-Writes, regroup_head,
}

module _ ⦃z : Zerocopy⦄ ⦃f : Bitflags⦄ {b : ConnectBuilder} (p : HasParts b) (g : Agrees b)
    (short : valid_len (length b.client_id) ≡ false) where
  parse-refused :
      (buf rest : Bytes) (h : FixedHeader)
      → Header.parse buf ≡ ok (h, body b ++ rest)
      → parse buf ≡ err len_error
  unfolding parse
  parse-refused buf rest h head = rw (
    head,
    regroup_head b rest,
    VariableHeader.Write.parse-header_of b.flags b.keepalive
        (buff_bytes b.client_id ++ (tail_parts b ++ rest)) g.reserved p.keepalive,
    ClientId.Write.parse-bad_len b.client_id (tail_parts b ++ rest) p.client_id short,
  )

module _ ⦃z : Zerocopy⦄ ⦃f : Bitflags⦄ {W : Type 0} ⦃writer : Write W⦄ where
  -- For every request whose parts may be sent, the client id as a text of at most 65535 bytes among
  -- them, and whose flags say which are there, but whose client id is empty or longer than 23 bytes:
  -- `write_sync` writes it in full on any writer that does not fail, and `parse` refuses what was
  -- written, whatever follows it.
  pub write_sync-refused :
      (b : ConnectBuilder)
      → HasParts b
      → Agrees b
      → valid_len (length b.client_id) ≡ false
      → (bs : Bytes) × Emits {W = W} bs (length bs) (write_sync b)
        × ((rest : Bytes) → parse (bs ++ rest) ≡ err len_error)
  write_sync-refused b p g short =
      let (n, h, emits, ty, len, read) =
        Writes-Frames PacketType.connect (body b) (omega (arith, length-body p, body_len_lt p))
          (write_sync-Writes p g) in
      let bs = default_frame PacketType.connect n (body b) in
      (bs, emits, λ rest. parse-refused p g short (bs ++ rest) rest h (read rest))
