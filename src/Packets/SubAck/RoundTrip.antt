-- ===== src/Packets/SubAck/RoundTrip.antt =====
-- A SUBACK that is written is read back.
use mcutt.Common.{
  ℕ, ◌+◌, ◌≡◌, refl, sym, some, ◌++◌, append_assoc, map, length-map, length, length-append,
  split_at_checked-append, arith,
}
use mcutt.Bytes.{Bytes, ok, usize_add}
use mcutt.Bytes.Io.{Write}
use mcutt.Bytes.Emits.{Emits, Delivers, Emits-bind, Emits-lift_bind, Emits-return, Emits-write_all}
use mcutt.External.Zerocopy.{Zerocopy}
use mcutt.External.Bitflags.{Bitflags}
use mcutt.Fixed.RemainingLength
use mcutt.Fixed.RemainingLength.{len_from_u32, encode_to_array}
use mcutt.Fixed.RemainingLength.Encoding.{
  len_from_u32_total, len_from_u32-Needs, length-encode_to_array,
}
use mcutt.Fixed.PacketType.{sub_ack, default_flags}
use mcutt.Fixed.PacketType.RoundTrip.{default_flags_small, default_flags-valid}
use mcutt.Fixed.Header
use mcutt.Fixed.Header.{FixedHeader}
use mcutt.Fixed.Header.Builder.Emits.{write_header-new-Emits}
use mcutt.Fixed.Header.RoundTrip.{header, parse-header_bytes}
use mcutt.Fields.PacketId
use mcutt.Fields.PacketId.Write.{read-u16_bytes}
use mcutt.Packets.Framed.{DeliversAs, DeliversAs-Delivers}
use mcutt.Packets.SubAck.{SubAck, code_byte, codes_count, parse}
use mcutt.Packets.SubAck.Write.{SubAckBuilder, write_sync}
use mcutt.Packets.SubAck.Frame.{
  IsSendable, body_len, body, frame, parsed, encode_len-ok, length-body, from_bytes-body,
  valid_bytes-body, validate-body,
}

-- What `write_sync` adds up.
abbrev total : ℕ → SubAckBuilder → ℕ
total n b = usize_add (usize_add (n + 1) 2) (length (map code_byte b.return_codes))

module _ ⦃z : Zerocopy⦄ ⦃f : Bitflags⦄ {W : Type 0} ⦃writer : Write W⦄ where
  write_sync-total :
      (b : SubAckBuilder) (n : ℕ)
      → IsSendable b
      → len_from_u32 (body_len b) ≡ ok n
      → Emits {W = W} (frame n b) (total n b) (write_sync b)
  unfolding write_sync
  write_sync-total b n s h = Emits-lift_bind _ (encode_len-ok b s) (
      Emits-bind _ (write_header-new-Emits sub_ack (body_len b) n h) (
        Emits-bind _ (PacketId.Write.write_sync-Emits b.pkid)
          (Emits-return (λ u. total n b) (Emits-write_all _ _))))

module _ ⦃z : Zerocopy⦄ ⦃f : Bitflags⦄ where
  total-length :
      (b : SubAckBuilder) (n : ℕ)
      → IsSendable b
      → len_from_u32 (body_len b) ≡ ok n
      → total n b ≡ length (frame n b)
  total-length b n s h = omega (
    arith,
    length-append (encode_to_array n (body_len b)) (body b),
    length-encode_to_array n (body_len b),
    length-body b s,
    length-map b.return_codes code_byte,
    (len_from_u32-Needs (body_len b) n h).1,
    s.fits,
  )

  codes_count-body_len :
      (b : SubAckBuilder) → codes_count (body_len b) ≡ some (length b.return_codes)
  codes_count-body_len b = ground arith

  parse-frame :
      (b : SubAckBuilder) (n : ℕ) (rest : Bytes) (h : FixedHeader)
      → IsSendable b
      → Header.parse (frame n b ++ rest) ≡ ok (h, body b ++ rest)
      → RemainingLength.read_len h.remaining_length ≡ body_len b
      → parse (frame n b ++ rest) ≡ ok (parsed b, rest)
  unfolding parse
  parse-frame b n rest h s read len = rw (
    read,
    len,
    codes_count-body_len b,
    z.try_ref_from_prefix_with_elems_lem,
    split_at_checked-append (body b) rest (body_len b) (sym (length-body b s)),
    valid_bytes-body b s,
    validate-body b s,
    from_bytes-body b s,
  )

  -- `parse` takes the frame off any buffer that starts with it.
  pub parse-frame_bytes :
      (b : SubAckBuilder) (n : ℕ) (rest : Bytes)
      → IsSendable b
      → len_from_u32 (body_len b) ≡ ok n
      → parse (frame n b ++ rest) ≡ ok (parsed b, rest)
  parse-frame_bytes b n rest s e =
      let (p, t, fl, len) =
        parse-header_bytes sub_ack (default_flags sub_ack) (body_len b) n (body b ++ rest)
          (default_flags_small sub_ack) (default_flags-valid sub_ack) e in
      parse-frame b n rest (header sub_ack (default_flags sub_ack) n (body_len b)) s
        (rw (append_assoc (encode_to_array n (body_len b)) (body b) rest) p) len

module _ ⦃z : Zerocopy⦄ ⦃f : Bitflags⦄ {W : Type 0} ⦃writer : Write W⦄ where
  -- The packet starts with the first byte of its type.
  pub SubAck-DeliversAs :
      (b : SubAckBuilder)
      → IsSendable b
      → DeliversAs {W = W} sub_ack (default_flags sub_ack) (write_sync b) parse (λ (this : SubAck).
        (PacketId.read this.pkid ≡ some b.pkid) × (this.return_codes ≡ b.return_codes))
  SubAck-DeliversAs b s =
      let (n, e) = len_from_u32_total (body_len b) s.fits in
      (
        encode_to_array n (body_len b) ++ body b,
        parsed b,
        rw (← total-length b n s e) (write_sync-total b n s e),
        λ rest. parse-frame_bytes b n rest s e,
        (read-u16_bytes b.pkid s.pkid, refl),
      )

  -- For every SUBACK with a non-zero identifier whose codes fit the remaining length: on any writer
  -- `write_sync` writes it and returns its length, unless the writer fails, and `parse` takes
  -- exactly that packet off any buffer, with the identifier and the codes that were given.
  pub SubAck-Delivers :
      (b : SubAckBuilder)
      → IsSendable b
      → Delivers {W = W} (write_sync b) parse (λ (this : SubAck).
        (PacketId.read this.pkid ≡ some b.pkid) × (this.return_codes ≡ b.return_codes))
  SubAck-Delivers b s =
      DeliversAs-Delivers sub_ack (default_flags sub_ack) parse (SubAck-DeliversAs b s)
