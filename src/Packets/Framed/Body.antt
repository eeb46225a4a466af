-- ===== src/Packets/Framed/Body.antt =====
-- The round trip of a packet that is a header and a body: what is left to show is that the body is
-- written behind the header, and that it is read when the header has been.
use mcutt.Common.{ℕ, ◌<◌, ◌+◌, ◌≡◌, [], ◌++◌, append_assoc, length, length-append, arith}
use mcutt.Bytes.{Bytes, Error, Result, ok, usize_mod}
use mcutt.Bytes.Io.{Write, Io}
use mcutt.Bytes.Emits.{Emits}
use mcutt.External.Zerocopy.{Zerocopy}
use mcutt.External.Bitflags.{Bitflags}
use mcutt.Fixed.RemainingLength
use mcutt.Fixed.RemainingLength.{len_from_u32, encode_to_array}
use mcutt.Fixed.RemainingLength.Encoding.{
  len_from_u32_total, len_from_u32-Needs, length-encode_to_array,
}
use mcutt.Fixed.PacketType.{ControlPacketType, default_flags}
use mcutt.Fixed.PacketType.RoundTrip.{default_flags_small, default_flags-valid}
use mcutt.Fixed.Header
use mcutt.Fixed.Header.{FixedHeader}
use mcutt.Fixed.Header.Builder.Emits.{header_bytes}
use mcutt.Fixed.Header.RoundTrip.{header, parse-header_bytes}
use mcutt.Packets.Framed.{DeliversAs}

module _ ⦃z : Zerocopy⦄ ⦃f : Bitflags⦄ where
  -- `parse` reads a packet whose header has the type `t` and announces `body`, as `this`.
  abbrev pub Reads :
      {A : Type 0}
      → ControlPacketType
      → (Bytes → Result (A × Bytes) Error)
      → Bytes
      → (FixedHeader → A)
      → Type 0
  Reads t parse body this =
      (buf rest : Bytes) (h : FixedHeader)
      → Header.parse buf ≡ ok (h, body ++ rest)
      → Header.packet_type h ≡ ok t
      → RemainingLength.read_len h.remaining_length ≡ length body
      → parse buf ≡ ok (this h, rest)

  abbrev pub default_frame : ControlPacketType → ℕ → Bytes → Bytes
  default_frame t n body = header_bytes t (default_flags t) n (length body) ++ body

  -- `m` writes the header of type `t` with its default flags and then `body`, and returns the sum.
  abbrev pub Writes : {W : Type 0} ⦃writer : Write W⦄ → ControlPacketType → Bytes → Io W ℕ → Type 0
  Writes {W} ⦃writer⦄ t body m =
      (n : ℕ)
      → len_from_u32 (length body) ≡ ok n
      → (n + 1) + length body < usize_mod
      → Emits {W = W} (default_frame t n body) ((n + 1) + length body) m

  -- The frame is written in full, and its header is read back in front of the body.
  abbrev pub Frames : {W : Type 0} ⦃writer : Write W⦄ → ControlPacketType → Bytes → Io W ℕ → Type 0
  Frames {W} ⦃writer⦄ t body m =
      (n : ℕ) × (h : FixedHeader) × Emits {W = W} (default_frame t n body)
        (length (default_frame t n body)) m
      × (Header.packet_type h ≡ ok t)
      × (RemainingLength.read_len h.remaining_length ≡ length body)
      × ((rest : Bytes) → Header.parse (default_frame t n body ++ rest) ≡ ok (h, body ++ rest))

  pub Writes-Frames :
      {W : Type 0} ⦃writer : Write W⦄ (t : ControlPacketType) (body : Bytes) {m : Io W ℕ}
      → length body < 268435456
      → Writes {W = W} t body m
      → Frames {W = W} t body m
  Writes-Frames t body fits writes =
      let (n, e) = len_from_u32_total (length body) fits in
      let small = (len_from_u32-Needs (length body) n e).1 in
      let sum : (n + 1) + length body ≡ length (default_frame t n body) = omega (
        arith,
        length-append (encode_to_array n (length body)) body,
        length-encode_to_array n (length body),
        small,
      ) in
      let read = λ (rest : Bytes).
        parse-header_bytes t (default_flags t) (length body) n (body ++ rest)
          (default_flags_small t) (default_flags-valid t) e in
      (
        n,
        header t (default_flags t) n (length body),
        rw (← sum) (writes n e (omega (arith, small, fits))),
        (read []).1,
        (read []).3,
        λ rest. rw (append_assoc (encode_to_array n (length body)) body rest) (read rest).0,
      )

  pub body-DeliversAs :
      {W : Type 0} ⦃writer : Write W⦄ {A : Type 0} (t : ControlPacketType) (body : Bytes)
      (this : FixedHeader → A) (parse : Bytes → Result (A × Bytes) Error) {m : Io W ℕ}
      {P : A → Type 0}
      → length body < 268435456
      → Writes {W = W} t body m
      → Reads t parse body this
      → ((h : FixedHeader) → P (this h))
      → DeliversAs {W = W} t (default_flags t) m parse P
  body-DeliversAs t body this parse fits writes reads holds =
      let (n, h, emits, ty, len, read) = Writes-Frames t body fits writes in
      (
        encode_to_array n (length body) ++ body,
        this h,
        emits,
        λ rest. reads (default_frame t n body ++ rest) rest h (read rest) ty len,
        holds h,
      )
