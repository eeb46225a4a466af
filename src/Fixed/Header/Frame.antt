-- ===== src/Fixed/Header/Frame.antt =====
-- How `next_frame` cuts the packets of a stream.
use mcutt.Common.{
  ℕ, ◌∙◌, ◌+◌, ◌≤◌, ◌<◌, ◌≡◌, refl, ap, drop, ◌-◌, true, none, some, [], ◌∷◌, ◌++◌, length,
  length-append, split_at_checked-append, split_at_checked_short, all, arith,
}
use mcutt.Bytes.{Bytes, ok}
use mcutt.Fixed.RemainingLength.{
  len_from_u32, encode_to_array, read_from_buf, read_len, has_continue_flag,
}
use mcutt.Fixed.RemainingLength.Encoding.{
  len_from_u32-Needs, len_from_u32-lt, length-encode_to_array,
}
use mcutt.Fixed.RemainingLength.Value.{read_from_buf-read_len}
use mcutt.Fixed.RemainingLength.RoundTrip.{
  IsTerminated, IsTerminated-pos, encode_to_array-IsTerminated, count_continue_flags-IsTerminated,
  count_continue_flags-all, all-IsTerminated, parse-encode_to_array,
}
use mcutt.Fixed.PacketType.{ControlPacketType}
use mcutt.Fixed.Header.{frame_len, prefix_frame, next_frame}
use mcutt.Fixed.Header.Builder.Emits.{header_bytes}

frame_len-read :
    (rem_bytes v : ℕ) (bs : Bytes)
    → rem_bytes ≤ 4
    → v < 268435456
    → read_from_buf bs ≡ v
    → frame_len rem_bytes bs ≡ ok (some (1 + rem_bytes + v))
unfolding frame_len
frame_len-read rem_bytes v bs few small read = rw read (ground arith)

-- The first byte, a terminated remaining length, and then anything.
pub next_frame-IsTerminated :
    (b : ℕ) (len rest : Bytes)
    → IsTerminated len
    → length len ≤ 4
    → next_frame (b ∷ (len ++ rest)) ≡ ok (some (1 + length len + read_len len))
unfolding next_frame prefix_frame
next_frame-IsTerminated b len rest term few =
    let (same, small) = read_from_buf-read_len len few in
    let long = IsTerminated-pos len term in
    rw
      (
        count_continue_flags-IsTerminated len rest term few,
        split_at_checked-append len rest (1 + (length len - 1)) (omega (arith, long)),
        frame_len-read (1 + (length len - 1)) (read_len len) len (omega (arith, few)) small same,
      )
      (ap (λ k. ok (some k)) (omega (arith, long)))

-- When the header of a packet has arrived, `next_frame` is the length of the whole packet, header
-- and body, whatever has arrived behind the header.
pub next_frame-header_bytes :
    (t : ControlPacketType) (fl n : ℕ) (body rest : Bytes)
    → len_from_u32 (length body) ≡ ok n
    → next_frame (header_bytes t fl n (length body) ++ rest)
      ≡ ok (some (length (header_bytes t fl n (length body) ++ body)))
next_frame-header_bytes t fl n body rest h =
    next_frame-IsTerminated _ bs rest term few
    ∙ ap (λ k. ok (some k)) (omega (arith, is_len, length-append bs body))
  where
    bs : Bytes
    bs = encode_to_array n (length body)

    term : IsTerminated bs
    term = encode_to_array-IsTerminated n (length body) (len_from_u32-Needs (length body) n h).0

    few : length bs ≤ 4
    few =
        omega
          (arith, length-encode_to_array n (length body), (len_from_u32-Needs (length body) n h).1)

    is_len : read_len bs ≡ length body
    is_len =
        let (n', e, l, p, va, r, rl, rb) =
          parse-encode_to_array (length body) [] (len_from_u32-lt (length body) n h) in
        let same : n' ≡ n = cc in rw same at rl

-- While the header has not arrived in full, `next_frame` waits: of every part of a header that
-- lacks a byte at its end, it is `none`.
pub next_frame_incomplete :
    (t : ControlPacketType) (fl n v : ℕ) (front back : Bytes) (c : ℕ)
    → len_from_u32 v ≡ ok n
    → header_bytes t fl n v ≡ front ++ (c ∷ back)
    → next_frame front ≡ ok none
unfolding next_frame prefix_frame
next_frame_incomplete t fl n v [] back c h split = refl
next_frame_incomplete t fl n v (b ∷ bs) back c h split =
    rw (
      count_continue_flags-all bs flags few,
      split_at_checked_short (1 + length bs) bs (omega arith),
    )
  where
    tail : encode_to_array n v ≡ bs ++ (c ∷ back)
    tail = ap (drop 1) split

    flags : all has_continue_flag bs ≡ true
    flags =
        all-IsTerminated bs c back
          (rw tail at (encode_to_array-IsTerminated n v (len_from_u32-Needs v n h).0))

    few : length bs < 4
    few = omega (
      arith,
      ap length tail,
      length-append bs (c ∷ back),
      length-encode_to_array n v,
      (len_from_u32-Needs v n h).1,
    )
