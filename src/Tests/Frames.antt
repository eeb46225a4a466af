-- ===== src/Tests/Frames.antt =====
-- Frames cut from a stream.
use mcutt.Common.{◌≡◌, refl, some, [], ◌∷◌, ◌++◌, length}
use mcutt.Bytes.{Bytes, ok}
use mcutt.Fixed.RemainingLength.{len_from_u32}
use mcutt.Fixed.PacketType.{publish}
use mcutt.Fixed.Header.{next_frame}
use mcutt.Fixed.Header.Builder.Emits.{header_bytes}
use mcutt.Fixed.Header.Frame.{next_frame-header_bytes}

abbrev three_bytes : Bytes
three_bytes = 4 ∷ 5 ∷ 6 ∷ []

short_length : len_from_u32 3 ≡ ok 1
unfolding len_from_u32
short_length = refl

long_length : len_from_u32 321 ≡ ok 2
unfolding len_from_u32
long_length = refl

next_frame-header_bytes_example :
    next_frame (header_bytes publish 0 1 3 ++ (4 ∷ []))
    ≡ ok (some (length (header_bytes publish 0 1 3 ++ three_bytes)))
next_frame-header_bytes_example =
    next_frame-header_bytes publish 0 1 three_bytes (4 ∷ []) short_length
