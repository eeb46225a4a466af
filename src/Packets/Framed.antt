-- ===== src/Packets/Framed.antt =====
-- Packets that are written with the first byte of their type, and so can be told apart.
pub mod Body
use mcutt.Common.{ℕ, ◌≡◌, ◌∷◌, ◌++◌, length}
use mcutt.Bytes.{Bytes, Error, Result, ok}
use mcutt.Bytes.Io.{Write, Io}
use mcutt.Bytes.Emits.{Emits, Delivers}
use mcutt.Fixed.PacketType.{ControlPacketType, encode_type_and_flags}

-- `Delivers`, where the bytes start with this type and these flags.
abbrev pub DeliversAs :
    {W : Type 0} ⦃writer : Write W⦄ {A : Type 0}
    → ControlPacketType
    → ℕ
    → Io W ℕ
    → (Bytes → Result (A × Bytes) Error)
    → (A → Type 0)
    → Type 0
DeliversAs {W} ⦃writer⦄ {A} t fl m parse P =
    (tail : Bytes) × (this : A) × Emits {W = W} (encode_type_and_flags t fl ∷ tail)
      (length (encode_type_and_flags t fl ∷ tail)) m
    × ((rest : Bytes) → parse ((encode_type_and_flags t fl ∷ tail) ++ rest) ≡ ok (this, rest))
    × P this

pub DeliversAs-Delivers :
    {W : Type 0} ⦃writer : Write W⦄ {A : Type 0} (t : ControlPacketType) (fl : ℕ)
    (parse : Bytes → Result (A × Bytes) Error) {m : Io W ℕ} {P : A → Type 0}
    → DeliversAs {W = W} t fl m parse P
    → Delivers {W = W} m parse P
DeliversAs-Delivers t fl parse (tail, this, emits, read, holds) =
    (encode_type_and_flags t fl ∷ tail, this, emits, read, holds)
