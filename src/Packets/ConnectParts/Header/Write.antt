-- ===== src/Packets/ConnectParts/Header/Write.antt =====
-- Writing the header of a CONNECT packet, and reading it back.
use mcutt.Common.{
  ℕ, ◌≡◌, refl, ◌++◌, length, false, some, split_at_checked, split_at_checked-append, if◌then◌else◌,
  arith,
}
use mcutt.Bytes.{Bytes, Error, error, invalid, Result, ok, err}
use mcutt.Bytes.Io.{Write, Io, pure, lift, write_all, ◌>>=◌, ◌>>◌}
use mcutt.Bytes.Emits.{Emits, Emits-lift_bind, Emits-return, Emits-write_all}
use mcutt.External.Zerocopy.{Zerocopy}
use mcutt.External.Bitflags.{Bitflags}
use mcutt.Packets.ConnectParts.Flags
use mcutt.Packets.ConnectParts.Header.{
  ConnectHeader, KeepAlive, protocol_name, protocol_level_v3_1_1, as_bytes, validate, parse,
}

-- The header for these flags and this keep-alive.
abbrev pub header_of : ℕ → KeepAlive → ConnectHeader
header_of flags keepalive = record {
  protocol_name = protocol_name;
  protocol_level = protocol_level_v3_1_1;
  flags = flags;
  keep_alive = keepalive;
}

-- The functions take the two fields of the builder that they read, its flags and its keep-alive.
module _ ⦃f : Bitflags⦄ where
  unfoldable pub validate_value : ℕ → KeepAlive → Result ConnectHeader Error
  validate_value flags keepalive =
      if f.contains flags Flags.reserved
      then err (error invalid "CONNECT variable header")
      else ok (header_of flags keepalive)

unfoldable pub encode_len : ℕ → KeepAlive → Result ℕ Error
encode_len flags keepalive = ok 10

pub encode_len_lem : (flags : ℕ) (k : KeepAlive) → encode_len flags k ≡ ok 10
unfolding encode_len
encode_len_lem flags k = refl

module _ ⦃f : Bitflags⦄ {W : Type 0} ⦃writer : Write W⦄ where
  unfoldable pub write_sync : ℕ → KeepAlive → Io W ℕ
  unfolding validate_value
  write_sync flags keepalive = do
    this ← lift (validate_value flags keepalive)
    write_all (as_bytes this) "writing CONNECT header"
    pure 10

  pub write_sync-Emits :
      (flags : ℕ) (k : KeepAlive)
      → f.contains flags Flags.reserved ≡ false
      → Emits {W = W} (as_bytes (header_of flags k)) 10 (write_sync flags k)
  unfolding write_sync
  write_sync-Emits flags k h =
      Emits-lift_bind _ (accepts h) (Emits-return (λ u. 10) (Emits-write_all _ _))
    where
      accepts :
          f.contains flags Flags.reserved ≡ false → validate_value flags k ≡ ok (header_of flags k)
      accepts h = rw h refl

module _ ⦃f : Bitflags⦄ where
  pub validate-header_of :
      (flags : ℕ) (k : KeepAlive)
      → f.contains flags Flags.reserved ≡ false
      → validate (header_of flags k) ≡ ok tt
  unfolding validate
  validate-header_of flags k h = rw h refl

-- The struct is ten bytes, and is the bytes that it is written as.
cut_header :
    (flags : ℕ) (k : KeepAlive) (rest : Bytes)
    → length k.seconds ≡ 2
    → split_at_checked 10 (as_bytes (header_of flags k) ++ rest)
      ≡ some (as_bytes (header_of flags k), rest)
cut_header flags k rest h =
    split_at_checked-append (as_bytes (header_of flags k)) rest 10 (omega (arith, h))

module _ ⦃z : Zerocopy⦄ ⦃f : Bitflags⦄ where
  -- `parse` takes exactly the written header off what it is given.
  pub parse-header_of :
      (flags : ℕ) (k : KeepAlive) (rest : Bytes)
      → f.contains flags Flags.reserved ≡ false
      → length k.seconds ≡ 2
      → parse (as_bytes (header_of flags k) ++ rest) ≡ ok (header_of flags k, rest)
  unfolding parse
  parse-header_of flags k rest r h = rw (
    z.ref_from_prefix_lem 10 (as_bytes (header_of flags k) ++ rest),
    cut_header flags k rest h,
    validate-header_of flags k r,
  )
