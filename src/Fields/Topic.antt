-- ===== src/Fields/Topic.antt =====
-- src/v3/packets/common/topic.rs and the topic test of src/v3/packets/publish/mod.rs.
pub mod Levels
use mcutt.Common.{
  ℕ, zero, suc, ◌+◌, Bool, true, false, ◌&&◌, Option, none, some, get_elem?, all, ◌==◌,
}
use mcutt.Bytes.{Bytes}
use mcutt.External.Memchr.{Memchr}

-- `Option::is_none_or`.
abbrev pub is_none_or : (ℕ → Bool) → Option ℕ → Bool
is_none_or p none = true
is_none_or p (some c) = p c

-- `wild_idx.checked_sub(1).and_then(|idx| bytes.get(idx))`.
abbrev pub before : Bytes → ℕ → Option ℕ
before bytes zero = none
before bytes (suc idx) = get_elem? bytes idx

-- `bytes[wild_idx] == b'+'`, an index that is in bounds.
abbrev pub is_plus : Option ℕ → Bool
is_plus none = false
is_plus (some c) = c == b'+'

-- The test of one wildcard, by its position.
pub valid_at : Bytes → ℕ → Bool
valid_at bytes wild_idx =
    let is_valid_pre = is_none_or (λ c. c == b'/') (before bytes wild_idx) in
    let is_valid_next =
      is_none_or (λ c. (c == b'/') && is_plus (get_elem? bytes wild_idx))
        (get_elem? bytes (wild_idx + 1)) in
    is_valid_pre && is_valid_next

abbrev is_position : Option ℕ → Bool
is_position none = false
is_position (some i) = true

module _ ⦃m : Memchr⦄ where
  pub has_valid_wildcard : Bytes → Bool
  unfolding valid_at
  has_valid_wildcard topic = all (valid_at topic) (m.memchr2_iter b'+' b'#' topic)

  -- `contains_wildcard_char` of src/v3/packets/publish/mod.rs.
  unfoldable pub contains_wildcard_char : Bytes → Bool
  contains_wildcard_char topic = is_position (m.memchr2 b'+' b'#' topic)
