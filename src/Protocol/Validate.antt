-- ===== src/Protocol/Validate.antt =====
-- The identifier, correlation and digest checks of server/src/protocol.rs.
use omp_relayd.Base.{
  ℕ, Bool, false, ◌&&◌, ◌||◌, not, ltb, leb, ◌==◌, if◌then◌else◌, [], ◌∷◌, Option, none, some,
  is_empty, length, Result, ok, err,
}
use omp_relayd.Base.Text.{byte_len}
use omp_relayd.Protocol.Limits.{
  Text, max_identifier_bytes, max_correlation_bytes, digest_chars, max_body_bytes,
}

pub data IdentifierError : Type 0 where
  empty : IdentifierError
  too_long : ℕ → ℕ → IdentifierError
  reserved_separator : ℕ → IdentifierError
  surrounding_whitespace : IdentifierError

pub data DigestError : Type 0 where
  wrong_length : ℕ → DigestError
  not_base64_url : ℕ → DigestError

abbrev pub in_range : ℕ → ℕ → ℕ → Bool
in_range lo hi c = leb lo c && leb c hi

-- `char::is_whitespace`, the property White_Space of Unicode.
unfoldable pub is_whitespace : ℕ → Bool
is_whitespace c =
    in_range 9 13 c
    || (c == 32
        || (c == 0x85
            || (c == 0xa0
                || (c == 0x1680
                    || (in_range 0x2000 0x200a c
                        || (in_range 0x2028 0x2029 c
                            || (c == 0x202f || (c == 0x205f || c == 0x3000))))))))

abbrev pub is_separator : ℕ → Bool
is_separator c = c == b'/' || c == b'@'

-- `Iterator::find`
unfoldable pub find : (ℕ → Bool) → Text → Option ℕ
find p [] = none
find p (c ∷ cs) = if p c then some c else find p cs

-- `str::starts_with` and `str::ends_with`, for a test of a character.
unfoldable pub starts_with : (ℕ → Bool) → Text → Bool
starts_with p [] = false
starts_with p (c ∷ cs) = p c

unfoldable pub ends_with : (ℕ → Bool) → Text → Bool
ends_with p [] = false
ends_with p (c ∷ []) = p c
ends_with p (c ∷ d ∷ cs) = ends_with p (d ∷ cs)

unfoldable pub validate_identifier : Text → Result (Unit {0}) IdentifierError
validate_identifier value =
    if is_empty value
    then err empty
    else if ltb max_identifier_bytes (byte_len value)
    then err (too_long max_identifier_bytes (byte_len value))
    else elim (find is_separator value) [
      | some separator ↦ err (reserved_separator separator)
      | none ↦
          if starts_with is_whitespace value || ends_with is_whitespace value
          then err surrounding_whitespace
          else ok tt
    ]

unfoldable pub validate_correlation_id : Text → Result (Unit {0}) IdentifierError
validate_correlation_id value =
    if is_empty value
    then err empty
    else if ltb max_correlation_bytes (byte_len value)
    then err (too_long max_correlation_bytes (byte_len value))
    else ok tt

-- `char::is_ascii_alphanumeric`, `-` or `_`.
abbrev pub is_base64_url : ℕ → Bool
is_base64_url c =
    in_range b'0' b'9' c || in_range b'A' b'Z' c || in_range b'a' b'z' c || c == b'-' || c == b'_'

unfoldable pub validate_digest : Text → Result (Unit {0}) DigestError
unfolding find
validate_digest value =
    if not (length value == digest_chars)
    then err (wrong_length (length value))
    else elim (find (λ c. not (is_base64_url c)) value) [
      | some character ↦ err (not_base64_url character)
      | none ↦ ok tt
    ]

unfoldable pub body_over_budget : Text → Option ℕ
body_over_budget body = if ltb max_body_bytes (byte_len body) then some (byte_len body) else none
