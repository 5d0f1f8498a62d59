-- ===== src/Relay/Messages.antt =====
-- The diagnostic texts of server/src/relay.rs and of the errors of server/src/protocol.rs.
use omp_relayd.Base.{ℕ, ◌++◌}
use omp_relayd.Base.Text.{codes, decimal}
use omp_relayd.Base.Truncate.{cap_text}
use omp_relayd.Protocol.Limits.{
  Text, max_identifier_bytes, max_body_bytes, max_frame_bytes, digest_chars,
}
use omp_relayd.Protocol.Validate.{
  IdentifierError, empty, too_long, reserved_separator, surrounding_whitespace, DigestError,
  wrong_length, not_base64_url,
}

abbrev pub max_diagnostic_bytes : ℕ
max_diagnostic_bytes = 1024

unfoldable pub cap_diagnostic : Text → Text
cap_diagnostic message = cap_text max_diagnostic_bytes message

unfoldable pub bounded_target : Text → Text
bounded_target to = cap_text max_identifier_bytes to

pub over_budget_text : Text → ℕ → Text
over_budget_text field body_bytes =
    field
    ++ codes " is "
    ++ decimal body_bytes
    ++ codes " bytes; at most "
    ++ decimal max_body_bytes
    ++ codes " can be relayed within the "
    ++ decimal max_frame_bytes
    ++ codes "-byte frame cap"

pub unwritable_text : Text → Text
unwritable_text produced =
    codes "the "
    ++ produced
    ++ codes " this frame would produce does not fit the frame cap; it was not routed"

pub unacknowledged_text : Text → Text
unacknowledged_text what =
    codes "replies are not being drained, so this "
    ++ what
    ++ codes " cannot be acknowledged; it was not performed"

-- `show_char` is the `Debug` form of a character.
module _ (show_char : ℕ → Text) where
  pub identifier_error_text : IdentifierError → Text
  identifier_error_text empty = codes "must not be empty"
  identifier_error_text (too_long limit found) =
      codes "must be at most " ++ decimal limit ++ codes " UTF-8 bytes, found " ++ decimal found
  identifier_error_text (reserved_separator separator) =
      codes "must not contain the reserved separator " ++ show_char separator
  identifier_error_text surrounding_whitespace = codes "must not begin or end with whitespace"

  pub digest_error_text : DigestError → Text
  digest_error_text (wrong_length found) =
      codes "must be exactly "
      ++ decimal digest_chars
      ++ codes " characters, found "
      ++ decimal found
  digest_error_text (not_base64_url character) =
      codes "contains " ++ show_char character ++ codes ", which is not unpadded base64url"
