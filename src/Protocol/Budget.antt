-- ===== src/Protocol/Budget.antt =====
-- The envelope budget of server/src/protocol.rs: a delivery whose fields pass the checks fits the
-- frame cap.
use omp_relayd.Base.{
  ℕ, ◌+◌, ◌≤◌, ◌≡◌, refl, true, List, [], ◌∷◌, All, Option, none, some, length, arith, ◌++◌,
}
use omp_relayd.Base.Text.{codes, byte_len, len_utf8}
use omp_relayd.Protocol.Limits.{
  Text, max_frame_bytes, max_identifier_bytes, max_correlation_bytes, max_body_bytes, digest_chars,
}
use omp_relayd.Protocol.Validate.{is_base64_url}
use omp_relayd.Protocol.Frames.{message, notice, server_type_name}
use omp_relayd.Protocol.Encoding.{
  frame_size, fields, content, text_size, entries_size, delivery_fields, Value, text_field,
  header_size,
}

-- A condition on a field that may be absent.
abbrev pub OnSome : (Text → Type 0) → Option Text → Type 0
OnSome P none = Unit {0}
OnSome P (some s) = P s

-- The fields of a delivery are within their limits.
pub record IsDelivery (id from body : Text) (reply_to attachment : Option Text) : Type 0 where
  pub short_id : byte_len id ≤ max_correlation_bytes
  pub short_from : byte_len from ≤ max_identifier_bytes
  pub short_body : byte_len body ≤ max_body_bytes
  pub short_reply : OnSome (λ s. byte_len s ≤ max_correlation_bytes) reply_to
  pub short_attachment : OnSome (λ s. byte_len s ≤ digest_chars) attachment

pub byte_len_url : (s : Text) → All (λ c. is_base64_url c ≡ true) s → byte_len s ≡ length s
unfolding byte_len len_utf8
byte_len_url [] h = refl
byte_len_url (c ∷ s) h = ground (arith, byte_len_url s h.1)

-- The size of a text, by the bounds on its length.
pub text_size-short : (s : Text) (k : ℕ) → byte_len s ≤ k → k ≤ 255 → text_size s ≤ 2 + k
unfolding text_size
text_size-short s k h small = ground arith

pub text_size-long : (s : Text) (k : ℕ) → byte_len s ≤ k → k ≤ 65535 → text_size s ≤ 3 + k
unfolding text_size
text_size-long s k h small = ground arith

-- The size of a field that may be absent.
optional_size :
    (name : Text) (value : Option Text) (k : ℕ)
    → OnSome (λ s. byte_len s ≤ k) value
    → k ≤ 255
    → entries_size (text_field name value) ≤ text_size name + (2 + k)
optional_size name none k h small = omega arith
optional_size name (some s) k h small = omega (arith, text_size-short s k h small)

entries_size-++ :
    (xs ys : List (Text × Value)) → entries_size (xs ++ ys) ≡ entries_size xs + entries_size ys
entries_size-++ [] ys = omega arith
entries_size-++ (x ∷ xs) ys = omega (arith, entries_size-++ xs ys)

name_sizes :
    (text_size (codes "id") ≡ 3)
    × (text_size (codes "from") ≡ 5)
    × (text_size (codes "body") ≡ 5)
    × (text_size (codes "reply_to") ≡ 9)
    × (text_size (codes "attachment") ≡ 11)
unfolding text_size byte_len len_utf8
name_sizes = (refl, refl, refl, refl, refl)

-- The fields of a delivery behind the tag.
delivery_size :
    (id from body : Text) (reply_to attachment : Option Text)
    → IsDelivery id from body reply_to attachment
    → entries_size (delivery_fields id from body reply_to attachment) ≤ 65431
delivery_size id from body reply_to attachment v = omega (
  arith,
  entries_size-++ (text_field (codes "reply_to") reply_to)
      (text_field (codes "attachment") attachment),
  optional_size (codes "reply_to") reply_to 128 v.short_reply (omega arith),
  optional_size (codes "attachment") attachment 43 v.short_attachment (omega arith),
  text_size-short id 128 v.short_id (omega arith),
  text_size-short from 64 v.short_from (omega arith),
  text_size-long body 65024 v.short_body (omega arith),
  name_sizes,
)

header_size-message :
    (id from body : Text) (reply_to attachment : Option Text)
    → header_size (length (fields (message id from body reply_to attachment))) ≡ 1
unfolding fields content
header_size-message id from body none none = refl
header_size-message id from body none (some a) = refl
header_size-message id from body (some r) none = refl
header_size-message id from body (some r) (some a) = refl

header_size-notice :
    (id from body : Text) (reply_to attachment : Option Text)
    → header_size (length (fields (notice id from body reply_to attachment))) ≡ 1
unfolding fields content
header_size-notice id from body none none = refl
header_size-notice id from body none (some a) = refl
header_size-notice id from body (some r) none = refl
header_size-notice id from body (some r) (some a) = refl

tag_sizes :
    (text_size (codes "type") ≡ 5)
    × (text_size (codes "message") ≡ 8)
    × (text_size (codes "notice") ≡ 7)
unfolding text_size byte_len len_utf8
tag_sizes = (refl, refl, refl)

-- A `message` whose fields pass the checks is at least 91 bytes under the frame cap.
pub frame_size-message :
    (id from body : Text) (reply_to attachment : Option Text)
    → IsDelivery id from body reply_to attachment
    → frame_size (message id from body reply_to attachment) + 91 ≤ max_frame_bytes
unfolding frame_size fields content server_type_name
frame_size-message id from body reply_to attachment v = omega (
  arith,
  header_size-message id from body reply_to attachment,
  delivery_size id from body reply_to attachment v,
  tag_sizes,
)

pub frame_size-notice :
    (id from body : Text) (reply_to attachment : Option Text)
    → IsDelivery id from body reply_to attachment
    → frame_size (notice id from body reply_to attachment) + 92 ≤ max_frame_bytes
unfolding frame_size fields content server_type_name
frame_size-notice id from body reply_to attachment v = omega (
  arith,
  header_size-notice id from body reply_to attachment,
  delivery_size id from body reply_to attachment v,
  tag_sizes,
)
