-- ===== src/Protocol/Encoding.antt =====
-- What `encode` of server/src/protocol.rs hands to MessagePack: the named fields of a frame, as the
-- serde attributes of `ServerFrame` give them, and how many bytes MessagePack takes for them.
use omp_relayd.Base.{
  ℕ, ◌+◌, ◌≡◌, ltb, if◌then◌else◌, List, [], ◌∷◌, ◌++◌, length, Option, none, some,
}
use omp_relayd.Base.Text.{codes, byte_len}
use omp_relayd.Protocol.Limits.{Text}
use omp_relayd.Protocol.Frames.{
  ServerFrame, ready, peers, message, notice, receipt, accepted, reserved, pong, error,
  server_type_name, receipt_status_as_str, reserve_status_as_str, error_code_as_str,
}

pub data Value : Type 0 where
  number : ℕ → Value
  text : Text → Value
  texts : List Text → Value

-- `skip_serializing_if = "Option::is_none"`
abbrev pub text_field : Text → Option Text → List (Text × Value)
text_field name none = []
text_field name (some value) = (name, text value) ∷ []

abbrev pub number_field : Text → Option ℕ → List (Text × Value)
number_field name none = []
number_field name (some value) = (name, number value) ∷ []

abbrev pub delivery_fields : Text → Text → Text → Option Text → Option Text → List (Text × Value)
delivery_fields id from body reply_to attachment =
    (codes "id", text id)
    ∷ (codes "from", text from)
    ∷ (codes "body", text body)
    ∷ (text_field (codes "reply_to") reply_to ++ text_field (codes "attachment") attachment)

-- The fields behind the tag.
unfoldable pub content : ServerFrame → List (Text × Value)
content (ready protocol) = (codes "protocol", number protocol) ∷ []
content (peers request_id names) =
    (codes "request_id", text request_id) ∷ (codes "peers", texts names) ∷ []
content (message id from body reply_to attachment) =
    delivery_fields id from body reply_to attachment
content (notice id from body reply_to attachment) = delivery_fields id from body reply_to attachment
content (receipt id to status) =
    (codes "id", text id)
    ∷ (codes "to", text to)
    ∷ (codes "status", text (receipt_status_as_str status))
    ∷ []
content (accepted id delivered shed) =
    (codes "id", text id) ∷ (codes "delivered", number delivered) ∷ (codes "shed", number shed) ∷ []
content (reserved request_id status expires_in) =
    (codes "request_id", text request_id)
    ∷ (codes "status", text (reserve_status_as_str status))
    ∷ number_field (codes "expires_in") expires_in
content pong = []
content (error code diagnostic request_id) =
    (codes "code", text (error_code_as_str code))
    ∷ (text_field (codes "message") diagnostic ++ text_field (codes "request_id") request_id)

-- `#[serde(tag = "type")]`: the discriminator stands first.
unfoldable pub fields : ServerFrame → List (Text × Value)
unfolding content
fields frame = (codes "type", text (server_type_name frame)) ∷ content frame

-- The sizes of the MessagePack formats: the smallest header that holds the length, then the bytes.
unfoldable pub text_size : Text → ℕ
text_size s =
    let n = byte_len s in
    if ltb n 32 then 1 + n else if ltb n 256 then 2 + n else if ltb n 65536 then 3 + n else 5 + n

abbrev pub number_size : ℕ → ℕ
number_size n =
    if ltb n 128
    then 1
    else if ltb n 256
    then 2
    else if ltb n 65536
    then 3
    else if ltb n 4294967296
    then 5
    else 9

-- The header of an array or of a map of `n` entries.
abbrev pub header_size : ℕ → ℕ
header_size n = if ltb n 16 then 1 else if ltb n 65536 then 3 else 5

abbrev pub texts_size : List Text → ℕ
texts_size [] = 0
texts_size (s ∷ ss) = text_size s + texts_size ss

abbrev pub value_size : Value → ℕ
value_size (number n) = number_size n
value_size (text s) = text_size s
value_size (texts ss) = header_size (length ss) + texts_size ss

abbrev pub entries_size : List (Text × Value) → ℕ
entries_size [] = 0
entries_size ((name, value) ∷ rest) = text_size name + value_size value + entries_size rest

unfoldable pub frame_size : ServerFrame → ℕ
frame_size frame = header_size (length (fields frame)) + entries_size (fields frame)

-- What `rmp_serde::to_vec_named` documents: it writes the fields as a map, in the smallest formats,
-- and writing to memory does not fail.
pub record IsMessagePack (encode : ServerFrame → Option (List ℕ)) : Type 0 where
  pub encodes :
      (frame : ServerFrame)
      → (payload : List ℕ) × (encode frame ≡ some payload) × (length payload ≡ frame_size frame)
