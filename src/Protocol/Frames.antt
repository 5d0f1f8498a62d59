-- ===== src/Protocol/Frames.antt =====
-- The frames of server/src/protocol.rs, their wire names, and `decode`. MessagePack is a parameter.
use omp_relayd.Base.{
  ℕ, Bool, true, false, not, ◌||◌, leb, ◌&&◌, ◌==◌, if◌then◌else◌, List, [], ◌∷◌, length, Option,
  Result, ok, err,
}
use omp_relayd.Base.Text.{codes}
use omp_relayd.Protocol.Limits.{Text, RoomId}
use omp_relayd.Blob.Types.{Refusal}

pub data ClientFrame : Type 0 where
  hello : ℕ → RoomId → Text → ClientFrame
  list : Text → ClientFrame
  send : Text → Text → Text → Option Text → Option Text → ClientFrame
  announce : Text → Text → Option Text → Option Text → ClientFrame
  reserve : Text → Text → ℕ → ClientFrame
  ping : ClientFrame
  unsupported : ClientFrame

pub data ReceiptStatus : Type 0 where
  routed peer_offline recipient_backpressure invalid_target : ReceiptStatus

pub data ReserveStatus : Type 0 where
  granted payload_too_large room_full store_full : ReserveStatus

pub data ErrorCode : Type 0 where
  unsupported_frame unsupported_protocol invalid_hello duplicate_hello invalid_identifier :
      ErrorCode
  malformed_frame frame_too_large hello_timeout idle_timeout peer_replaced : ErrorCode

pub data ServerFrame : Type 0 where
  ready : ℕ → ServerFrame
  peers : Text → List Text → ServerFrame
  message : Text → Text → Text → Option Text → Option Text → ServerFrame
  notice : Text → Text → Text → Option Text → Option Text → ServerFrame
  receipt : Text → Text → ReceiptStatus → ServerFrame
  accepted : Text → ℕ → ℕ → ServerFrame
  reserved : Text → ReserveStatus → Option ℕ → ServerFrame
  pong : ServerFrame
  error : ErrorCode → Option Text → Option Text → ServerFrame

unfoldable pub client_type_name : ClientFrame → Text
client_type_name (hello protocol room peer) = codes "hello"
client_type_name (list request_id) = codes "list"
client_type_name (send id to body reply_to attachment) = codes "send"
client_type_name (announce id body reply_to attachment) = codes "announce"
client_type_name (reserve request_id digest bytes) = codes "reserve"
client_type_name ping = codes "ping"
client_type_name unsupported = codes "unsupported"

unfoldable pub server_type_name : ServerFrame → Text
server_type_name (ready protocol) = codes "ready"
server_type_name (peers request_id names) = codes "peers"
server_type_name (message id from body reply_to attachment) = codes "message"
server_type_name (notice id from body reply_to attachment) = codes "notice"
server_type_name (receipt id to status) = codes "receipt"
server_type_name (accepted id delivered shed) = codes "accepted"
server_type_name (reserved request_id status expires_in) = codes "reserved"
server_type_name pong = codes "pong"
server_type_name (error code text request_id) = codes "error"

unfoldable pub reserve_status_as_str : ReserveStatus → Text
reserve_status_as_str granted = codes "granted"
reserve_status_as_str payload_too_large = codes "payload_too_large"
reserve_status_as_str room_full = codes "room_full"
reserve_status_as_str store_full = codes "store_full"

unfoldable pub is_granted : ReserveStatus → Bool
is_granted granted = true
is_granted _ = false

unfoldable pub reserve_status_from : Refusal → ReserveStatus
reserve_status_from Refusal.payload_too_large = payload_too_large
reserve_status_from Refusal.room_full = room_full
reserve_status_from Refusal.store_full = store_full

unfoldable pub receipt_status_as_str : ReceiptStatus → Text
receipt_status_as_str routed = codes "routed"
receipt_status_as_str peer_offline = codes "peer_offline"
receipt_status_as_str recipient_backpressure = codes "recipient_backpressure"
receipt_status_as_str invalid_target = codes "invalid_target"

unfoldable pub error_code_as_str : ErrorCode → Text
error_code_as_str unsupported_frame = codes "unsupported_frame"
error_code_as_str unsupported_protocol = codes "unsupported_protocol"
error_code_as_str invalid_hello = codes "invalid_hello"
error_code_as_str duplicate_hello = codes "duplicate_hello"
error_code_as_str invalid_identifier = codes "invalid_identifier"
error_code_as_str malformed_frame = codes "malformed_frame"
error_code_as_str frame_too_large = codes "frame_too_large"
error_code_as_str hello_timeout = codes "hello_timeout"
error_code_as_str idle_timeout = codes "idle_timeout"
error_code_as_str peer_replaced = codes "peer_replaced"

-- `protocol::Error` without its encoding case. `E` is the decoder's own error.
pub data DecodeError (E : Type 0) : Type 0 where
  empty_payload : DecodeError E
  not_a_map : ℕ → DecodeError E
  undecodable : E → DecodeError E
  trailing_bytes : ℕ → ℕ → DecodeError E

unfoldable pub kind : {E : Type 0} → DecodeError E → Text
kind empty_payload = codes "empty_payload"
kind (not_a_map marker) = codes "not_a_map"
kind (undecodable e) = codes "undecodable"
kind (trailing_bytes consumed total) = codes "trailing_bytes"

unfoldable pub is_map_marker : ℕ → Bool
is_map_marker marker = (leb 0x80 marker && leb marker 0x8f) || (marker == 0xde || marker == 0xdf)

-- `deserialize` is `T::deserialize` over a cursor on the payload, with the position that it ends at.
module _ {E : Type 0} {T : Type 0} (deserialize : List ℕ → Result (T × ℕ) E) where
  unfoldable pub decode_map : List ℕ → Result T (DecodeError E)
  decode_map payload = elim (deserialize payload) [
    | err e ↦ err (undecodable e)
    | ok (frame, consumed) ↦
        if not (consumed == length payload)
        then err (trailing_bytes consumed (length payload))
        else ok frame
  ]

  unfoldable pub decode : List ℕ → Result T (DecodeError E)
  unfolding is_map_marker decode_map
  decode [] = err empty_payload
  decode (marker ∷ rest) =
      if not (is_map_marker marker) then err (not_a_map marker) else decode_map (marker ∷ rest)
