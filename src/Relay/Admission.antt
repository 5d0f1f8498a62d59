-- ===== src/Relay/Admission.antt =====
-- What server/src/relay.rs does with what it reads from a socket: `admit` for the first frame of a
-- connection, and `handle_inbound` for the later ones. MessagePack is a parameter.
use omp_relayd.Base.{
  ℕ, ◌+◌, ◌-◌, ◌/◌, ◌%◌, Bool, not, ◌==◌, if◌then◌else◌, List, [], ◌∷◌, ◌++◌, Option, none, some,
  Result, ok, err,
}
use omp_relayd.Base.Text.{codes, decimal, get_or}
use omp_relayd.Protocol.Limits.{Text, RoomId, protocol_version}
use omp_relayd.Protocol.Validate.{IdentifierError, validate_identifier}
use omp_relayd.Protocol.Frames.{
  ClientFrame, hello, client_type_name, ServerFrame, error, ErrorCode, unsupported_protocol,
  invalid_hello, invalid_identifier, malformed_frame, frame_too_large, hello_timeout, DecodeError,
  empty_payload, not_a_map, undecodable, trailing_bytes, decode,
}
use omp_relayd.Relay.Channel.{Mpsc}
use omp_relayd.Relay.Messages.{cap_diagnostic, identifier_error_text}
use omp_relayd.Relay.Registry.{Bytes, ServerState}
use omp_relayd.Relay.Replies.{break, queue_diagnostic}
use omp_relayd.Relay.Handlers.{RegisteredPeer, Outcome, leave, err_of, handle_frame}

-- An `io::Error`: whether its kind is `InvalidData`, and its text.
pub record ReadError : Type 0 where
  pub invalid_data : Bool
  pub text : Text

unfoldable pub framing_error_code : ReadError → Option ErrorCode
framing_error_code e = if e.invalid_data then some frame_too_large else none

-- What the reader gives: the end of the stream, an error, or a payload.
pub data Inbound : Type 0 where
  hung_up : Inbound
  failed : ReadError → Inbound
  arrived : Bytes → Inbound

-- What happens first on a new connection.
pub data First : Type 0 where
  shutdown elapsed : First
  read : Inbound → First

-- `{:02x}`
abbrev hex_byte : ℕ → Text
hex_byte b =
    get_or (codes "0123456789abcdef") (b / 16) 0 ∷ get_or (codes "0123456789abcdef") (b % 16) 0 ∷ []

-- The text of a decoding error; `show_error` is the decoder's own.
pub decode_error_text : {E : Type 0} → (E → Text) → DecodeError E → Text
decode_error_text show_error empty_payload = codes "frame payload is empty"
decode_error_text show_error (not_a_map marker) =
    codes "frame payload is not a MessagePack map: leading byte 0x" ++ hex_byte marker
decode_error_text show_error (undecodable e) =
    codes "frame payload is not a decodable protocol map: " ++ show_error e
decode_error_text show_error (trailing_bytes consumed total) =
    codes "frame payload has "
    ++ decimal (total - consumed)
    ++ codes " trailing bytes after a complete frame"

-- The frame that `close_with` writes.
abbrev pub closing : ErrorCode → Text → ServerFrame
closing code text = error code (some (cap_diagnostic text)) none

-- What `admit` returns, and the frame that it has tried to write.
pub record Admission : Type 0 where
  pub admitted : Option (RoomId × Text)
  pub written : Option ServerFrame

abbrev pub refused : ErrorCode → Text → Admission
refused code text = record { admitted = none; written = some (closing code text) }

abbrev pub silent : Admission
silent = record { admitted = none; written = none }

-- `report_framing_error_now`
unfoldable pub report_framing_error_now : ReadError → Admission
report_framing_error_now e = elim (framing_error_code e) [
  | some code ↦ refused code e.text
  | none ↦ silent
]

-- The loop over the identifiers of a `hello`: the first field that is rejected.
unfoldable pub first_rejected : List (Text × Text) → Option (Text × IdentifierError)
first_rejected [] = none
first_rejected ((field, value) ∷ fields) = elim (err_of (validate_identifier value)) [
  | some e ↦ some (field, e)
  | none ↦ first_rejected fields
]

abbrev pub hello_fields : RoomId → Text → List (Text × Text)
hello_fields room peer =
    (codes "room.project", room.project)
    ∷ (codes "room.task", room.task)
    ∷ (codes "peer", peer)
    ∷ []

module _ {E : Type 0} (deserialize : List ℕ → Result (ClientFrame × ℕ) E) (show_error : E → Text)
    (show_char : ℕ → Text) where
  -- `admit` once the first frame is known to be `hello`.
  unfoldable pub admit_hello : ℕ → RoomId → Text → Admission
  unfolding first_rejected
  admit_hello offered room peer =
      if not (offered == protocol_version)
      then refused unsupported_protocol (
          codes "protocol "
          ++ decimal offered
          ++ codes " is not supported; this relay speaks "
          ++ decimal protocol_version)
      else elim (first_rejected (hello_fields room peer)) [
        | some (field, e) ↦
            refused invalid_identifier (field ++ codes " " ++ identifier_error_text show_char e)
        | none ↦ record { admitted = some (room, peer); written = none }
      ]

  unfoldable pub admit_frame : ClientFrame → Admission
  unfolding admit_hello
  admit_frame (hello offered room peer) = admit_hello offered room peer
  admit_frame frame =
      refused invalid_hello (codes "first frame must be hello, received " ++ client_type_name frame)

  -- `no_hello` is the text `no hello within` with the deadline.
  unfoldable pub admit : Text → First → Admission
  unfolding admit_frame
  admit no_hello shutdown = silent
  admit no_hello elapsed = refused hello_timeout no_hello
  admit no_hello (read hung_up) = silent
  admit no_hello (read (failed e)) = report_framing_error_now e
  admit no_hello (read (arrived payload)) = elim (decode deserialize payload) [
    | err e ↦ refused malformed_frame (decode_error_text show_error e)
    | ok frame ↦ admit_frame frame
  ]

  module _ {Queue Chan : Type 0} (r : Mpsc ServerFrame Queue) (q : Mpsc Bytes Chan)
      (encode : ServerFrame → Option Bytes) where
    -- `report_framing_error`
    unfoldable pub report_framing_error : Queue → ReadError → Queue
    report_framing_error replies e = elim (framing_error_code e) [
      | some code ↦ queue_diagnostic r replies code e.text
      | none ↦ replies
    ]

    -- The outcome, and the deadline after it.
    unfoldable pub handle_inbound :
        Queue → ServerState Chan → RegisteredPeer → Inbound → ℕ → ℕ → Outcome Queue Chan × ℕ
    unfolding report_framing_error
    handle_inbound replies s registered hung_up deadline now = (leave s (break, replies), deadline)
    handle_inbound replies s registered (failed e) deadline now =
        (leave s (break, report_framing_error replies e), deadline)
    handle_inbound replies s registered (arrived payload) deadline now =
        elim (decode deserialize payload) [
          | err e ↦ (
            leave s (
              break,
              queue_diagnostic r replies malformed_frame (decode_error_text show_error e),
            ),
            deadline,
          )
          | ok frame ↦ (
            handle_frame r q encode show_char replies s registered now frame,
            now + s.deadlines.idle,
          )
        ]
