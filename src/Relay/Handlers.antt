-- ===== src/Relay/Handlers.antt =====
-- `handle_frame` of server/src/relay.rs and the handlers that it calls. Each is a function of the
-- reply queue and of the state of the server, and logs nothing.
use omp_relayd.Base.{ℕ, ◌/◌, ◌++◌, Option, none, some, Result, ok, err}
use omp_relayd.Base.Text.{codes}
use omp_relayd.Protocol.Limits.{Text, RoomId}
use omp_relayd.Protocol.Validate.{
  IdentifierError, DigestError, validate_correlation_id, validate_identifier, validate_digest,
  body_over_budget,
}
use omp_relayd.Protocol.Frames.{
  ClientFrame, hello, list, send, announce, reserve, ping, unsupported, ServerFrame, peers, message,
  notice, receipt, accepted, reserved, pong, error, ReserveStatus, granted, reserve_status_from,
  duplicate_hello, invalid_identifier, invalid_target, unsupported_frame,
}
use omp_relayd.Blob.Types.{Store, Grant, Refusal, second}
use omp_relayd.Blob.Index
use omp_relayd.Relay.Channel.{Mpsc}
use omp_relayd.Relay.Messages.{bounded_target, identifier_error_text, digest_error_text}
use omp_relayd.Relay.Registry.{
  Bytes, ServerState, status, unwritable, list_peers, route, fanout, encode_delivery,
}
use omp_relayd.Relay.Replies.{
  Flow, continue, break, enqueue_reply, queue_diagnostic, claimed, unclaimed, claim_acknowledgement,
  refuse_over_budget, refuse_unwritable,
}

pub record RegisteredPeer : Type 0 where
  pub room : RoomId
  pub peer : Text
  pub connection_id : ℕ

pub record Submission : Type 0 where
  pub id : Text
  pub body : Text
  pub reply_to : Option Text
  pub attachment : Option Text

-- What a handler leaves behind.
pub record Outcome (Queue Chan : Type 0) : Type 0 where
  pub flow : Flow
  pub replies : Queue
  pub state : ServerState Chan

-- An outcome that leaves the state as it is.
abbrev pub leave : {Queue Chan : Type 0} → ServerState Chan → Flow × Queue → Outcome Queue Chan
leave s (flow, replies) = record { flow = flow; replies = replies; state = s }

-- `Result::err`
unfoldable pub err_of : {E : Type 0} → Result (Unit {0}) E → Option E
err_of (ok _) = none
err_of (err e) = some e

-- `value.as_deref().and_then(|value| validate(value).err())`
unfoldable pub optional_err : {E : Type 0} → (Text → Result (Unit {0}) E) → Option Text → Option E
unfolding err_of
optional_err validate none = none
optional_err validate (some value) = err_of (validate value)

-- The status of a reservation, and the seconds that it is granted for.
unfoldable pub reserve_answer : Result Grant Refusal → ReserveStatus × Option ℕ
reserve_answer (ok grant) = (granted, some (grant.time_to_live / second))
reserve_answer (err refusal) = (reserve_status_from refusal, none)

module _ {Queue Chan : Type 0} (r : Mpsc ServerFrame Queue) where
  -- A check whose error is replied, with an early return.
  unfoldable pub reply_if :
      {E : Type 0}
      → Queue
      → ServerState Chan
      → Option E
      → (E → ServerFrame)
      → Outcome Queue Chan
      → Outcome Queue Chan
  reply_if replies s none frame next = next
  reply_if replies s (some e) frame next = leave s (enqueue_reply r replies (frame e))

  -- The check of the body budget, with an early return.
  unfoldable pub within_budget :
      Queue → ServerState Chan → Option ℕ → Text → Outcome Queue Chan → Outcome Queue Chan
  within_budget replies s none field next = next
  within_budget replies s (some body_bytes) field next =
      leave s (refuse_over_budget r replies field body_bytes)

  -- What is done with the slot of the acknowledgement, or the close where there is none.
  unfoldable pub with_acknowledgement :
      Queue → ServerState Chan → Text → (Queue → Outcome Queue Chan) → Outcome Queue Chan
  with_acknowledgement replies s what next = elim (claim_acknowledgement r replies what) [
    | unclaimed replies' ↦ leave s (break, replies')
    | claimed slot ↦ next slot
  ]

module _ (show_char : ℕ → Text) where
  abbrev pub identifier_invalid : Text → Option Text → IdentifierError → ServerFrame
  identifier_invalid field request_id e =
      error invalid_identifier (some (field ++ codes " " ++ identifier_error_text show_char e))
        request_id

  abbrev pub digest_invalid : Text → Option Text → DigestError → ServerFrame
  digest_invalid field request_id e =
      error invalid_identifier (some (field ++ codes " " ++ digest_error_text show_char e))
        request_id

module _ {Queue Chan : Type 0} (r : Mpsc ServerFrame Queue) (q : Mpsc Bytes Chan)
    (encode : ServerFrame → Option Bytes) (show_char : ℕ → Text) where
  -- `handle_send` once its receipt has a slot.
  unfoldable pub send_claimed :
      Queue → ServerState Chan → RegisteredPeer → Text → Submission → Outcome Queue Chan
  send_claimed slot s registered to m =
      let frame = message m.id registered.peer m.body m.reply_to m.attachment in
      let (outcome, s') = route q encode s registered.room to frame in
      elim outcome [
        | status st ↦ record {
          flow = continue;
          replies = r.send_permit (receipt m.id to st) slot;
          state = s';
        }
        | unwritable ↦ leave s' (refuse_unwritable r (r.drop_permit slot) (codes "message"))
      ]

  unfoldable pub handle_send :
      Queue → ServerState Chan → RegisteredPeer → Text → Submission → Outcome Queue Chan
  handle_send replies s registered to m =
      reply_if r replies s (err_of (validate_correlation_id m.id))
        (identifier_invalid show_char (codes "send.id") none)
        (reply_if r replies s (err_of (validate_identifier to))
          (λ e. receipt m.id (bounded_target to) invalid_target)
          (reply_if r replies s (optional_err validate_correlation_id m.reply_to)
            (identifier_invalid show_char (codes "send.reply_to") (some m.id))
            (reply_if r replies s (optional_err validate_digest m.attachment)
              (digest_invalid show_char (codes "send.attachment") (some m.id))
              (within_budget r replies s (body_over_budget m.body) (codes "body") (
                with_acknowledgement r replies s (codes "send")
                  (λ slot. send_claimed slot s registered to m))))))

  -- `handle_announce` once its acceptance has a slot.
  unfoldable pub announce_claimed :
      Queue → ServerState Chan → RegisteredPeer → Submission → Outcome Queue Chan
  announce_claimed slot s registered m =
      let frame = notice m.id registered.peer m.body m.reply_to m.attachment in
      elim (encode_delivery encode frame) [
        | none ↦ leave s (refuse_unwritable r (r.drop_permit slot) (codes "notice"))
        | some payload ↦
            let (counts, s') = fanout q s registered.room registered.peer payload in
            record {
              flow = continue;
              replies = r.send_permit (accepted m.id counts.delivered counts.shed) slot;
              state = s';
            }
      ]

  unfoldable pub handle_announce :
      Queue → ServerState Chan → RegisteredPeer → Submission → Outcome Queue Chan
  handle_announce replies s registered m =
      reply_if r replies s (err_of (validate_correlation_id m.id))
        (identifier_invalid show_char (codes "announce.id") none)
        (reply_if r replies s (optional_err validate_correlation_id m.reply_to)
          (identifier_invalid show_char (codes "announce.reply_to") (some m.id))
          (reply_if r replies s (optional_err validate_digest m.attachment)
            (digest_invalid show_char (codes "announce.attachment") (some m.id))
            (within_budget r replies s (body_over_budget m.body) (codes "announced body") (
              with_acknowledgement r replies s (codes "announcement")
                (λ slot. announce_claimed slot s registered m)))))

  -- `handle_reserve` once its answer has a slot.
  unfoldable pub reserve_claimed :
      Queue → ServerState Chan → RoomId → Store → Text → Text → ℕ → ℕ → Outcome Queue Chan
  reserve_claimed slot s room blobs request_id digest bytes now =
      let (answer, blobs') = Index.reserve blobs room digest bytes now in
      let (st, expires_in) = reserve_answer answer in
      record {
        flow = continue;
        replies = r.send_permit (reserved request_id st expires_in) slot;
        state = record s { blobs = some blobs' };
      }

  -- `handle_reserve` once its fields are valid.
  unfoldable pub reserve_valid :
      Queue
      → ServerState Chan
      → RegisteredPeer
      → Option Store
      → Text
      → Text
      → ℕ
      → ℕ
      → Outcome Queue Chan
  reserve_valid replies s registered none request_id digest bytes now = leave s (
      enqueue_reply r replies (
        error unsupported_frame
          (some (codes "this relay holds no payloads, so nothing can be reserved"))
          (some request_id)))
  reserve_valid replies s registered (some blobs) request_id digest bytes now =
      with_acknowledgement r replies s (codes "reservation")
        (λ slot. reserve_claimed slot s registered.room blobs request_id digest bytes now)

  unfoldable pub handle_reserve :
      Queue → ServerState Chan → RegisteredPeer → Text → Text → ℕ → ℕ → Outcome Queue Chan
  unfolding reserve_valid
  handle_reserve replies s registered request_id digest bytes now =
      reply_if r replies s (err_of (validate_correlation_id request_id))
        (identifier_invalid show_char (codes "reserve.request_id") none)
        (reply_if r replies s (err_of (validate_digest digest))
          (digest_invalid show_char (codes "reserve.digest") (some request_id))
          (reserve_valid replies s registered s.blobs request_id digest bytes now))

  unfoldable pub handle_list : Queue → ServerState Chan → RegisteredPeer → Text → Outcome Queue Chan
  handle_list replies s registered request_id =
      reply_if r replies s (err_of (validate_correlation_id request_id))
        (identifier_invalid show_char (codes "list.request_id") none)
        (leave s (enqueue_reply r replies (peers request_id (list_peers s registered.room))))

  unfoldable pub handle_frame :
      Queue → ServerState Chan → RegisteredPeer → ℕ → ClientFrame → Outcome Queue Chan
  unfolding handle_list handle_send handle_announce handle_reserve reply_if within_budget
      with_acknowledgement
  handle_frame replies s registered now (hello protocol room peer) = leave s (
    break,
    queue_diagnostic r replies duplicate_hello (codes "this connection is already registered"),
  )
  handle_frame replies s registered now ping = leave s (enqueue_reply r replies pong)
  handle_frame replies s registered now (list request_id) =
      handle_list replies s registered request_id
  handle_frame replies s registered now (send id to body reply_to attachment) =
      handle_send replies s registered to
        (record { id = id; body = body; reply_to = reply_to; attachment = attachment })
  handle_frame replies s registered now (announce id body reply_to attachment) =
      handle_announce replies s registered
        (record { id = id; body = body; reply_to = reply_to; attachment = attachment })
  handle_frame replies s registered now (reserve request_id digest bytes) =
      handle_reserve replies s registered request_id digest bytes now
  handle_frame replies s registered now unsupported = leave s (
      enqueue_reply r replies (
        error unsupported_frame (some (codes "this protocol version does not implement that frame"))
          none))
