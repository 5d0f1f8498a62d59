-- ===== src/Relay/Delivered.antt =====
-- The success of `send` and `announce` of server/src/relay.rs: the checks of the handlers suffice
-- for the frame that they make to be encoded within the frame cap.
use omp_relayd.Base.{
  ℕ, ◌≤◌, ◌≡◌, refl, inl, inr, Option, none, some, Option-cases, false, true, length, leb, Result,
  ok, err, arith,
}
use omp_relayd.Base.Text.{byte_len}
use omp_relayd.Protocol.Limits.{
  Text, max_frame_bytes, max_correlation_bytes, max_body_bytes, digest_chars,
}
use omp_relayd.Protocol.Validate.{
  validate_correlation_id, validate_digest, validate_identifier, body_over_budget,
}
use omp_relayd.Protocol.Rules.{validate_digest_iff, validate_correlation_id_iff, IsIdentifier}
use omp_relayd.Protocol.Frames.{ServerFrame, ReceiptStatus, peer_offline}
use omp_relayd.Protocol.Encoding.{frame_size, IsMessagePack}
use omp_relayd.Protocol.Budget.{
  OnSome, IsDelivery, byte_len_url, frame_size-message, frame_size-notice,
}
use omp_relayd.Relay.Channel.{Mpsc, IsMpsc}
use omp_relayd.Relay.Registry.{
  Bytes, ServerState, status, route, handle_at, encode_delivery, enqueue,
}
use omp_relayd.Relay.Handlers.{
  RegisteredPeer, Submission, err_of, optional_err, handle_send, handle_announce,
}
use omp_relayd.Relay.Receipts.{IsReceipted, IsAccepted, handle_send-routed, handle_announce-offered}

err_of-ok : {E : Type 0} (v : Result (Unit {0}) E) → err_of v ≡ none → v ≡ ok tt
unfolding err_of
err_of-ok (ok tt) h = refl
err_of-ok (err e) h = absurd (ground arith)

OnSome-optional :
    {E : Type 0} (check : Text → Result (Unit {0}) E) (P : Text → Type 0)
    → ((s : Text) → check s ≡ ok tt → P s)
    → (value : Option Text) → optional_err check value ≡ none
    → OnSome P value
unfolding optional_err
OnSome-optional check P sound none h = tt
OnSome-optional check P sound (some s) h = sound s (err_of-ok (check s) h)

correlation-short :
    (s : Text) → validate_correlation_id s ≡ ok tt → byte_len s ≤ max_correlation_bytes
correlation-short s e = ((validate_correlation_id_iff s).0 e).1

digest-short : (s : Text) → validate_digest s ≡ ok tt → byte_len s ≤ digest_chars
digest-short s e =
    let (exact, url) = (validate_digest_iff s).0 e in omega (arith, exact, byte_len_url s url)

body-short : (s : Text) → body_over_budget s ≡ none → byte_len s ≤ max_body_bytes
unfolding body_over_budget
body-short s h = ground arith

-- What the handlers check of a submission, by the name of the peer that makes it.
pub record IsSubmission (from : Text) (m : Submission) : Type 0 where
  pub id_ok : err_of (validate_correlation_id m.id) ≡ none
  pub reply_ok : optional_err validate_correlation_id m.reply_to ≡ none
  pub attachment_ok : optional_err validate_digest m.attachment ≡ none
  pub within : body_over_budget m.body ≡ none
  pub sender : IsIdentifier from

submission-IsDelivery :
    (from : Text) (m : Submission)
    → IsSubmission from m
    → IsDelivery m.id from m.body m.reply_to m.attachment
submission-IsDelivery from m v = record {
  short_id = correlation-short m.id (err_of-ok _ v.id_ok);
  short_from = v.sender.short;
  short_body = body-short m.body v.within;
  short_reply = OnSome-optional validate_correlation_id _ correlation-short m.reply_to v.reply_ok;
  short_attachment = OnSome-optional validate_digest _ digest-short m.attachment v.attachment_ok;
}

module _ (encode : ServerFrame → Option Bytes) (law : IsMessagePack encode) where
  encode_delivery-fits :
      (frame : ServerFrame)
      → frame_size frame ≤ max_frame_bytes
      → (payload : Bytes) × (encode_delivery encode frame ≡ some payload)
        × (length payload ≡ frame_size frame)
  encode_delivery-fits frame fits =
      let (payload, e, size) = law.encodes frame in
      let small : leb (length payload) max_frame_bytes ≡ true = ground arith in
      (payload, unfold encode_delivery in rw (e, small, encode_delivery) refl, size)

  module _ {Chan : Type 0} (q : Mpsc Bytes Chan) where
    -- The routing of a frame that can be encoded has a status.
    route-status :
        (s : ServerState Chan) (room : _) (to : Text) (frame : ServerFrame) (payload : Bytes)
        → encode_delivery encode frame ≡ some payload
        → (st : ReceiptStatus) × ((route q encode s room to frame).0 ≡ status st)
    route-status s room to frame payload e = elim (Option-cases (handle_at s room to)) [
      | inl offline ↦ (peer_offline, unfold route in rw (offline, route) refl)
      | inr (handle, f) ↦
          ((enqueue q handle.outbound payload).0, unfold route in rw (f, e, route) refl)
    ]

module _ {Queue Chan : Type 0} (r : Mpsc ServerFrame Queue) (law : IsMpsc r) (q : Mpsc Bytes Chan)
    (encode : ServerFrame → Option Bytes) (pack : IsMessagePack encode) (show_char : ℕ → Text)
    (s : ServerState Chan) (registered : RegisteredPeer) where
  -- A `send` whose fields pass the checks, from a peer whose name is an identifier to a valid
  -- target, on an open reply queue with two free slots, is always routed, and its receipt is
  -- queued: the message that it makes fits the frame cap.
  pub handle_send-delivered :
      (replies : Queue) (to : Text) (m : Submission)
      → IsSubmission registered.peer m
      → err_of (validate_identifier to) ≡ none
      → r.is_closed replies ≡ false
      → 2 ≤ r.capacity replies
      → IsReceipted r law q encode show_char s registered replies to m
          (handle_send r q encode show_char replies s registered to m)
  handle_send-delivered replies to m v to_ok open_end free =
      let fits =
        frame_size-message m.id registered.peer m.body m.reply_to m.attachment
          (submission-IsDelivery registered.peer m v) in
      let (payload, e, _) = encode_delivery-fits encode pack _ (omega (arith, fits)) in
      let (st, routed) = route-status encode pack q s registered.room to _ payload e in
      handle_send-routed r law q encode show_char s registered replies to m st v.id_ok to_ok
        v.reply_ok v.attachment_ok v.within open_end free routed

  -- An `announce` whose fields pass the checks, from a peer whose name is an identifier, on an open
  -- reply queue with two free slots, is always accepted: its notice fits the frame cap and is
  -- offered to the room.
  pub handle_announce-delivered :
      (replies : Queue) (m : Submission)
      → IsSubmission registered.peer m
      → r.is_closed replies ≡ false
      → 2 ≤ r.capacity replies
      → IsAccepted r law q encode show_char s registered replies m
          (handle_announce r q encode show_char replies s registered m)
  handle_announce-delivered replies m v open_end free =
      let fits =
        frame_size-notice m.id registered.peer m.body m.reply_to m.attachment
          (submission-IsDelivery registered.peer m v) in
      let (payload, e, _) = encode_delivery-fits encode pack _ (omega (arith, fits)) in
      handle_announce-offered r law q encode show_char s registered replies m payload v.id_ok
        v.reply_ok v.attachment_ok v.within open_end free e
