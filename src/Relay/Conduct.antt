-- ===== src/Relay/Conduct.antt =====
-- What each branch of the handlers of server/src/relay.rs answers.
use omp_relayd.Base.{ℕ, ◌≡◌, refl, inl, inr, Option, none, some}
use omp_relayd.Base.Text.{codes}
use omp_relayd.Protocol.Limits.{Text}
use omp_relayd.Protocol.Frames.{
  ClientFrame, hello, list, send, announce, reserve, ping, unsupported, ServerFrame, ErrorCode,
  frame_too_large, duplicate_hello,
}
use omp_relayd.Blob.Types.{Store}
use omp_relayd.Relay.Channel.{Mpsc, IsMpsc}
use omp_relayd.Relay.Messages.{over_budget_text}
use omp_relayd.Relay.Registry.{Bytes, ServerState}
use omp_relayd.Relay.Replies.{break, enqueue_reply, queue_diagnostic, refuse_over_budget}
use omp_relayd.Relay.Handlers.{
  RegisteredPeer, Submission, Outcome, leave, handle_send, handle_announce, reserve_claimed,
  reserve_valid, handle_reserve, reply_if, within_budget, with_acknowledgement, handle_list,
  handle_frame,
}
use omp_relayd.Relay.Answers.{
  IsReady, IsAnswer, leave-IsAnswer, queue_diagnostic-IsDiagnosed, enqueue_reply-IsReply,
  claim_acknowledgement-cases, send_claimed-IsAnswer, announce_claimed-IsAnswer,
  send_permit-IsReady,
}

module _ {Queue Chan : Type 0} (r : Mpsc ServerFrame Queue) (law : IsMpsc r) (replies : Queue)
    (s : ServerState Chan) (ready : IsReady r replies) where
  reply-IsAnswer :
      (frame : ServerFrame) → IsAnswer r replies s (leave s (enqueue_reply r replies frame))
  reply-IsAnswer frame =
      leave-IsAnswer r s replies (enqueue_reply r replies frame)
        (enqueue_reply-IsReply r law replies frame ready)

  diagnostic-IsAnswer :
      (code : ErrorCode) (text : Text)
      → IsAnswer r replies s (leave s (break, queue_diagnostic r replies code text))
  diagnostic-IsAnswer code text =
      inr (refl, refl, queue_diagnostic-IsDiagnosed r law replies code text ready)

  reply_if-IsAnswer :
      {E : Type 0} (v : Option E) (frame : E → ServerFrame) (next : Outcome Queue Chan)
      → IsAnswer r replies s next
      → IsAnswer r replies s (reply_if r replies s v frame next)
  unfolding reply_if
  reply_if-IsAnswer none frame next answer = answer
  reply_if-IsAnswer (some e) frame next answer = reply-IsAnswer (frame e)

  within_budget-IsAnswer :
      (v : Option ℕ) (field : Text) (next : Outcome Queue Chan)
      → IsAnswer r replies s next
      → IsAnswer r replies s (within_budget r replies s v field next)
  unfolding within_budget refuse_over_budget
  within_budget-IsAnswer none field next answer = answer
  within_budget-IsAnswer (some n) field next answer =
      diagnostic-IsAnswer frame_too_large (over_budget_text field n)

  with_acknowledgement-IsAnswer :
      (what : Text) (next : Queue → Outcome Queue Chan)
      → ((slot : Queue)
          → IsReady r slot
          → r.queued slot ≡ r.queued replies
          → IsAnswer r replies s (next slot))
      → IsAnswer r replies s (with_acknowledgement r replies s what next)
  with_acknowledgement-IsAnswer what next answer =
      elim (claim_acknowledgement-cases r law replies what ready) [
        | inl (slot, e, still, same) ↦
            unfold with_acknowledgement in rw (e, with_acknowledgement) (answer slot still same)
        | inr (after, e, told) ↦
            unfold with_acknowledgement in rw (e, with_acknowledgement) (inr (refl, refl, told))
      ]

  module _ (q : Mpsc Bytes Chan) (encode : ServerFrame → Option Bytes) (show_char : ℕ → Text)
      (registered : RegisteredPeer) where
    handle_send-IsAnswer :
        (to : Text) (m : Submission)
        → IsAnswer r replies s (handle_send r q encode show_char replies s registered to m)
    unfolding handle_send
    handle_send-IsAnswer to m = reply_if-IsAnswer _ _ _ (
        reply_if-IsAnswer _ _ _ (
          reply_if-IsAnswer _ _ _ (
            reply_if-IsAnswer _ _ _ (
              within_budget-IsAnswer _ _ _ (
                with_acknowledgement-IsAnswer _ _ (λ slot.
                  send_claimed-IsAnswer r law q encode show_char replies slot s registered to
                    m))))))

    handle_announce-IsAnswer :
        (m : Submission)
        → IsAnswer r replies s (handle_announce r q encode show_char replies s registered m)
    unfolding handle_announce
    handle_announce-IsAnswer m = reply_if-IsAnswer _ _ _ (
        reply_if-IsAnswer _ _ _ (
          reply_if-IsAnswer _ _ _ (
            within_budget-IsAnswer _ _ _ (
              with_acknowledgement-IsAnswer _ _ (λ slot.
                announce_claimed-IsAnswer r law q encode show_char replies slot s registered m)))))

    reserve_valid-IsAnswer :
        (blobs : Option Store) (request_id digest : Text) (bytes now : ℕ)
        → IsAnswer r replies s (
            reserve_valid r q encode show_char replies s registered blobs request_id digest bytes
              now)
    unfolding reserve_valid reserve_claimed
    reserve_valid-IsAnswer none request_id digest bytes now = reply-IsAnswer _
    reserve_valid-IsAnswer (some blobs) request_id digest bytes now =
        with_acknowledgement-IsAnswer (codes "reservation")
          (λ slot.
            reserve_claimed r q encode show_char slot s registered.room blobs request_id digest
              bytes now)
          (λ slot still same. inl (refl, send_permit-IsReady r law _ slot still))

    handle_reserve-IsAnswer :
        (request_id digest : Text) (bytes now : ℕ)
        → IsAnswer r replies s
            (handle_reserve r q encode show_char replies s registered request_id digest bytes now)
    unfolding handle_reserve
    handle_reserve-IsAnswer request_id digest bytes now =
        reply_if-IsAnswer _ _ _
          (reply_if-IsAnswer _ _ _ (reserve_valid-IsAnswer s.blobs request_id digest bytes now))

    -- Each frame of a registered connection, on a reply queue that is open and has the slot of the
    -- closing diagnostic, is answered in one of two ways. Either the connection goes on, and the
    -- queue is open and has that slot again; or it closes, a diagnostic has been queued after what
    -- the queue held, and the state of the server is as it was.
    pub handle_frame-IsAnswer :
        (now : ℕ) (frame : ClientFrame)
        → IsAnswer r replies s (handle_frame r q encode show_char replies s registered now frame)
    unfolding handle_frame handle_list
    handle_frame-IsAnswer now (hello protocol room peer) =
        diagnostic-IsAnswer duplicate_hello (codes "this connection is already registered")
    handle_frame-IsAnswer now (list request_id) = reply_if-IsAnswer _ _ _ (reply-IsAnswer _)
    handle_frame-IsAnswer now (send id to body reply_to attachment) = handle_send-IsAnswer to _
    handle_frame-IsAnswer now (announce id body reply_to attachment) = handle_announce-IsAnswer _
    handle_frame-IsAnswer now (reserve request_id digest bytes) =
        handle_reserve-IsAnswer request_id digest bytes now
    handle_frame-IsAnswer now ping = reply-IsAnswer _
    handle_frame-IsAnswer now unsupported = reply-IsAnswer _
