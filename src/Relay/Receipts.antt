-- ===== src/Relay/Receipts.antt =====
-- The acknowledgements of server/src/relay.rs: a frame takes effect only with its receipt, and a
-- valid frame has its effect and its receipt.
use omp_relayd.Base.{
  ℕ, ◌≤◌, ◌≡◌, refl, ap, ◌∙◌, ◌⊎◌, inl, inr, [], ◌∷◌, ◌++◌, Option, none, some, Option-cases, false,
}
use omp_relayd.Base.Text.{codes}
use omp_relayd.Protocol.Limits.{Text}
use omp_relayd.Protocol.Validate.{
  validate_correlation_id, validate_identifier, validate_digest, body_over_budget,
}
use omp_relayd.Protocol.Frames.{ServerFrame, ReceiptStatus, message, notice, receipt, accepted}
use omp_relayd.Relay.Channel.{Mpsc, IsMpsc}
use omp_relayd.Relay.Registry.{Bytes, ServerState, status, route, fanout, encode_delivery}
use omp_relayd.Relay.Replies.{Flow, continue}
use omp_relayd.Relay.Handlers.{
  RegisteredPeer, Submission, Outcome, leave, err_of, optional_err, reply_if, within_budget,
  send_claimed, handle_send, announce_claimed, handle_announce,
}
use omp_relayd.Relay.Answers.{Routed-cases, route-unwritable}
use omp_relayd.Relay.Gates.{
  reserve_acknowledgement-queued, reserve_acknowledgement-open, reply_if-rule, within_budget-rule,
  with_acknowledgement-rule, with_acknowledgement-claimed,
}

module _ {Queue Chan : Type 0} (r : Mpsc ServerFrame Queue) (law : IsMpsc r) where
  open r use {capacity, queued}

  module _ (q : Mpsc Bytes Chan) (encode : ServerFrame → Option Bytes) (show_char : ℕ → Text)
      (s : ServerState Chan) (registered : RegisteredPeer) where
    -- The state and the queue after a routing that has been acknowledged.
    abbrev pub IsReceipted : Queue → Text → Submission → Outcome Queue Chan → Type 0
    IsReceipted replies to m after =
        let routing =
          route q encode s registered.room to
            (message m.id registered.peer m.body m.reply_to m.attachment) in
        (st : _) × (routing.0 ≡ status st)
        × (after.flow ≡ continue)
        × (after.state ≡ routing.1)
        × (queued after.replies ≡ queued replies ++ (receipt m.id to st ∷ []))

    send_claimed-IsReceipted :
        (replies slot : Queue) (to : Text) (m : Submission)
        → queued slot ≡ queued replies
        → (st : _)
        → (route q encode s registered.room to
            (message m.id registered.peer m.body m.reply_to m.attachment)).0
          ≡ status st
        → IsReceipted replies to m (send_claimed r q encode show_char slot s registered to m)
    unfolding send_claimed
    send_claimed-IsReceipted replies slot to m same st e =
        rw (e, send_claimed)
          (
            st,
            refl,
            refl,
            refl,
            (law.permit_sent (receipt m.id to st) slot).0
                ∙ ap (λ fs. fs ++ (receipt m.id to st ∷ [])) same,
          )

    send_claimed-answer :
        (replies slot : Queue) (to : Text) (m : Submission)
        → queued slot ≡ queued replies
        → let after = send_claimed r q encode show_char slot s registered to m in
          (after.state ≡ s) ⊎ IsReceipted replies to m after
    send_claimed-answer replies slot to m same =
        let frame = message m.id registered.peer m.body m.reply_to m.attachment in
        elim (Routed-cases (route q encode s registered.room to frame).0) [
          | inl (st, e) ↦ inr (send_claimed-IsReceipted replies slot to m same st e)
          | inr e ↦ inl (
              unfold send_claimed in
              rw (e, send_claimed)
                (route-unwritable r law q encode show_char s registered.room to frame e))
        ]

    -- A send leaves the state as it was, or it has been routed with exactly one receipt queued,
    -- which carries the status that the routing reported.
    pub handle_send-receipt :
        (replies : Queue) (to : Text) (m : Submission)
        → let after = handle_send r q encode show_char replies s registered to m in
          (after.state ≡ s) ⊎ IsReceipted replies to m after
    unfolding handle_send
    handle_send-receipt replies to m =
        let P : Outcome Queue Chan → Type 0 =
          λ after. (after.state ≡ s) ⊎ IsReceipted replies to m after in
        let left : (x : Flow × Queue) → P (leave s x) = λ x. inl refl in
        reply_if-rule r law replies s P left _ _ _ (
          reply_if-rule r law replies s P left _ _ _ (
            reply_if-rule r law replies s P left _ _ _ (
              reply_if-rule r law replies s P left _ _ _ (
                within_budget-rule r law replies s P left _ _ _ (
                  with_acknowledgement-rule r law replies s P left _ _
                    (λ slot same. send_claimed-answer replies slot to m same))))))

    -- A send whose fields are valid and whose body is within the budget, on an open reply queue
    -- with two free slots, is routed and has its receipt queued, unless the message that it makes
    -- cannot be encoded within the frame cap.
    pub handle_send-routed :
        (replies : Queue) (to : Text) (m : Submission) (st : ReceiptStatus)
        → err_of (validate_correlation_id m.id) ≡ none
        → err_of (validate_identifier to) ≡ none
        → optional_err validate_correlation_id m.reply_to ≡ none
        → optional_err validate_digest m.attachment ≡ none
        → body_over_budget m.body ≡ none
        → r.is_closed replies ≡ false
        → 2 ≤ capacity replies
        → (route q encode s registered.room to
            (message m.id registered.peer m.body m.reply_to m.attachment)).0
          ≡ status st
        → IsReceipted replies to m (handle_send r q encode show_char replies s registered to m)
    unfolding handle_send reply_if within_budget
    handle_send-routed replies to m st id_ok to_ok reply_ok attachment_ok small open_end free e =
        let (slot, held) = reserve_acknowledgement-open r law replies open_end free in
        let same = reserve_acknowledgement-queued r law replies slot held in
        rw
          (
            id_ok,
            to_ok,
            reply_ok,
            attachment_ok,
            small,
            with_acknowledgement-claimed r law replies slot s (codes "send")
                (λ slot. send_claimed r q encode show_char slot s registered to m) held,
            handle_send,
          )
          (send_claimed-IsReceipted replies slot to m same st e)

    -- The state and the queue after an announcement that has been acknowledged.
    abbrev pub IsAccepted : Queue → Submission → Outcome Queue Chan → Type 0
    IsAccepted replies m after =
        (payload : Bytes) × (encode_delivery encode
            (notice m.id registered.peer m.body m.reply_to m.attachment)
          ≡ some payload)
        × (after.flow ≡ continue)
        × (after.state ≡ (fanout q s registered.room registered.peer payload).1)
        × (queued after.replies
            ≡ queued replies
              ++ (accepted m.id (fanout q s registered.room registered.peer payload).0.delivered
                    (fanout q s registered.room registered.peer payload).0.shed
                  ∷ []))

    announce_claimed-IsAccepted :
        (replies slot : Queue) (m : Submission)
        → queued slot ≡ queued replies
        → (payload : Bytes)
        → encode_delivery encode (notice m.id registered.peer m.body m.reply_to m.attachment)
          ≡ some payload
        → IsAccepted replies m (announce_claimed r q encode show_char slot s registered m)
    unfolding announce_claimed
    announce_claimed-IsAccepted replies slot m same payload e =
        let counts = (fanout q s registered.room registered.peer payload).0 in
        rw (e, announce_claimed)
          (
            payload,
            refl,
            refl,
            refl,
            (law.permit_sent _ slot).0
                ∙ ap (λ fs. fs ++ (accepted m.id counts.delivered counts.shed ∷ [])) same,
          )

    announce_claimed-answer :
        (replies slot : Queue) (m : Submission)
        → queued slot ≡ queued replies
        → let after = announce_claimed r q encode show_char slot s registered m in
          (after.state ≡ s) ⊎ IsAccepted replies m after
    announce_claimed-answer replies slot m same =
        elim (Option-cases
          (encode_delivery encode (notice m.id registered.peer m.body m.reply_to m.attachment))) [
            | inl failed ↦ inl (unfold announce_claimed in rw (failed, announce_claimed) refl)
            | inr (payload, e) ↦ inr (announce_claimed-IsAccepted replies slot m same payload e)
          ]

    -- An announcement leaves the state as it was, or one encoded notice has been offered to the
    -- room and exactly one acceptance is queued, which carries the counts of that fanout.
    pub handle_announce-IsAccepted :
        (replies : Queue) (m : Submission)
        → let after = handle_announce r q encode show_char replies s registered m in
          (after.state ≡ s) ⊎ IsAccepted replies m after
    unfolding handle_announce
    handle_announce-IsAccepted replies m =
        let P : Outcome Queue Chan → Type 0 =
          λ after. (after.state ≡ s) ⊎ IsAccepted replies m after in
        let left : (x : Flow × Queue) → P (leave s x) = λ x. inl refl in
        reply_if-rule r law replies s P left _ _ _ (
          reply_if-rule r law replies s P left _ _ _ (
            reply_if-rule r law replies s P left _ _ _ (
              within_budget-rule r law replies s P left _ _ _ (
                with_acknowledgement-rule r law replies s P left _ _
                  (λ slot same. announce_claimed-answer replies slot m same)))))

    -- An announcement whose fields are valid and whose notice can be encoded, on an open reply queue
    -- with two free slots, is accepted.
    pub handle_announce-offered :
        (replies : Queue) (m : Submission) (payload : Bytes)
        → err_of (validate_correlation_id m.id) ≡ none
        → optional_err validate_correlation_id m.reply_to ≡ none
        → optional_err validate_digest m.attachment ≡ none
        → body_over_budget m.body ≡ none
        → r.is_closed replies ≡ false
        → 2 ≤ capacity replies
        → encode_delivery encode (notice m.id registered.peer m.body m.reply_to m.attachment)
          ≡ some payload
        → IsAccepted replies m (handle_announce r q encode show_char replies s registered m)
    unfolding handle_announce reply_if within_budget
    handle_announce-offered replies m payload id_ok reply_ok attachment_ok small open_end free e =
        let (slot, held) = reserve_acknowledgement-open r law replies open_end free in
        let same = reserve_acknowledgement-queued r law replies slot held in
        rw
          (
            id_ok,
            reply_ok,
            attachment_ok,
            small,
            with_acknowledgement-claimed r law replies slot s (codes "announcement")
                (λ slot. announce_claimed r q encode show_char slot s registered m) held,
            handle_announce,
          )
          (announce_claimed-IsAccepted replies slot m same payload e)
