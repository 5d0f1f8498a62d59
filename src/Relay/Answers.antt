-- ===== src/Relay/Answers.antt =====
-- What `handle_frame` of server/src/relay.rs leaves in the reply queue: the slot of the diagnostic,
-- and the diagnostic of each close.
use omp_relayd.Base.{
  ℕ, ◌≤◌, ◌≡◌, refl, sym, ap, subst, ◌∙◌, ◌⊎◌, inl, inr, [], ◌∷◌, ◌++◌, Option, none, some,
  Option-cases, false, Bool-cases, leb, arith,
}
use omp_relayd.Base.Text.{codes}
use omp_relayd.Protocol.Limits.{Text, RoomId}
use omp_relayd.Protocol.Frames.{
  ServerFrame, ReceiptStatus, error, ErrorCode, message, notice, receipt, accepted, idle_timeout,
  frame_too_large,
}
use omp_relayd.Relay.Channel.{Mpsc, IsMpsc, sent}
use omp_relayd.Relay.Messages.{cap_diagnostic, unacknowledged_text}
use omp_relayd.Relay.Registry.{
  Bytes, ServerState, Routed, status, unwritable, route, handle_at, encode_delivery, fanout,
}
use omp_relayd.Relay.Replies.{
  diagnostic_reserve, Flow, continue, break, enqueue_reply, reserve_acknowledgement,
  queue_diagnostic, claimed, unclaimed, claim_acknowledgement, refuse_unwritable,
}
use omp_relayd.Relay.Handlers.{
  RegisteredPeer, Submission, Outcome, leave, send_claimed, announce_claimed,
}

pub Routed-cases : (o : Routed) → ((st : ReceiptStatus) × (o ≡ status st)) ⊎ (o ≡ unwritable)
Routed-cases (status st) = inl (st, refl)
Routed-cases unwritable = inr refl

module _ {Queue : Type 0} (r : Mpsc ServerFrame Queue) where
  open r use {capacity, queued, is_closed}

  -- A queue that is open and has the slot of the diagnostic.
  abbrev pub IsReady : Queue → Type 0
  IsReady replies = (is_closed replies ≡ false) × (diagnostic_reserve ≤ capacity replies)

  -- The second queue is the first one with a diagnostic after what it held.
  abbrev pub IsDiagnosed : Queue → Queue → Type 0
  IsDiagnosed replies after =
      (code : ErrorCode) × (text : Text) × (queued after
        ≡ queued replies ++ (error code (some text) none ∷ []))

  -- The queue after a handler that went on, or that closed the connection.
  abbrev pub IsReply : Queue → Flow × Queue → Type 0
  IsReply replies after =
      ((after.0 ≡ continue) × IsReady after.1) ⊎ ((after.0 ≡ break) × IsDiagnosed replies after.1)

  -- An outcome goes on with the slot of the diagnostic free, or breaks with a diagnostic queued
  -- and the state as it was.
  abbrev pub IsAnswer : {Chan : Type 0} → Queue → ServerState Chan → Outcome Queue Chan → Type 0
  IsAnswer replies s after =
      ((after.flow ≡ continue) × IsReady after.replies)
      ⊎ ((after.flow ≡ break) × (after.state ≡ s) × IsDiagnosed replies after.replies)

  pub leave-IsAnswer :
      {Chan : Type 0} (s : ServerState Chan) (replies : Queue) (after : Flow × Queue)
      → IsReply replies after
      → IsAnswer replies s (leave s after)
  leave-IsAnswer s replies (flow, after) (inl went) = inl went
  leave-IsAnswer s replies (flow, after) (inr (stopped, told)) = inr (stopped, refl, told)

  module _ (law : IsMpsc r) where
    try_send-sent :
        (frame : ServerFrame) (replies : Queue)
        → IsReady replies
        → (r.try_send frame replies).0 ≡ sent
    try_send-sent frame replies (open_end, free) =
        law.send_sent frame replies open_end (omega (arith, free))

    pub queue_diagnostic-queued :
        (replies : Queue) (code : ErrorCode) (text : Text)
        → IsReady replies
        → queued (queue_diagnostic r replies code text)
          ≡ queued replies ++ (error code (some (cap_diagnostic text)) none ∷ [])
    unfolding queue_diagnostic
    queue_diagnostic-queued replies code text ready =
        let frame = error code (some (cap_diagnostic text)) none in
        (law.send_queued frame replies (try_send-sent frame replies ready)).0

    pub queue_diagnostic-IsDiagnosed :
        (replies : Queue) (code : ErrorCode) (text : Text)
        → IsReady replies
        → IsDiagnosed replies (queue_diagnostic r replies code text)
    queue_diagnostic-IsDiagnosed replies code text ready =
        (code, cap_diagnostic text, queue_diagnostic-queued replies code text ready)

    -- A reply that may be dropped leaves the slot of the diagnostic, whether it is queued or not.
    pub enqueue_reply-IsReply :
        (replies : Queue) (frame : ServerFrame)
        → IsReady replies
        → IsReply replies (enqueue_reply r replies frame)
    enqueue_reply-IsReply replies frame ready =
        elim (Bool-cases (leb (capacity replies) diagnostic_reserve)) [
          | inl scarce ↦ unfold enqueue_reply in rw (scarce) (inl (refl, ready))
          | inr ample ↦
              let taken = try_send-sent frame replies ready in
              let (_, less, same) = law.send_queued frame replies taken in
              let left : diagnostic_reserve ≤ capacity (r.try_send frame replies).1 =
                ground arith in
              unfold enqueue_reply in rw (ample, taken) (inl (refl, (same ∙ ready.0, left)))
        ]

    -- A claimed slot leaves the slot of the diagnostic; where none is claimed the cause is queued.
    pub claim_acknowledgement-cases :
        (replies : Queue) (what : Text)
        → IsReady replies
        → ((slot : Queue) × (claim_acknowledgement r replies what ≡ claimed slot)
            × IsReady slot
            × (queued slot ≡ queued replies))
          ⊎ ((after : Queue) × (claim_acknowledgement r replies what ≡ unclaimed after)
              × IsDiagnosed replies after)
    claim_acknowledgement-cases replies what ready =
        elim (Option-cases (reserve_acknowledgement r replies)) [
          | inl none_left ↦ inr (
            queue_diagnostic r replies idle_timeout (unacknowledged_text what),
            (unfold claim_acknowledgement in rw (none_left, claim_acknowledgement) refl),
            queue_diagnostic-IsDiagnosed replies idle_timeout (unacknowledged_text what) ready,
          )
          | inr (slot, e) ↦ elim (Bool-cases (leb (capacity replies) diagnostic_reserve)) [
            | inl scarce ↦ absurd (unfold reserve_acknowledgement in ground arith)
            | inr ample ↦
                let held : r.try_reserve replies ≡ some slot =
                  unfold reserve_acknowledgement in ground arith in
                let (same, less, open_end) = law.reserve_lem replies slot held in
                inl (
                  slot,
                  (unfold claim_acknowledgement in rw (e, claim_acknowledgement) refl),
                  (open_end ∙ ready.0, ground arith),
                  same,
                )
          ]
        ]

    pub send_permit-IsReady :
        (frame : ServerFrame) (slot : Queue) → IsReady slot → IsReady (r.send_permit frame slot)
    send_permit-IsReady frame slot (open_end, free) =
        let (_, same, e) = law.permit_sent frame slot in (e ∙ open_end, omega (arith, same, free))

    refuse_unwritable-IsReply :
        (replies slot : Queue) (produced : Text)
        → IsReady slot
        → queued slot ≡ queued replies
        → IsReply replies (refuse_unwritable r (r.drop_permit slot) produced)
    unfolding refuse_unwritable
    refuse_unwritable-IsReply replies slot produced (open_end, free) same =
        let (kept, more, e) = law.permit_dropped slot in
        let ready : IsReady (r.drop_permit slot) = (e ∙ open_end, omega (arith, more, free)) in
        let (code, text, told) =
          queue_diagnostic-IsDiagnosed (r.drop_permit slot) frame_too_large _ ready in
        inr (
          refl,
          (code, text, told ∙ ap (λ fs. fs ++ (error code (some text) none ∷ [])) (kept ∙ same)),
        )

    module _ {Chan : Type 0} (q : Mpsc Bytes Chan) (encode : ServerFrame → Option Bytes)
        (show_char : ℕ → Text) where
      -- Nothing is delivered by a routing that cannot encode its frame.
      pub route-unwritable :
          (s : ServerState Chan) (room : RoomId) (to : Text) (frame : ServerFrame)
          → (route q encode s room to frame).0 ≡ unwritable
          → (route q encode s room to frame).1 ≡ s
      route-unwritable s room to frame h = elim (Option-cases (handle_at s room to)) [
        | inl offline ↦ unfold route in rw (offline, route) refl
        | inr (handle, e) ↦ elim (Option-cases (encode_delivery encode frame)) [
          | inl failed ↦ unfold route in rw (e, failed, route) refl
          | inr (payload, f) ↦ absurd (unfold route in ground arith)
        ]
      ]

      pub send_claimed-IsAnswer :
          (replies slot : Queue) (s : ServerState Chan) (registered : RegisteredPeer) (to : Text)
          (m : Submission)
          → IsReady slot
          → queued slot ≡ queued replies
          → IsAnswer replies s (send_claimed r q encode show_char slot s registered to m)
      send_claimed-IsAnswer replies slot s registered to m ready same =
          let frame = message m.id registered.peer m.body m.reply_to m.attachment in
          elim (Routed-cases (route q encode s registered.room to frame).0) [
            | inl (st, e) ↦
                unfold send_claimed in
                rw (e, send_claimed)
                  (inl (refl, send_permit-IsReady (receipt m.id to st) slot ready))
            | inr e ↦
                unfold send_claimed in
                rw (e, send_claimed)
                  (subst
                    (λ s'.
                      IsAnswer replies s
                        (leave s' (refuse_unwritable r (r.drop_permit slot) (codes "message"))))
                    (sym (route-unwritable s registered.room to frame e))
                    (leave-IsAnswer s replies
                      (refuse_unwritable r (r.drop_permit slot) (codes "message"))
                      (refuse_unwritable-IsReply replies slot (codes "message") ready same)))
          ]

      pub announce_claimed-IsAnswer :
          (replies slot : Queue) (s : ServerState Chan) (registered : RegisteredPeer)
          (m : Submission)
          → IsReady slot
          → queued slot ≡ queued replies
          → IsAnswer replies s (announce_claimed r q encode show_char slot s registered m)
      announce_claimed-IsAnswer replies slot s registered m ready same =
          elim (Option-cases
            (encode_delivery encode (notice m.id registered.peer m.body m.reply_to m.attachment))) [
              | inl failed ↦
                  unfold announce_claimed in
                  rw (failed, announce_claimed)
                    (leave-IsAnswer s replies
                      (refuse_unwritable r (r.drop_permit slot) (codes "notice"))
                      (refuse_unwritable-IsReply replies slot (codes "notice") ready same))
              | inr (payload, e) ↦
                  unfold announce_claimed in
                  rw (e, announce_claimed)
                    (inl (
                      refl,
                      send_permit-IsReady
                          (accepted m.id
                            (fanout q s registered.room registered.peer payload).0.delivered
                            (fanout q s registered.room registered.peer payload).0.shed)
                          slot ready,
                    ))
            ]
