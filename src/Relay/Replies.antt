-- ===== src/Relay/Replies.antt =====
-- The reply queue of a connection in server/src/relay.rs: replies that may be dropped, slots held
-- for acknowledgements, and the slot that is left to the closing diagnostic.
use omp_relayd.Base.{ℕ, leb, if◌then◌else◌, Option, none, some}
use omp_relayd.Protocol.Limits.{Text}
use omp_relayd.Protocol.Frames.{ServerFrame, error, ErrorCode, idle_timeout, frame_too_large}
use omp_relayd.Relay.Channel.{Mpsc, Sent, sent, full, closed}
use omp_relayd.Relay.Messages.{
  cap_diagnostic, over_budget_text, unwritable_text, unacknowledged_text,
}

abbrev pub reply_queue_capacity : ℕ
reply_queue_capacity = 8

abbrev pub diagnostic_reserve : ℕ
diagnostic_reserve = 1

-- `ControlFlow<()>`
pub data Flow : Type 0 where
  continue break : Flow

abbrev pub flow_of : Sent → Flow
flow_of sent = continue
flow_of full = continue
flow_of closed = break

module _ {Queue : Type 0} (q : Mpsc ServerFrame Queue) where
  unfoldable pub enqueue_reply : Queue → ServerFrame → Flow × Queue
  enqueue_reply replies frame =
      let (answer, replies') = q.try_send frame replies in
      if leb (q.capacity replies) diagnostic_reserve
      then (continue, replies)
      else (flow_of answer, replies')

  unfoldable pub reserve_acknowledgement : Queue → Option Queue
  reserve_acknowledgement replies =
      if leb (q.capacity replies) diagnostic_reserve then none else q.try_reserve replies

  unfoldable pub queue_diagnostic : Queue → ErrorCode → Text → Queue
  queue_diagnostic replies code message =
      (q.try_send (error code (some (cap_diagnostic message)) none) replies).1

  -- The queue with a slot held, or the queue with the diagnostic of the close.
  pub data Claim : Type 0 where
    claimed : Queue → Claim
    unclaimed : Queue → Claim

  unfoldable pub claim_acknowledgement : Queue → Text → Claim
  unfolding reserve_acknowledgement queue_diagnostic
  claim_acknowledgement replies what = elim (reserve_acknowledgement replies) [
    | some slot ↦ claimed slot
    | none ↦ unclaimed (queue_diagnostic replies idle_timeout (unacknowledged_text what))
  ]

  unfoldable pub refuse_over_budget : Queue → Text → ℕ → Flow × Queue
  unfolding queue_diagnostic
  refuse_over_budget replies field body_bytes =
      (break, queue_diagnostic replies frame_too_large (over_budget_text field body_bytes))

  unfoldable pub refuse_unwritable : Queue → Text → Flow × Queue
  unfolding queue_diagnostic
  refuse_unwritable replies produced =
      (break, queue_diagnostic replies frame_too_large (unwritable_text produced))
