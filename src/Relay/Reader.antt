-- ===== src/Relay/Reader.antt =====
-- `run_reader` of server/src/relay.rs: the reading side of a connection, over what happens to it.
use omp_relayd.Base.{ℕ, leb, if◌then◌else◌, List, [], ◌∷◌, ◌++◌, Option, Result}
use omp_relayd.Base.Text.{codes}
use omp_relayd.Protocol.Limits.{Text}
use omp_relayd.Protocol.Frames.{ClientFrame, ServerFrame, idle_timeout}
use omp_relayd.Relay.Channel.{Mpsc}
use omp_relayd.Relay.Registry.{Bytes, ServerState}
use omp_relayd.Relay.Replies.{continue, break, queue_diagnostic}
use omp_relayd.Relay.Handlers.{RegisteredPeer, Outcome}
use omp_relayd.Relay.Admission.{Inbound, handle_inbound}

-- What the select of the reader finds: the flags, the time, or what is read and when; and what other
-- tasks make meanwhile of the state, and the writer of the reply queue.
pub data Happening (Queue Chan : Type 0) : Type 0 where
  shutdown_signalled superseded : Happening Queue Chan
  waited : ℕ → Happening Queue Chan
  reads : Inbound → ℕ → Happening Queue Chan
  meanwhile : ServerState Chan → (Queue → Queue) → Happening Queue Chan

module _ {E Queue Chan : Type 0} (deserialize : List ℕ → Result (ClientFrame × ℕ) E)
    (show_error : E → Text) (show_char show_duration : ℕ → Text) (r : Mpsc ServerFrame Queue)
    (q : Mpsc Bytes Chan) (encode : ServerFrame → Option Bytes) where
  -- It goes on waiting, or it returns: the flow of the outcome says which.
  unfoldable pub run_reader :
      Queue
      → ServerState Chan
      → RegisteredPeer
      → ℕ
      → List (Happening Queue Chan)
      → Outcome Queue Chan
  run_reader replies s registered deadline [] = record {
    flow = continue;
    replies = replies;
    state = s;
  }
  run_reader replies s registered deadline (shutdown_signalled ∷ later) = record {
    flow = break;
    replies = replies;
    state = s;
  }
  run_reader replies s registered deadline (superseded ∷ later) = record {
    flow = break;
    replies = replies;
    state = s;
  }
  run_reader replies s registered deadline (waited now ∷ later) =
      let rest = run_reader replies s registered deadline later in
      if leb deadline now
      then record {
        flow = break;
        replies =
            queue_diagnostic r replies idle_timeout
              (codes "no frame within " ++ show_duration s.deadlines.idle);
        state = s;
      }
      else rest
  run_reader replies s registered deadline (reads inbound now ∷ later) =
      let (after, deadline') =
        handle_inbound deserialize show_error show_char r q encode replies s registered inbound
          deadline now in
      elim after.flow [
        | continue ↦ run_reader after.replies after.state registered deadline' later
        | break ↦ after
      ]
  run_reader replies s registered deadline (meanwhile s' takes ∷ later) =
      run_reader (takes replies) s' registered deadline later
