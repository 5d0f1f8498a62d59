-- ===== src/Relay/Reads.antt =====
-- What a payload on a registered connection leads to, in server/src/relay.rs.
use omp_relayd.Base.{ℕ, ◌+◌, ◌≡◌, refl, ◌⊎◌, inl, inr, List, Result, Result-cases, ok, err, Option}
use omp_relayd.Protocol.Limits.{Text}
use omp_relayd.Protocol.Frames.{ClientFrame, ServerFrame, DecodeError, decode, malformed_frame}
use omp_relayd.Relay.Channel.{Mpsc, IsMpsc}
use omp_relayd.Relay.Registry.{Bytes, ServerState}
use omp_relayd.Relay.Replies.{break}
use omp_relayd.Relay.Handlers.{RegisteredPeer}
use omp_relayd.Relay.Answers.{IsReady, IsAnswer, queue_diagnostic-IsDiagnosed}
use omp_relayd.Relay.Conduct.{handle_frame-IsAnswer}
use omp_relayd.Relay.Admission.{arrived, decode_error_text, handle_inbound}

module _ {E Queue Chan : Type 0} (deserialize : List ℕ → Result (ClientFrame × ℕ) E)
    (show_error : E → Text) (show_char : ℕ → Text) (r : Mpsc ServerFrame Queue) (law : IsMpsc r)
    (q : Mpsc Bytes Chan) (encode : ServerFrame → Option Bytes) where
  -- Each payload, on a reply queue that is open and has the slot of the closing diagnostic, either
  -- leaves the connection going with that slot free, or closes it with a diagnostic queued and the
  -- state as it was. The idle deadline is put off by the idle time if the payload decodes to a
  -- frame; if it does not, the deadline stays and the connection closes.
  pub handle_inbound-IsAnswer :
      (replies : Queue) (s : ServerState Chan) (registered : RegisteredPeer) (payload : Bytes)
      (deadline now : ℕ)
      → IsReady r replies
      → let (after, deadline') =
          handle_inbound deserialize show_error show_char r q encode replies s registered
            (arrived payload)
            deadline
            now in
        IsAnswer r replies s after
        × (((frame : ClientFrame) × (decode deserialize payload ≡ ok frame)
              × (deadline' ≡ now + s.deadlines.idle))
            ⊎ ((e : DecodeError E) × (decode deserialize payload ≡ err e)
                × (deadline' ≡ deadline)
                × (after.flow ≡ break)))
  unfolding handle_inbound
  handle_inbound-IsAnswer replies s registered payload deadline now ready =
      elim (Result-cases (decode deserialize payload)) [
        | inl (frame, e) ↦
            rw (e, handle_inbound)
              (
                handle_frame-IsAnswer r law replies s ready q encode show_char registered now frame,
                inl (frame, refl, refl),
              )
        | inr (e, f) ↦
            rw (f, handle_inbound)
              (
                inr (
                  refl,
                  refl,
                  queue_diagnostic-IsDiagnosed r law replies malformed_frame
                      (decode_error_text show_error e) ready,
                ),
                inr (e, refl, refl, refl),
              )
      ]
