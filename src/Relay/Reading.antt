-- ===== src/Relay/Reading.antt =====
-- The reading side of a connection of server/src/relay.rs keeps the slot of its closing diagnostic.
use omp_relayd.Base.{◌+◌, ◌<◌, ◌≤◌, ◌++◌, none, some, ℕ, ◌≡◌, ◌⊎◌, List, [], ◌∷◌, Option, Result}
use omp_relayd.Base.Text.{codes}
use omp_relayd.Protocol.Limits.{Text}
use omp_relayd.Protocol.Frames.{ClientFrame, ServerFrame, ErrorCode, idle_timeout}
use omp_relayd.Relay.Channel.{Mpsc, IsMpsc}
use omp_relayd.Relay.Registry.{Bytes, ServerState}
use omp_relayd.Relay.Replies.{Flow, continue, break}
use omp_relayd.Relay.Handlers.{RegisteredPeer, Outcome}
use omp_relayd.Relay.Answers.{IsReady, IsDiagnosed}
use omp_relayd.Relay.Admission.{hung_up, failed, arrived, framing_error_code, closing}
use omp_relayd.Relay.Reader.{
  Happening, shutdown_signalled, superseded, waited, reads, meanwhile, run_reader,
}

abbrev IsContinue : Flow → Type 0
IsContinue continue = Unit {0}
IsContinue break = ⊥

module _ {E Queue Chan : Type 0} (deserialize : List ℕ → Result (ClientFrame × ℕ) E)
    (show_error : E → Text) (show_char show_duration : ℕ → Text) (r : Mpsc ServerFrame Queue)
    (law : IsMpsc r) (q : Mpsc Bytes Chan) (encode : ServerFrame → Option Bytes) where
  open r use {queued}

  -- The diagnostic of a framing error, if it has one.
  abbrev pub IsFramed : Option ErrorCode → Text → Queue → Queue → Type 0
  IsFramed none text before after = queued after ≡ queued before
  IsFramed (some code) text before after = queued after ≡ queued before ++ (closing code text ∷ [])

  -- What the last happening of a reader that returns has queued, which had the first queue.
  abbrev pub IsTold : ServerState Chan → Happening Queue Chan → Queue → Queue → Type 0
  IsTold s shutdown_signalled before after = queued after ≡ queued before
  IsTold s superseded before after = queued after ≡ queued before
  IsTold s (waited now) before after =
      queued after
      ≡ queued before
        ++ (closing idle_timeout (codes "no frame within " ++ show_duration s.deadlines.idle) ∷ [])
  IsTold s (reads hung_up now) before after = queued after ≡ queued before
  IsTold s (reads (failed e) now) before after = IsFramed (framing_error_code e) e.text before after
  IsTold s (reads (arrived payload) now) before after = IsDiagnosed r before after
  IsTold s (meanwhile s' takes) before after = ⊥

  -- What a reader with such a deadline goes on after: no flag, no end of what it reads, no failure
  -- to read it, and no time past its deadline, which a frame sets anew, some time after it.
  abbrev pub IsOpen : ℕ → List (Happening Queue Chan) → Type 0
  IsOpen deadline [] = Unit {0}
  IsOpen deadline (shutdown_signalled ∷ later) = ⊥
  IsOpen deadline (superseded ∷ later) = ⊥
  IsOpen deadline (waited now ∷ later) = (now < deadline) × IsOpen deadline later
  IsOpen deadline (reads hung_up now ∷ later) = ⊥
  IsOpen deadline (reads (failed e) now ∷ later) = ⊥
  IsOpen deadline (reads (arrived payload) now ∷ later) = (idle : ℕ) × IsOpen (now + idle) later
  IsOpen deadline (meanwhile s takes ∷ later) = IsOpen deadline later

  -- The writer takes frames from the reply queue, which frees slots.
  abbrev pub IsMild : Happening Queue Chan → Type 0
  IsMild shutdown_signalled = Unit {0}
  IsMild superseded = Unit {0}
  IsMild (waited now) = Unit {0}
  IsMild (reads inbound now) = Unit {0}
  IsMild (meanwhile s takes) =
      (replies : Queue)
      → (r.is_closed (takes replies) ≡ r.is_closed replies)
        × (r.capacity replies ≤ r.capacity (takes replies))

  module _ (registered : RegisteredPeer) where
    abbrev pub reading :
        Queue → ServerState Chan → ℕ → List (Happening Queue Chan) → Outcome Queue Chan
    reading replies s deadline happenings =
        run_reader deserialize show_error show_char show_duration r q encode replies s registered
          deadline happenings

    -- The reader still waits, with the slot of the diagnostic free; or one happening has made it
    -- return: it waited until then with that slot free, and has queued what that happening asks for.
    abbrev pub IsKept : Queue → ServerState Chan → ℕ → List (Happening Queue Chan) → Type 0
    IsKept replies s deadline happenings =
        let after = reading replies s deadline happenings in
        ((after.flow ≡ continue) × IsReady r after.replies × IsOpen deadline happenings)
        ⊎ ((after.flow ≡ break)
            × ((earlier later : List (Happening Queue Chan)) × (last : Happening Queue Chan)
                × (happenings ≡ earlier ++ last ∷ later)
                × IsOpen deadline earlier
                × let before = reading replies s deadline earlier in
                  (before.flow ≡ continue)
                  × IsReady r before.replies
                  × IsTold before.state last before.replies after.replies))
