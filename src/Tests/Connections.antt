-- ===== src/Tests/Connections.antt =====
-- Connections of server/src/relay.rs on concrete runs.
use omp_relayd.Base.{
  text-discrete, ℕ_discrete, ℕ, ◌≡◌, ◌≢◌, refl, some, none, List, [], ◌∷◌, map, arith, Result, ok,
  true, false, text_eq,
}
use omp_relayd.Base.Text.{codes}
use omp_relayd.Base.Map.{get, insert, remove}
use omp_relayd.Protocol.Limits.{Text, RoomId, RoomId-discrete, room_id_eq}
use omp_relayd.Protocol.Frames.{ClientFrame, ServerFrame, hello, ping, pong}
use omp_relayd.Relay.Registry.{
  Bytes, PeerHandle, ServerState, default_deadlines, with_deadlines, register, deregister,
  handle_at,
}
use omp_relayd.Relay.Handlers.{RegisteredPeer}
use omp_relayd.Relay.Admission.{Admission, hung_up}
use omp_relayd.Relay.Writer.{
  Inbox, delivered, interrupted, close_replaced, arrives, turns, done, frame, run_writer,
}
use omp_relayd.Relay.Written.{run_writer-interrupted, ending, run_writer-drained}
use omp_relayd.Relay.Reader.{Happening, waited, reads, meanwhile}
use omp_relayd.Relay.Connection.{run_connection, register_peer, drop_registered}
use omp_relayd.Relay.Departures.{run_connection-gone}
use omp_relayd.Relay.Server.{ServerEvent, joins, frames, leaves, start_server, serve_events}
use omp_relayd.Relay.Leases.{IsLeased, serve_events-IsLeased}
use omp_relayd.Tests.Queues.{Fifo, fifo, fifo-IsMpsc, empty_queue}

abbrev backlog : Inbox
backlog = record {
  replies = pong ∷ [];
  replies_closed = false;
  outbound = (7 ∷ []) ∷ [];
  outbound_closed = false;
  evicted = false;
}

run_writer-interrupted_test :
    run_writer backlog (turns (interrupted true) true ∷ [])
    ≡ (frame pong ∷ close_replaced true, none)
run_writer-interrupted_test = run_writer-interrupted true [] pong [] backlog true refl refl

run_writer-drained_example :
    run_writer
      (ending (pong ∷ []) ((7 ∷ []) ∷ []) false)
      (turns done true ∷ arrives (delivered []) ∷ turns done true ∷ [])
    ≡ (map frame (pong ∷ []), none)
run_writer-drained_example =
    run_writer-drained (pong ∷ []) ((7 ∷ []) ∷ []) false
      (turns done true ∷ arrives (delivered []) ∷ turns done true ∷ []) (tt, (tt, (tt, tt)))
      (ground arith)

abbrev room : RoomId
room = record { project = codes "omp"; task = codes "main" }

abbrev alice : Text
alice = codes "alice"

abbrev greet : List ℕ → Result (ClientFrame × ℕ) Text
greet bytes = ok (hello 1 room alice, 1)

abbrev plain_text : Text → Text
plain_text s = s

abbrev nobody : ServerState (Fifo Bytes)
nobody = with_deadlines default_deadlines

abbrev guard : RegisteredPeer
guard = record { room = room; peer = alice; connection_id = 1 }

abbrev course : List (Happening (Fifo ServerFrame) (Fifo Bytes))
course = waited 3 ∷ meanwhile nobody (λ replies. replies) ∷ reads hung_up 4 ∷ waited 12 ∷ []

abbrev welcome : Admission
welcome = record { admitted = some (room, alice); written = none }

-- While the connection runs, another one registers its name.
abbrev taken_over : RegisteredPeer → ServerState (Fifo Bytes) → ServerState (Fifo Bytes)
taken_over registered s = (register s room alice (empty_queue 1)).1

abbrev taker : PeerHandle (Fifo Bytes)
taker = record { connection_id = 2; outbound = empty_queue 1 }

taken :
    handle_at (run_connection nobody welcome (empty_queue 2) true taken_over) room alice
    ≡ some taker
unfolding run_connection register_peer drop_registered handle_at register deregister with_deadlines
    get insert remove text-discrete RoomId-discrete ℕ_discrete
taken = refl

run_connection-gone_example : 2 ≢ nobody.next_connection_id
run_connection-gone_example =
    run_connection-gone nobody welcome room alice (empty_queue 2) true taken_over taker refl taken

-- Two connections of one name; the older one ends.
abbrev visits : List (ServerEvent (Fifo ServerFrame) (Fifo Bytes))
visits =
    joins room alice (empty_queue 2)
    ∷ joins room alice (empty_queue 2)
    ∷ frames 0 (empty_queue 3) 5 ping
    ∷ leaves 1
    ∷ []

serve_events-IsLeased_example :
    IsLeased
      (serve_events fifo fifo (λ frame. none) (λ c. c ∷ []) (start_server default_deadlines) visits)
serve_events-IsLeased_example =
    serve_events-IsLeased fifo fifo-IsMpsc fifo (λ frame. none) (λ c. c ∷ []) default_deadlines
      visits
