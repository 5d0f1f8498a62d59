-- ===== src/Relay/Writer.antt =====
-- `run_writer` of server/src/relay.rs: which frames a connection writes, in which order.
use omp_relayd.Base.{Bool, true, false, List, [], ◌∷◌, ◌++◌, Option, none, some}
use omp_relayd.Base.Text.{codes}
use omp_relayd.Protocol.Frames.{ServerFrame, peer_replaced}
use omp_relayd.Relay.Registry.{Bytes}
use omp_relayd.Relay.Admission.{closing}

-- What the writer waits for: the reply queue and the outbound queue, each of which may be closed,
-- and the eviction flag.
pub record Inbox : Type 0 where
  pub replies : List ServerFrame
  pub replies_closed : Bool
  pub outbound : List Bytes
  pub outbound_closed : Bool
  pub evicted : Bool

-- What the other tasks do meanwhile.
pub data Arrival : Type 0 where
  replied : ServerFrame → Arrival
  reader_done : Arrival
  delivered : Bytes → Arrival
  entry_dropped superseded : Arrival

unfoldable pub arrive : Inbox → Arrival → Inbox
arrive inbox (replied frame) = record inbox { replies = inbox.replies ++ frame ∷ [] }
arrive inbox reader_done = record inbox { replies_closed = true }
arrive inbox (delivered payload) = record inbox { outbound = inbox.outbound ++ payload ∷ [] }
arrive inbox entry_dropped = record inbox { outbound_closed = true }
arrive inbox superseded = record inbox { evicted = true }

-- How a write that is raced against the eviction ends. What is interrupted may already stand in the
-- buffer, which is flushed before the diagnostic.
pub data Write : Type 0 where
  done failed : Write
  interrupted : Bool → Write

-- What goes to the socket.
pub data Wire : Type 0 where
  frame : ServerFrame → Wire
  payload : Bytes → Wire

-- A turn of the loop: nothing is ready, the loop goes on, or the writer returns.
pub data Turn : Type 0 where
  pending : Turn
  continues returns : List Wire → Inbox → Turn

abbrev pub replaced : Wire
replaced = frame (closing peer_replaced (codes "a newer connection registered this peer name"))

-- `close_with` for the eviction: the diagnostic, if its write ends well within the timeout, as
-- `sent` says; if not, nothing is done about it.
unfoldable pub close_replaced : Bool → List Wire
close_replaced true = replaced ∷ []
close_replaced false = []

unfoldable pub raced : Write → Bool → Wire → Inbox → Turn
unfolding close_replaced
raced done sent wire rest = continues (wire ∷ []) rest
raced failed sent wire rest = returns [] rest
raced (interrupted false) sent wire rest = returns (close_replaced sent) rest
raced (interrupted true) sent wire rest = returns (wire ∷ close_replaced sent) rest

-- The arm of the outbound queue.
unfoldable pub take_delivery : Inbox → Write → Bool → Turn
unfolding raced
take_delivery inbox outcome sent = elim inbox.outbound [
  | payload_next ∷ rest ↦
      raced outcome sent (payload payload_next) (record inbox { outbound = rest })
  | [] ↦ elim inbox.outbound_closed [ true ↦ returns [] inbox | false ↦ pending ]
]

-- The arm of the reply queue.
unfoldable pub take_reply : Inbox → Write → Bool → Turn
unfolding raced take_delivery
take_reply inbox outcome sent = elim inbox.replies [
  | reply ∷ rest ↦ raced outcome sent (frame reply) (record inbox { replies = rest })
  | [] ↦ elim inbox.replies_closed [
    | true ↦ returns [] inbox
    | false ↦ take_delivery inbox outcome sent
  ]
]

-- The biased select.
unfoldable pub turn : Inbox → Write → Bool → Turn
unfolding take_reply
turn inbox outcome sent = elim inbox.evicted [
  | true ↦ returns (close_replaced sent) inbox
  | false ↦ take_reply inbox outcome sent
]

-- What happens until the next turn: what arrives, or the turn, by how its write ends and by
-- whether a diagnostic that it closes with would be sent in time.
pub data Moment : Type 0 where
  arrives : Arrival → Moment
  turns : Write → Bool → Moment

-- What is written, and the inbox of a writer that still runs.
unfoldable pub run_writer : Inbox → List Moment → List Wire × Option Inbox
unfolding arrive turn
run_writer inbox [] = ([], some inbox)
run_writer inbox (arrives arrival ∷ later) = run_writer (arrive inbox arrival) later
run_writer inbox (turns outcome sent ∷ later) = elim (turn inbox outcome sent) [
  | pending ↦ run_writer inbox later
  | returns wires rest ↦ (wires, none)
  | continues wires rest ↦ let (more, end) = run_writer rest later in (wires ++ more, end)
]
