-- ===== src/Tests/Reads.antt =====
-- Reads and listings of server/src/relay.rs on concrete inputs.
use omp_relayd.Base.{
  ℕ, ◌+◌, ◌≡◌, ◌↔◌, ◌⊎◌, refl, some, none, Option, List, [], ◌∷◌, map, arith, Result, ok, err,
  text_eq,
}
use omp_relayd.Base.Text.{codes}
use omp_relayd.Base.Map.{get}
use omp_relayd.Protocol.Limits.{Text, RoomId, room_id_eq}
use omp_relayd.Protocol.Frames.{ClientFrame, ServerFrame, hello, DecodeError, decode}
use omp_relayd.Relay.Registry.{Bytes, ServerState, default_deadlines, list_peers, or_no_peers}
use omp_relayd.Relay.Replies.{break}
use omp_relayd.Relay.Handlers.{RegisteredPeer}
use omp_relayd.Relay.Answers.{IsAnswer}
use omp_relayd.Relay.Admission.{admit, read, arrived, handle_inbound}
use omp_relayd.Relay.Admitted.{admit_iff, IsHello}
use omp_relayd.Relay.Reads.{handle_inbound-IsAnswer}
use omp_relayd.Relay.Listing.{list_peers-IsSorted, IsSorted, occurrences}
use omp_relayd.Tests.Queues.{Fifo, fifo, fifo-IsMpsc, empty_queue}

abbrev room : RoomId
room = record { project = codes "omp"; task = codes "main" }

abbrev alice : RegisteredPeer
alice = record { room = room; peer = codes "alice"; connection_id = 1 }

-- A decoder that takes every map of one byte for a hello of alice.
abbrev greet : List ℕ → Result (ClientFrame × ℕ) Text
greet bytes = ok (hello 1 room (codes "alice"), 1)

abbrev same_text : Text → Text
same_text s = s

abbrev show_char : ℕ → Text
show_char c = c ∷ []

abbrev payload : Bytes
payload = 0x80 ∷ []

admit_iff_example :
    ((admit greet same_text show_char
        (codes "no hello within 5s")
        (read (arrived payload))).admitted
      ≡ some (room, codes "alice"))
    ↔ IsHello greet same_text show_char (arrived payload) room (codes "alice")
admit_iff_example =
    admit_iff greet same_text show_char (codes "no hello within 5s") (arrived payload) room
      (codes "alice")

-- A room of bob and alice.
abbrev shared : ServerState (Fifo Bytes)
shared = record {
  rooms =
      (
        room,
        (codes "bob", record { connection_id = 2; outbound = empty_queue 1 })
            ∷ (codes "alice", record { connection_id = 1; outbound = empty_queue 1 })
            ∷ [],
      )
      ∷ [];
  next_connection_id = 3;
  deadlines = default_deadlines;
  blobs = none;
  evicted = [];
}

abbrev encode_empty : ServerFrame → Option Bytes
encode_empty frame = some payload

abbrev replies : Fifo ServerFrame
replies = empty_queue 3

handle_inbound-IsAnswer_example :
    let (after, deadline) =
      handle_inbound greet same_text show_char fifo fifo encode_empty replies shared alice
        (arrived payload)
        7
        5 in
    IsAnswer fifo replies shared after
    × (((frame : ClientFrame) × (decode greet payload ≡ ok frame)
          × (deadline ≡ 5 + shared.deadlines.idle))
        ⊎ ((e : DecodeError Text) × (decode greet payload ≡ err e)
            × (deadline ≡ 7)
            × (after.flow ≡ break)))
handle_inbound-IsAnswer_example =
    handle_inbound-IsAnswer greet same_text show_char fifo fifo-IsMpsc fifo encode_empty replies
      shared alice payload 7 5 (refl, ground arith)

list_peers-IsSorted_example :
    IsSorted (list_peers shared room)
    × ((name : Text)
        → occurrences name (list_peers shared room)
          ≡ occurrences name (map (λ entry. entry.0) (or_no_peers (get room shared.rooms))))
list_peers-IsSorted_example = list_peers-IsSorted shared room
