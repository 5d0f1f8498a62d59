-- ===== src/Tests/Peers.antt =====
-- The registry of server/src/relay.rs on concrete rooms.
use omp_relayd.Base.{
  text-discrete, ℕ_discrete, ◌+◌, ◌≤◌, ◌<◌, ◌≡◌, refl, some, Option, [], ◌∷◌, ◌++◌, arith, length,
  text_eq, if◌then◌else◌, ite, false, true, equals,
}
use omp_relayd.Base.Text.{codes}
use omp_relayd.Base.Map.{get, insert}
use omp_relayd.Base.Map.Sums.{on_value}
use omp_relayd.Protocol.Limits.{Text, RoomId, RoomId-discrete, room_id_eq, max_frame_bytes}
use omp_relayd.Protocol.Frames.{ServerFrame, pong, routed}
use omp_relayd.Relay.Registry.{
  Bytes, PeerHandle, ServerState, default_deadlines, with_deadlines, register, deregister,
  handle_at, or_no_peers, fanout, route, enqueue, encode_delivery, set_outbound, status,
}
use omp_relayd.Relay.Membership.{IsRegistry, register-IsRegistry, deregister-IsRegistry}
use omp_relayd.Relay.Takeover.{handle_at-register, deregister-register, deregister-IsLeft, IsLeft}
use omp_relayd.Relay.Delivery.{others, announced, fanout_counts, fanout_queues, route_routed}
use omp_relayd.Tests.Queues.{Fifo, fifo, fifo-IsMpsc, empty_queue}

abbrev room : RoomId
room = record { project = codes "omp"; task = codes "main" }

abbrev alice : Text
alice = codes "alice"

abbrev bob : Text
bob = codes "bob"

abbrev nobody : ServerState (Fifo Bytes)
nobody = with_deadlines default_deadlines

nobody-IsRegistry : IsRegistry nobody
unfolding with_deadlines
nobody-IsRegistry = record { rooms_uniq = tt; all_peers = tt }

-- Alice alone in the room, as connection 1.
abbrev alone : ServerState (Fifo Bytes)
alone = (register nobody room alice (empty_queue 2)).1

abbrev alice_handle : PeerHandle (Fifo Bytes)
alice_handle = record { connection_id = 1; outbound = empty_queue 2 }

alone-alice : handle_at alone room alice ≡ some alice_handle
unfolding handle_at register with_deadlines get insert text-discrete RoomId-discrete ℕ_discrete
alone-alice = refl

alone-IsRegistry : IsRegistry alone
alone-IsRegistry =
    register-IsRegistry nobody room alice (empty_queue 2) nobody-IsRegistry
      (unfold with_deadlines in ground arith)

register-IsRegistry_test : IsRegistry (register alone room bob (empty_queue 2)).1
register-IsRegistry_test =
    register-IsRegistry alone room bob (empty_queue 2) alone-IsRegistry
      (unfold register with_deadlines in ground arith)

deregister-IsRegistry_test : IsRegistry (deregister alone room alice 1).1
deregister-IsRegistry_test = deregister-IsRegistry alone room alice 1 alone-IsRegistry

handle_at-register_test :
    handle_at (register alone room bob (empty_queue 3)).1 room alice
    ≡ ite
        (room_id_eq.dec room room)
        (ite
          (text_eq.dec bob alice)
          (some (record { connection_id = alone.next_connection_id; outbound = empty_queue 3 }))
          (handle_at alone room alice))
        (handle_at alone room alice)
handle_at-register_test = handle_at-register alone room room bob alice (empty_queue 3)

abbrev replaced : ServerState (Fifo Bytes)
replaced = (register alone room alice (empty_queue 4)).1

deregister-register_example :
    ((register alone room alice (empty_queue 4)).0.superseded ≡ some 1)
    × (replaced.evicted ≡ 1 ∷ alone.evicted)
    × (deregister replaced room alice 1 ≡ (false, replaced))
deregister-register_example =
    deregister-register alone room alice (empty_queue 4) alice_handle alone-IsRegistry alone-alice

deregister-IsLeft_example :
    ((deregister alone room alice 1).0 ≡ true)
    × IsLeft alone room alice (deregister alone room alice 1).1
deregister-IsLeft_example = deregister-IsLeft alone room alice alice_handle alone-alice

abbrev payload : Bytes
payload = 0x80 ∷ []

fanout_counts_test :
    (fanout fifo alone room bob payload).0.delivered + (fanout fifo alone room bob payload).0.shed
    ≡ others bob (or_no_peers (get room alone.rooms))
fanout_counts_test = fanout_counts fifo alone room bob payload few
  where
    few : length (or_no_peers (get room alone.rooms)) < 4294967296
    few = unfold register with_deadlines get insert in ground arith

fanout_queues_example : handle_at (fanout fifo alone room bob payload).1 room alice ≡ (
    if equals room room
    then on_value (announced fifo bob payload alice) (handle_at alone room alice)
    else handle_at alone room alice)
fanout_queues_example = fanout_queues fifo alone room room bob alice payload

abbrev encode_empty : ServerFrame → Option Bytes
encode_empty frame = some payload

pong_routed : (route fifo encode_empty alone room alice pong).0 ≡ status routed
unfolding route enqueue set_outbound encode_delivery handle_at register with_deadlines get insert
    text-discrete RoomId-discrete ℕ_discrete
pong_routed = refl

route_routed_example :
    (sent : Bytes) × (handle : PeerHandle (Fifo Bytes)) × (outbound : Fifo Bytes) × (encode_empty
        pong
      ≡ some sent)
    × (length sent ≤ max_frame_bytes)
    × (handle_at alone room alice ≡ some handle)
    × (handle_at (route fifo encode_empty alone room alice pong).1 room alice
        ≡ some (record handle { outbound = outbound }))
    × (outbound.items ≡ handle.outbound.items ++ (sent ∷ []))
route_routed_example = route_routed fifo fifo-IsMpsc encode_empty alone room alice pong pong_routed
