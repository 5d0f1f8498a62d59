-- ===== src/Relay/Registry.antt =====
-- `ServerState` of server/src/relay.rs: who is registered where, and what is queued for whom.
use omp_relayd.Base.{
  ℕ, ◌+◌, ◌*◌, Bool, true, false, ltb, leb, ◌==◌, if◌then◌else◌, equals, List, [], ◌∷◌, map, length,
  is_empty, Option, none, some, text_eq,
}
use omp_relayd.Base.Map.{Map, get, insert, remove}
use omp_relayd.Protocol.Limits.{Text, RoomId, room_id_eq, max_frame_bytes, add64, wrap32}
use omp_relayd.Protocol.Frames.{
  ServerFrame, ReceiptStatus, routed, peer_offline, recipient_backpressure,
}
use omp_relayd.Blob.Types.{Store, second}
use omp_relayd.Blob.Expiry.{forget_room}
use omp_relayd.Relay.Channel.{Mpsc, Sent, sent, full, closed}

abbrev pub Bytes : Type 0
Bytes = List ℕ

abbrev pub outbound_queue_capacity : ℕ
outbound_queue_capacity = 128

abbrev pub hello_deadline : ℕ
hello_deadline = 5 * second

abbrev pub idle_deadline : ℕ
idle_deadline = 90 * second

pub record Deadlines : Type 0 where
  pub hello : ℕ
  pub idle : ℕ

abbrev pub default_deadlines : Deadlines
default_deadlines = record { hello = hello_deadline; idle = idle_deadline }

pub record PeerHandle (Chan : Type 0) : Type 0 where
  pub connection_id : ℕ
  pub outbound : Chan

pub record Registration : Type 0 where
  pub connection_id : ℕ
  pub superseded : Option ℕ

abbrev pub Peers : Type 0 → Type 0
Peers Chan = Map Text (PeerHandle Chan)

abbrev pub Rooms : Type 0 → Type 0
Rooms Chan = Map RoomId (Peers Chan)

pub data Routed : Type 0 where
  status : ReceiptStatus → Routed
  unwritable : Routed

pub record Fanout : Type 0 where
  pub delivered : ℕ
  pub shed : ℕ

-- `evicted` lists the connections whose `evict` flag has been set.
pub record ServerState (Chan : Type 0) : Type 0 where
  pub rooms : Rooms Chan
  pub next_connection_id : ℕ
  pub deadlines : Deadlines
  pub blobs : Option Store
  pub evicted : List ℕ

abbrev pub or_no_peers : {Chan : Type 0} → Option (Peers Chan) → Peers Chan
or_no_peers none = []
or_no_peers (some peers) = peers

-- `str` ordering: bytewise, which for UTF-8 is the order of the code points.
unfoldable pub text_leb : Text → Text → Bool
text_leb [] t = true
text_leb (c ∷ s) [] = false
text_leb (c ∷ s) (d ∷ t) = if c == d then text_leb s t else ltb c d

unfoldable pub insert_sorted : Text → List Text → List Text
insert_sorted s [] = s ∷ []
insert_sorted s (t ∷ ts) = if text_leb s t then s ∷ t ∷ ts else t ∷ insert_sorted s ts

-- `sort_unstable`: equal texts cannot be told apart, so any sort gives this list.
unfoldable pub sort : List Text → List Text
unfolding insert_sorted
sort [] = []
sort (s ∷ ss) = insert_sorted s (sort ss)

-- The blobs after a room has lost its last peer.
abbrev pub forget_blobs : RoomId → Option Store → Option Store
forget_blobs room none = none
forget_blobs room (some blobs) = some (forget_room blobs room)

module _ {Chan : Type 0} where
  unfoldable pub with_deadlines : Deadlines → ServerState Chan
  with_deadlines deadlines = record {
    rooms = [];
    next_connection_id = 1;
    deadlines = deadlines;
    blobs = none;
    evicted = [];
  }

  -- The superseded connection, and the list of the evicted with it.
  abbrev pub supersede : Option (PeerHandle Chan) → List ℕ → Option ℕ × List ℕ
  supersede none evicted = (none, evicted)
  supersede (some previous) evicted =
      (some previous.connection_id, previous.connection_id ∷ evicted)

  unfoldable pub register :
      ServerState Chan → RoomId → Text → Chan → Registration × ServerState Chan
  register s room peer outbound =
      let id = s.next_connection_id in
      let peers = or_no_peers (get room s.rooms) in
      let (superseded, evicted) = supersede (get peer peers) s.evicted in
      (
        record { connection_id = id; superseded = superseded },
        record s {
          rooms =
              insert room (insert peer (record { connection_id = id; outbound = outbound }) peers)
                s.rooms;
          next_connection_id = add64 id 1;
          evicted = evicted;
        },
      )

  -- `deregister` once the entry is known to be the caller's.
  unfoldable pub drop_peer : ServerState Chan → RoomId → Text → Peers Chan → ServerState Chan
  drop_peer s room peer peers =
      let left = remove peer peers in
      if is_empty left
      then record s { rooms = remove room s.rooms; blobs = forget_blobs room s.blobs }
      else record s { rooms = insert room left s.rooms }

  abbrev pub is_registered : Option (PeerHandle Chan) → ℕ → Bool
  is_registered none connection_id = false
  is_registered (some handle) connection_id = handle.connection_id == connection_id

  unfoldable pub deregister : ServerState Chan → RoomId → Text → ℕ → Bool × ServerState Chan
  unfolding drop_peer
  deregister s room peer connection_id = elim (get room s.rooms) [
    | none ↦ (false, s)
    | some peers ↦
        if is_registered (get peer peers) connection_id
        then (true, drop_peer s room peer peers)
        else (false, s)
  ]

  unfoldable pub list_peers : ServerState Chan → RoomId → List Text
  unfolding sort
  list_peers s room = sort (map (λ entry. entry.0) (or_no_peers (get room s.rooms)))

  -- The queue of a peer.
  unfoldable pub handle_at : ServerState Chan → RoomId → Text → Option (PeerHandle Chan)
  handle_at s room peer = get peer (or_no_peers (get room s.rooms))

  -- The state after a peer's queue has changed.
  unfoldable pub set_outbound :
      ServerState Chan → RoomId → Text → PeerHandle Chan → Chan → ServerState Chan
  set_outbound s room peer handle outbound =
      let peers = or_no_peers (get room s.rooms) in
      record s {
        rooms = insert room (insert peer (record handle { outbound = outbound }) peers) s.rooms;
      }

abbrev pub status_of : Sent → ReceiptStatus
status_of sent = routed
status_of full = recipient_backpressure
status_of closed = peer_offline

module _ (encode : ServerFrame → Option Bytes) where
  -- `encode_delivery`; `none` from `encode` is an encoding error.
  unfoldable pub encode_delivery : ServerFrame → Option Bytes
  encode_delivery frame = elim (encode frame) [
    | none ↦ none
    | some payload ↦ if leb (length payload) max_frame_bytes then some payload else none
  ]

unfoldable pub count_status : ReceiptStatus → Fanout → Fanout
count_status routed counts = record counts { delivered = wrap32 (counts.delivered + 1) }
count_status _ counts = record counts { shed = wrap32 (counts.shed + 1) }

module _ {Chan : Type 0} (q : Mpsc Bytes Chan) where
  unfoldable pub enqueue : Chan → Bytes → ReceiptStatus × Chan
  enqueue outbound payload =
      let (answer, outbound') = q.try_send payload outbound in (status_of answer, outbound')

  -- `fanout` over the peers of a room: the counts, and the peers with their queues.
  unfoldable pub fanout_peers : Text → Bytes → Peers Chan → Fanout × Peers Chan
  unfolding enqueue count_status
  fanout_peers announcer payload [] = (record { delivered = 0; shed = 0 }, [])
  fanout_peers announcer payload ((name, handle) ∷ peers) =
      let (counts, peers') = fanout_peers announcer payload peers in
      let (answer, outbound) = enqueue handle.outbound payload in
      if equals name announcer
      then (counts, (name, handle) ∷ peers')
      else (count_status answer counts, (name, record handle { outbound = outbound }) ∷ peers')

  unfoldable pub fanout : ServerState Chan → RoomId → Text → Bytes → Fanout × ServerState Chan
  unfolding fanout_peers
  fanout s room announcer payload = elim (get room s.rooms) [
    | none ↦ (record { delivered = 0; shed = 0 }, s)
    | some peers ↦
        let (counts, peers') = fanout_peers announcer payload peers in
        (counts, record s { rooms = insert room peers' s.rooms })
  ]

  unfoldable pub route :
      (ServerFrame → Option Bytes)
      → ServerState Chan
      → RoomId
      → Text
      → ServerFrame
      → Routed × ServerState Chan
  unfolding enqueue set_outbound handle_at encode_delivery
  route encode s room to frame = elim (handle_at s room to) [
    | none ↦ (status peer_offline, s)
    | some handle ↦ elim (encode_delivery encode frame) [
      | none ↦ (unwritable, s)
      | some payload ↦
          let (answer, outbound) = enqueue handle.outbound payload in
          (status answer, set_outbound s room to handle outbound)
    ]
  ]
