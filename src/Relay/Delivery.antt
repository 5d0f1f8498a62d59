-- ===== src/Relay/Delivery.antt =====
-- What `fanout`, `route` and `list_peers` of server/src/relay.rs deliver and report.
use omp_relayd.Base.{
  ℕ, ◌+◌, ◌≤◌, ◌<◌, ◌≡◌, refl, subst, inl, inr, some, Option, Option-cases, Bool-cases, [], ◌∷◌,
  arith, text_eq, if◌then◌else◌, equals, ◌++◌, length, leb,
}
use omp_relayd.Base.Map.{get, insert, get-insert, get-insert_self}
use omp_relayd.Base.Map.Sums.{on_value}
use omp_relayd.Protocol.Limits.{Text, RoomId, room_id_eq, max_frame_bytes}
use omp_relayd.Protocol.Frames.{ServerFrame, routed}
use omp_relayd.Relay.Channel.{Mpsc, IsMpsc, sent}
use omp_relayd.Relay.Registry.{
  Bytes, PeerHandle, Peers, ServerState, or_no_peers, handle_at, status, fanout_peers, fanout,
  route, set_outbound,
}

-- The peers that an announcement addresses.
pub others : {Chan : Type 0} → Text → Peers Chan → ℕ
others announcer [] = 0
others announcer ((name, handle) ∷ peers) =
    if equals name announcer then others announcer peers else others announcer peers + 1

others-le :
    {Chan : Type 0} (announcer : Text) (peers : Peers Chan) → others announcer peers ≤ length peers
unfolding others
others-le announcer [] = omega arith
others-le announcer ((name, handle) ∷ peers) = ground (arith, others-le announcer peers)

module _ {Chan : Type 0} (q : Mpsc Bytes Chan) where
  fanout_peers-count :
      (announcer : Text) (payload : Bytes) (peers : Peers Chan)
      → length peers < 4294967296
      → let counts = (fanout_peers q announcer payload peers).0 in
        counts.delivered + counts.shed ≡ others announcer peers
  unfolding fanout_peers others
  fanout_peers-count announcer payload [] h = refl
  fanout_peers-count announcer payload ((name, handle) ∷ peers) h =
      ground
        (arith, fanout_peers-count announcer payload peers (omega arith), others-le announcer peers)

  -- Every peer that an announcement addresses is counted once, as delivered or as shed, in a room
  -- of fewer than 2^32 peers.
  pub fanout_counts :
      (s : ServerState Chan) (room : RoomId) (announcer : Text) (payload : Bytes)
      → length (or_no_peers (get room s.rooms)) < 4294967296
      → let counts = (fanout q s room announcer payload).0 in
        counts.delivered + counts.shed ≡ others announcer (or_no_peers (get room s.rooms))
  unfolding fanout others
  fanout_counts s room announcer payload h = elim (Option-cases (get room s.rooms)) [
    | inl missing ↦ rw (missing, fanout) refl
    | inr (peers, e) ↦
        rw (e, fanout)
          (fanout_peers-count announcer payload peers
            (subst (λ o. length (or_no_peers o) < 4294967296) e h))
  ]

  -- What the announcement does to one peer's queue.
  abbrev pub announced : Text → Bytes → Text → PeerHandle Chan → PeerHandle Chan
  announced announcer payload name handle =
      if equals name announcer
      then handle
      else record handle { outbound = (q.try_send payload handle.outbound).1 }

  get-fanout_peers :
      (announcer : Text) (payload : Bytes) (name : Text) (peers : Peers Chan)
      → get name (fanout_peers q announcer payload peers).1
        ≡ on_value (announced announcer payload name) (get name peers)
  unfolding fanout_peers get
  get-fanout_peers announcer payload name [] = refl
  get-fanout_peers announcer payload name ((n, handle) ∷ peers) =
      ground (arith, get-fanout_peers announcer payload name peers)

  -- An announcement offers the payload once to every other peer of the room; the announcer's own
  -- queue and the other rooms stay as they were.
  pub fanout_queues :
      (s : ServerState Chan) (room r : RoomId) (announcer name : Text) (payload : Bytes)
      → handle_at (fanout q s room announcer payload).1 r name ≡ (
          if equals room r
          then on_value (announced announcer payload name) (handle_at s r name)
          else handle_at s r name)
  unfolding fanout handle_at
  fanout_queues s room r announcer name payload = elim (Option-cases (get room s.rooms)) [
    | inl missing ↦ elim (room_id_eq.dec room r) [
      | yes same ↦
          subst
            (λ r. handle_at (fanout q s room announcer payload).1 r name ≡ (
              if equals room r
              then on_value (announced announcer payload name) (handle_at s r name)
              else handle_at s r name))
            same (unfold get in ground arith)
      | no other ↦ ground arith
    ]
    | inr (peers, e) ↦ elim (room_id_eq.dec room r) [
      | yes same ↦
          subst
            (λ r. handle_at (fanout q s room announcer payload).1 r name ≡ (
              if equals room r
              then on_value (announced announcer payload name) (handle_at s r name)
              else handle_at s r name))
            same
            (ground (
              arith,
              get-insert_self room (fanout_peers q announcer payload peers).1 s.rooms,
              get-fanout_peers announcer payload name peers,
            ))
      | no other ↦
          ground (arith, get-insert r room (fanout_peers q announcer payload peers).1 s.rooms)
    ]
  ]

  handle_at-set_outbound :
      (s : ServerState Chan) (room : RoomId) (to : Text) (handle : PeerHandle Chan)
      (outbound : Chan)
      → handle_at (set_outbound s room to handle outbound) room to
        ≡ some (record handle { outbound = outbound })
  unfolding handle_at set_outbound
  handle_at-set_outbound s room to handle outbound = ground (
    arith,
    get-insert_self room
        (insert to (record handle { outbound = outbound }) (or_no_peers (get room s.rooms)))
        s.rooms,
    get-insert_self to (record handle { outbound = outbound }) (or_no_peers (get room s.rooms)),
  )

  -- A frame that `route` reports as routed is, encoded, the last in the queue of the recipient's
  -- handle, which keeps its connection id, and it fits the frame cap.
  pub route_routed :
      (law : IsMpsc q) (encode : ServerFrame → Option Bytes) (s : ServerState Chan) (room : RoomId)
      (to : Text) (frame : ServerFrame)
      → (route q encode s room to frame).0 ≡ status routed
      → (payload : Bytes) × (handle : PeerHandle Chan) × (outbound : Chan) × (encode frame
          ≡ some payload)
        × (length payload ≤ max_frame_bytes)
        × (handle_at s room to ≡ some handle)
        × (handle_at (route q encode s room to frame).1 room to
            ≡ some (record handle { outbound = outbound }))
        × (q.queued outbound ≡ q.queued handle.outbound ++ (payload ∷ []))
  route_routed law encode s room to frame h = elim (Option-cases (handle_at s room to)) [
    | inl offline ↦ absurd (unfold route in ground arith)
    | inr (handle, e) ↦ elim (Option-cases (encode frame)) [
      | inl failed ↦ absurd (unfold route in ground arith)
      | inr (payload, f) ↦ elim (Bool-cases (leb (length payload) max_frame_bytes)) [
        | inr large ↦ absurd (unfold route in ground arith)
        | inl fits ↦
            let outbound = (q.try_send payload handle.outbound).1 in
            let taken : (q.try_send payload handle.outbound).0 ≡ sent =
              unfold route in ground arith in
            (
              payload,
              handle,
              outbound,
              f,
              ground arith,
              e,
              unfold route in ground (arith, handle_at-set_outbound s room to handle outbound),
              (law.send_queued payload handle.outbound taken).0,
            )
      ]
    ]
  ]
