-- ===== src/Relay/Names.antt =====
-- The frames of a connection of server/src/relay.rs change no name of the registry.
use omp_relayd.Base.{
  ℕ, ◌≡◌, refl, ap, sym, subst, ◌∙◌, inl, inr, Bool-cases, equals, text_eq, Option, none, some,
  Option-cases, arith,
}
use omp_relayd.Base.Map.{get, insert, get-insert, get-insert_self}
use omp_relayd.Base.Map.Sums.{on_value}
use omp_relayd.Protocol.Limits.{Text, RoomId, room_id_eq}
use omp_relayd.Protocol.Frames.{
  ClientFrame, hello, send, announce, list, reserve, ping, unsupported, ServerFrame,
}
use omp_relayd.Relay.Channel.{Mpsc, IsMpsc}
use omp_relayd.Relay.Registry.{
  Bytes, PeerHandle, Peers, ServerState, handle_at, or_no_peers, set_outbound, route, fanout,
  enqueue, encode_delivery,
}
use omp_relayd.Relay.Handlers.{
  RegisteredPeer, Submission, Outcome, reply_if, handle_list, handle_frame,
}
use omp_relayd.Relay.Takeover.{id_of}
use omp_relayd.Relay.Delivery.{announced, fanout_queues}
use omp_relayd.Relay.Receipts.{handle_send-receipt, handle_announce-IsAccepted}
use omp_relayd.Relay.Reservations.{handle_reserve-answered}

module _ {Chan : Type 0} where
  -- Every name belongs to the connection that it belonged to.
  abbrev pub IsSameNames : ServerState Chan → ServerState Chan → Type 0
  IsSameNames s s' =
      (room : RoomId) (peer : Text) → id_of (handle_at s' room peer) ≡ id_of (handle_at s room peer)

  get-set :
      (peers : Peers Chan) (to p : Text) (handle : PeerHandle Chan) (outbound : Chan)
      → get to peers ≡ some handle
      → id_of (get p (insert to (record handle { outbound = outbound }) peers))
        ≡ id_of (get p peers)
  get-set peers to p handle outbound e = elim (text_eq.dec to p) [
    | no other ↦ ground (arith, get-insert p to (record handle { outbound = outbound }) peers)
    | yes same ↦
        subst
          (λ p.
            id_of (get p (insert to (record handle { outbound = outbound }) peers))
            ≡ id_of (get p peers))
          same
          (ap id_of (get-insert_self to (record handle { outbound = outbound }) peers)
            ∙ sym (ap id_of e))
  ]

  set_outbound-IsSameNames :
      (s : ServerState Chan) (room : RoomId) (to : Text) (handle : PeerHandle Chan)
      (outbound : Chan)
      → handle_at s room to ≡ some handle
      → IsSameNames s (set_outbound s room to handle outbound)
  unfolding handle_at set_outbound
  set_outbound-IsSameNames s room to handle outbound e r p =
      let peers = or_no_peers (get room s.rooms) in
      let peers' = insert to (record handle { outbound = outbound }) peers in
      elim (room_id_eq.dec room r) [
        | no other ↦ ground (arith, get-insert r room peers' s.rooms)
        | yes same ↦
            subst
              (λ r.
                id_of (get p (or_no_peers (get r (insert room peers' s.rooms))))
                ≡ id_of (get p (or_no_peers (get r s.rooms))))
              same
              (ap (λ o. id_of (get p (or_no_peers o))) (get-insert_self room peers' s.rooms)
                ∙ get-set peers to p handle outbound e)
      ]

  module _ (q : Mpsc Bytes Chan) where
    route-IsSameNames :
        (encode : ServerFrame → Option Bytes) (s : ServerState Chan) (room : RoomId) (to : Text)
        (frame : ServerFrame)
        → IsSameNames s (route q encode s room to frame).1
    route-IsSameNames encode s room to frame = elim (Option-cases (handle_at s room to)) [
      | inl offline ↦ λ r p. unfold route in rw (offline, route) refl
      | inr (handle, e) ↦ elim (Option-cases (encode_delivery encode frame)) [
        | inl failed ↦ λ r p. unfold route in rw (e, failed, route) refl
        | inr (payload, f) ↦ λ r p.
            unfold route in
            rw (e, f, route)
              (set_outbound-IsSameNames s room to handle (enqueue q handle.outbound payload).1 e r
                p)
      ]
    ]

    id_of-announced :
        (announcer : Text) (payload : Bytes) (name : Text) (o : Option (PeerHandle Chan))
        → id_of (on_value (announced q announcer payload name) o) ≡ id_of o
    id_of-announced announcer payload name none = refl
    id_of-announced announcer payload name (some handle) = ground arith

    fanout-IsSameNames :
        (s : ServerState Chan) (room : RoomId) (announcer : Text) (payload : Bytes)
        → IsSameNames s (fanout q s room announcer payload).1
    fanout-IsSameNames s room announcer payload r p = elim (Bool-cases (equals room r)) [
      | inl e ↦
          ap id_of (fanout_queues q s room r announcer p payload)
          ∙ rw (e) (id_of-announced announcer payload p (handle_at s r p))
      | inr e ↦ ap id_of (fanout_queues q s room r announcer p payload) ∙ rw (e) refl
    ]

  reply_if-state :
      {Queue E : Type 0} (r : Mpsc ServerFrame Queue) (replies : Queue) (s : ServerState Chan)
      (v : Option E) (frame : E → ServerFrame) (next : Outcome Queue Chan)
      → next.state ≡ s
      → (reply_if r replies s v frame next).state ≡ s
  unfolding reply_if
  reply_if-state r replies s none frame next same = same
  reply_if-state r replies s (some e) frame next same = refl

  handle_list-state :
      {Queue : Type 0} (r : Mpsc ServerFrame Queue) (q : Mpsc Bytes Chan)
      (encode : ServerFrame → Option Bytes) (show_char : ℕ → Text) (replies : Queue)
      (s : ServerState Chan) (registered : RegisteredPeer) (request_id : Text)
      → (handle_list r q encode show_char replies s registered request_id).state ≡ s
  unfolding handle_list
  handle_list-state r q encode show_char replies s registered request_id =
      reply_if-state r replies s _ _ _ refl

  -- A registered connection's frame leaves every name with the connection that it belonged to.
  pub handle_frame-IsSameNames :
      {Queue : Type 0} (r : Mpsc ServerFrame Queue) (law : IsMpsc r) (q : Mpsc Bytes Chan)
      (encode : ServerFrame → Option Bytes) (show_char : ℕ → Text) (replies : Queue)
      (s : ServerState Chan) (registered : RegisteredPeer) (now : ℕ) (frame : ClientFrame)
      → IsSameNames s (handle_frame r q encode show_char replies s registered now frame).state
  unfolding handle_frame
  handle_frame-IsSameNames r law q encode show_char replies s registered now
        (hello protocol room peer) =
      λ r p. refl
  handle_frame-IsSameNames r law q encode show_char replies s registered now ping = λ r p. refl
  handle_frame-IsSameNames r law q encode show_char replies s registered now unsupported =
      λ r p. refl
  handle_frame-IsSameNames r law q encode show_char replies s registered now (list request_id) =
      λ room peer.
        ap (λ s'. id_of (handle_at s' room peer))
          (handle_list-state r q encode show_char replies s registered request_id)
  handle_frame-IsSameNames r law q encode show_char replies s registered now
        (send id to body reply_to attachment) =
      let m : Submission = record {
        id = id;
        body = body;
        reply_to = reply_to;
        attachment = attachment;
      } in
      elim (handle_send-receipt r law q encode show_char s registered replies to m) [
        | inl same ↦ subst (IsSameNames s) (sym same) (λ r p. refl)
        | inr (st, e, flow, same, sent) ↦
            subst (IsSameNames s) (sym same) (route-IsSameNames q encode s registered.room to _)
      ]
  handle_frame-IsSameNames r law q encode show_char replies s registered now
        (announce id body reply_to attachment) =
      let m : Submission = record {
        id = id;
        body = body;
        reply_to = reply_to;
        attachment = attachment;
      } in
      elim (handle_announce-IsAccepted r law q encode show_char s registered replies m) [
        | inl same ↦ subst (IsSameNames s) (sym same) (λ r p. refl)
        | inr (payload, e, flow, same, sent) ↦
            subst (IsSameNames s) (sym same)
              (fanout-IsSameNames q s registered.room registered.peer payload)
      ]
  handle_frame-IsSameNames r law q encode show_char replies s registered now
        (reserve request_id digest bytes) =
      elim (handle_reserve-answered r law q encode show_char s registered replies request_id digest
        bytes now) [
          | inl same ↦ subst (IsSameNames s) (sym same) (λ r p. refl)
          | inr (blobs, e, flow, same, sent) ↦
              subst (IsSameNames s) (sym same) (unfold handle_at in λ r p. refl)
        ]
