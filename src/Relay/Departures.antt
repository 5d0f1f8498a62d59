-- ===== src/Relay/Departures.antt =====
-- What a connection of server/src/relay.rs leaves in the registry when it ends.
use omp_relayd.Base.{
  ℕ, ◌≡◌, ◌≢◌, refl, sym, subst, inl, inr, Bool, false, Bool-cases, if◌then◌else◌, equals_refl,
  text_eq, some, Option-cases, arith,
}
use omp_relayd.Base.Map.{get}
use omp_relayd.Protocol.Limits.{Text, RoomId, room_id_eq}
use omp_relayd.Relay.Registry.{
  ServerState, PeerHandle, is_registered, register, deregister, handle_at,
}
use omp_relayd.Relay.Handlers.{RegisteredPeer}
use omp_relayd.Relay.Admission.{Admission}
use omp_relayd.Relay.Takeover.{deregister-IsLeft}
use omp_relayd.Relay.Connection.{register_peer, drop_registered, run_connection}

module _ {Chan : Type 0} where
  -- An entry that is another connection's stays.
  pub deregister-other :
      (s : ServerState Chan) (room : RoomId) (peer : Text) (id : ℕ)
      → is_registered (handle_at s room peer) id ≡ false
      → (deregister s room peer id).1 ≡ s
  unfolding handle_at
  deregister-other s room peer id other = elim (Option-cases (get room s.rooms)) [
    | inl missing ↦ unfold deregister in rw (missing, deregister) refl
    | inr (peers, e) ↦
        let theirs : is_registered (get peer peers) id ≡ false = ground (arith, other, e) in
        unfold deregister in rw (e, theirs, deregister) refl
  ]

  pub deregister-gone :
      (s : ServerState Chan) (room : RoomId) (peer : Text) (id : ℕ) (h : PeerHandle Chan)
      → handle_at (deregister s room peer id).1 room peer ≡ some h
      → h.connection_id ≢ id
  deregister-gone s room peer id h e =
      elim (Bool-cases (is_registered (handle_at s room peer) id)) [
        | inr other ↦
            let here =
              subst (λ s'. handle_at s' room peer ≡ some h) (deregister-other s room peer id other)
                e in
            λ same. ground (arith, other, here)
        | inl mine ↦ elim (Option-cases (handle_at s room peer)) [
          | inl absent ↦ absurd (ground (arith, mine, absent))
          | inr (k, f) ↦
              let mine' : k.connection_id ≡ id = ground (arith, mine, f) in
              let left = (deregister-IsLeft s room peer k f).1.names room peer in
              let here =
                subst (λ i. handle_at (deregister s room peer i).1 room peer ≡ some h) (sym mine')
                  e in
              absurd (ground (arith, left, here, equals_refl room, equals_refl peer))
        ]
      ]

  -- However the pump leaves the state, and whether or not the handshake was answered: when an
  -- admitted connection has ended, its name is free or belongs to another connection.
  pub run_connection-gone :
      (s : ServerState Chan) (admission : Admission) (room : RoomId) (peer : Text) (outbound : Chan)
      (ready : Bool) (pumped : RegisteredPeer → ServerState Chan → ServerState Chan)
      (h : PeerHandle Chan)
      → admission.admitted ≡ some (room, peer)
      → handle_at (run_connection s admission outbound ready pumped) room peer ≡ some h
      → h.connection_id ≢ s.next_connection_id
  unfolding run_connection drop_registered register_peer register
  run_connection-gone s admission room peer outbound ready pumped h admitted e =
      let (registered, s') = register_peer s room peer outbound in
      deregister-gone (if ready then pumped registered s' else s') room peer s.next_connection_id h
        (subst
          (λ a.
            handle_at (run_connection s (record admission { admitted = a }) outbound ready pumped)
              room peer
            ≡ some h)
          admitted e)
