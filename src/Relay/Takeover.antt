-- ===== src/Relay/Takeover.antt =====
-- A peer name that is registered again, and the cleanup of the connection that lost it, in
-- server/src/relay.rs.
use omp_relayd.Base.{
  ℕ, ◌<◌, ◌≡◌, refl, subst, ◌∙◌, ◌⊎◌, inl, inr, some, none, Option, Option-cases, Bool-cases, [],
  ◌∷◌, arith, text_eq, true, false, if◌then◌else◌, ite, is_empty, ◌&&◌, equals,
}
use omp_relayd.Base.Map.{
  get, insert, remove, get-insert, get-insert_self, get-remove, get-remove_self,
}
use omp_relayd.Base.Map.Sums.{AllValues-get}
use omp_relayd.Protocol.Limits.{Text, RoomId, room_id_eq}
use omp_relayd.Relay.Registry.{
  PeerHandle, Peers, ServerState, or_no_peers, register, drop_peer, is_registered, deregister,
  handle_at, forget_blobs,
}
use omp_relayd.Relay.Membership.{IsPeers, IsRegistry}

module _ {Chan : Type 0} where
  abbrev pub id_of : Option (PeerHandle Chan) → Option ℕ
  id_of none = none
  id_of (some handle) = some handle.connection_id

  -- After `register`, the name belongs to the new connection, and every other name to whom it
  -- belonged before.
  pub handle_at-register :
      (s : ServerState Chan) (room r : RoomId) (peer p : Text) (outbound : Chan)
      → handle_at (register s room peer outbound).1 r p
        ≡ ite
            (room_id_eq.dec room r)
            (ite
              (text_eq.dec peer p)
              (some (record { connection_id = s.next_connection_id; outbound = outbound }))
              (handle_at s room p))
            (handle_at s r p)
  unfolding register handle_at
  handle_at-register s room r peer p outbound = elim (room_id_eq.dec room r) [
    | yes same ↦ ground (
      arith,
      get-insert r room
          (insert peer (record { connection_id = s.next_connection_id; outbound = outbound })
            (or_no_peers (get room s.rooms)))
          s.rooms,
      get-insert p peer (record { connection_id = s.next_connection_id; outbound = outbound })
          (or_no_peers (get room s.rooms)),
    )
    | no other ↦ ground (
      arith,
      get-insert r room
          (insert peer (record { connection_id = s.next_connection_id; outbound = outbound })
            (or_no_peers (get room s.rooms)))
          s.rooms,
    )
  ]

  handle_at-numbered :
      (s : ServerState Chan) (room : RoomId) (peer : Text) {h : PeerHandle Chan}
      → IsRegistry s
      → handle_at s room peer ≡ some h
      → h.connection_id < s.next_connection_id
  unfolding handle_at
  handle_at-numbered s room peer {h} v e = elim (Option-cases (get room s.rooms)) [
    | inl missing ↦ absurd (unfold get in ground arith)
    | inr (peers, f) ↦
        let w = AllValues-get (IsPeers s.next_connection_id) room s.rooms v.all_peers f in
        let at_peer : get peer peers ≡ some h = ground arith in
        AllValues-get (λ (h : PeerHandle Chan). h.connection_id < s.next_connection_id) peer peers
          w.numbered at_peer
  ]

  deregister_other :
      (s : ServerState Chan) (room : RoomId) (peer : Text) (connection_id : ℕ)
      → is_registered (handle_at s room peer) connection_id ≡ false
      → deregister s room peer connection_id ≡ (false, s)
  unfolding deregister handle_at
  deregister_other s room peer connection_id h = ground arith

  -- When a name that connection `h` holds is registered again, `register` reports `h`, sets its
  -- eviction flag, and the cleanup of `h` that comes later returns false and changes nothing.
  pub deregister-register :
      (s : ServerState Chan) (room : RoomId) (peer : Text) (outbound : Chan) (h : PeerHandle Chan)
      → IsRegistry s
      → handle_at s room peer ≡ some h
      → let (registration, s') = register s room peer outbound in
        (registration.superseded ≡ some h.connection_id)
        × (s'.evicted ≡ h.connection_id ∷ s.evicted)
        × (deregister s' room peer h.connection_id ≡ (false, s'))
  deregister-register s room peer outbound h v e =
      let s' = (register s room peer outbound).1 in
      let older = handle_at-numbered s room peer v e in
      let new = handle_at-register s room room peer peer outbound in
      (
        unfold register handle_at in ground arith,
        unfold register handle_at in ground arith,
        deregister_other s' room peer h.connection_id (ground arith),
      )

  some_entry :
      (m : Peers Chan)
      → is_empty m ≡ false
      → (p : Text) × (h : PeerHandle Chan) × (get p m ≡ some h)
  unfolding get
  some_entry [] e = absurd (cc)
  some_entry ((p, h) ∷ m) e = (p, h, ground arith)

  -- What a registered connection leaves behind when it goes.
  pub record IsLeft (s : ServerState Chan) (room : RoomId) (peer : Text) (s' : ServerState Chan)
      : Type 0 where
    pub names :
        (r : RoomId) (p : Text)
        → handle_at s' r p ≡ (if equals room r && equals peer p then none else handle_at s r p)
    -- The payloads of the room go exactly when nobody is left in it.
    pub payloads :
        (((p : Text) → handle_at s' room p ≡ none) × (s'.blobs ≡ forget_blobs room s.blobs))
        ⊎ (((p : Text) × (h : PeerHandle Chan) × (handle_at s' room p ≡ some h))
            × (s'.blobs ≡ s.blobs))

  handle_at-room :
      (s : ServerState Chan) (room : RoomId) (p : Text) {found : Option (Peers Chan)}
      → get room s.rooms ≡ found
      → handle_at s room p ≡ get p (or_no_peers found)
  unfolding handle_at
  handle_at-room s room p e = rw e

  get-emptied :
      (peer p : Text) (peers : Peers Chan)
      → is_empty (remove peer peers) ≡ true
      → get p (remove peer peers) ≡ none
  get-emptied peer p peers h = none_of (remove peer peers) h
    where
      none_of : (m : Peers Chan) → is_empty m ≡ true → get p m ≡ none
      none_of [] h = unfold get in refl
      none_of (x ∷ m) h = absurd (cc)

  -- The last peer of a room goes.
  emptied-IsLeft :
      (s : ServerState Chan) (room : RoomId) (peer : Text) (peers : Peers Chan)
      → get room s.rooms ≡ some peers
      → is_empty (remove peer peers) ≡ true
      → IsLeft s room peer
          (record s { rooms = remove room s.rooms; blobs = forget_blobs room s.blobs })
  unfolding handle_at
  emptied-IsLeft s room peer peers e emptied =
      let nobody : (p : Text) → get p (or_no_peers (get room (remove room s.rooms))) ≡ none =
        λ p. rw (get-remove_self room s.rooms) (unfold get in refl) in
      record {
        names = λ r p. elim (room_id_eq.dec room r) [
          | no other ↦ ground (arith, get-remove r room s.rooms)
          | yes same ↦
              subst
                (λ r. get p (or_no_peers (get r (remove room s.rooms))) ≡ (
                  if equals room r && equals peer p
                  then none
                  else get p (or_no_peers (get r s.rooms))))
                same
                (nobody p
                  ∙ ground (arith, e, get-emptied peer p peers emptied, get-remove p peer peers))
        ];
        payloads = inl (nobody, refl);
      }

  -- Others stay.
  thinned-IsLeft :
      (s : ServerState Chan) (room : RoomId) (peer : Text) (peers : Peers Chan)
      → get room s.rooms ≡ some peers
      → is_empty (remove peer peers) ≡ false
      → IsLeft s room peer (record s { rooms = insert room (remove peer peers) s.rooms })
  unfolding handle_at
  thinned-IsLeft s room peer peers e left =
      let (p, h, found) = some_entry (remove peer peers) left in
      let here : get room (insert room (remove peer peers) s.rooms) ≡ some (remove peer peers) =
        get-insert_self room (remove peer peers) s.rooms in
      record {
        names = λ r p. elim (room_id_eq.dec room r) [
          | no other ↦ ground (arith, get-insert r room (remove peer peers) s.rooms)
          | yes same ↦
              subst
                (λ r. get p (or_no_peers (get r (insert room (remove peer peers) s.rooms))) ≡ (
                  if equals room r && equals peer p
                  then none
                  else get p (or_no_peers (get r s.rooms))))
                same (ground (arith, here, e, get-remove p peer peers))
        ];
        payloads = inr ((p, h, rw here found), refl);
      }

  -- The connection that holds a name gives it up: nobody else loses a name, and the room's
  -- payloads are forgotten exactly if it was the room's last peer.
  pub deregister-IsLeft :
      (s : ServerState Chan) (room : RoomId) (peer : Text) (h : PeerHandle Chan)
      → handle_at s room peer ≡ some h
      → let (done, s') = deregister s room peer h.connection_id in
        (done ≡ true) × IsLeft s room peer s'
  deregister-IsLeft s room peer h e = elim (Option-cases (get room s.rooms)) [
    | inl missing ↦ absurd (unfold get in ground (arith, handle_at-room s room peer missing))
    | inr (peers, f) ↦
        let mine : is_registered (get peer peers) h.connection_id ≡ true =
          ground (arith, handle_at-room s room peer f) in
        elim (Bool-cases (is_empty (remove peer peers))) [
          | inl emptied ↦
              unfold deregister in
              rw (f, mine, emptied, deregister, drop_peer)
                (refl, emptied-IsLeft s room peer peers f emptied)
          | inr left ↦
              unfold deregister in
              rw (f, mine, left, deregister, drop_peer)
                (refl, thinned-IsLeft s room peer peers f left)
        ]
  ]
