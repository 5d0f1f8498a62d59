-- ===== src/Relay/Membership.antt =====
-- Who is registered, after `register` and `deregister` of server/src/relay.rs.
use omp_relayd.Base.{
  ℕ, ◌+◌, ◌≤◌, ◌<◌, ◌≡◌, refl, inl, inr, some, none, Option, Option-cases, Bool-cases, arith,
  text_eq, false, is_empty,
}
use omp_relayd.Base.Map.{get, insert, remove, Uniq, Uniq-insert, Uniq-remove}
use omp_relayd.Base.Map.Sums.{
  AllValues, AllValues-get, AllValues-insert, AllValues-remove, AllValues-weaken,
}
use omp_relayd.Protocol.Limits.{Text, RoomId, room_id_eq, add64, u64_mod}
use omp_relayd.Relay.Registry.{
  PeerHandle, Peers, ServerState, or_no_peers, register, drop_peer, is_registered, deregister,
}

module _ {Chan : Type 0} where
  -- No room is empty, no name or room is listed twice, and every connection has an id that was given out.
  pub record IsPeers (next : ℕ) (peers : Peers Chan) : Type 0 where
    pub uniq : Uniq peers
    pub inhabited : is_empty peers ≡ false
    pub numbered : AllValues (λ (h : PeerHandle Chan). h.connection_id < next) peers

  pub record IsRegistry (s : ServerState Chan) : Type 0 where
    pub rooms_uniq : Uniq s.rooms
    pub all_peers : AllValues (IsPeers s.next_connection_id) s.rooms

  IsPeers-mono : (m n : ℕ) → m ≤ n → (peers : Peers Chan) → IsPeers m peers → IsPeers n peers
  IsPeers-mono m n h peers v = record {
    uniq = v.uniq;
    inhabited = v.inhabited;
    numbered = AllValues-weaken _ _ (λ (handle : PeerHandle Chan) k. omega arith) peers v.numbered;
  }

  found-Uniq :
      (s : ServerState Chan) (room : RoomId) (found : Option (Peers Chan))
      → IsRegistry s
      → get room s.rooms ≡ found
      → Uniq (or_no_peers found)
        × AllValues
            (λ (h : PeerHandle Chan). h.connection_id < s.next_connection_id)
            (or_no_peers found)
  found-Uniq s room none v e = (tt, tt)
  found-Uniq s room (some peers) v e =
      let w = AllValues-get (IsPeers s.next_connection_id) room s.rooms v.all_peers e in
      (w.uniq, w.numbered)

  -- Registering keeps the registry well formed, as long as the connection ids do not run out.
  pub register-IsRegistry :
      (s : ServerState Chan) (room : RoomId) (peer : Text) (outbound : Chan)
      → IsRegistry s
      → s.next_connection_id + 1 < u64_mod
      → IsRegistry (register s room peer outbound).1
  unfolding register
  register-IsRegistry s room peer outbound v n =
      let id = s.next_connection_id in
      let (uniq, numbered) = found-Uniq s room (get room s.rooms) v refl in
      let peers = or_no_peers (get room s.rooms) in
      let up : (h : PeerHandle Chan) → h.connection_id < id → h.connection_id < add64 id 1 =
        λ h k. omega arith in
      record {
        rooms_uniq = Uniq-insert room _ s.rooms v.rooms_uniq;
        all_peers =
            AllValues-insert (IsPeers (add64 id 1)) room _ s.rooms
              (record {
                uniq = Uniq-insert peer _ peers uniq;
                inhabited = unfold insert in refl;
                numbered =
                    AllValues-insert _ peer _ peers (omega arith)
                      (AllValues-weaken _ _ up peers numbered);
              })
              (AllValues-weaken _ _ (IsPeers-mono id (add64 id 1) (omega arith)) s.rooms
                v.all_peers);
      }

  drop_peer-IsRegistry :
      (s : ServerState Chan) (room : RoomId) (peer : Text) (peers : Peers Chan)
      → IsRegistry s
      → get room s.rooms ≡ some peers
      → IsRegistry (drop_peer s room peer peers)
  drop_peer-IsRegistry s room peer peers v e =
      let w = AllValues-get (IsPeers s.next_connection_id) room s.rooms v.all_peers e in
      elim (Bool-cases (is_empty (remove peer peers))) [
        | inl emptied ↦
            unfold drop_peer in
            rw (emptied, drop_peer)
              (record {
                rooms_uniq = Uniq-remove room s.rooms v.rooms_uniq;
                all_peers = AllValues-remove _ room s.rooms v.all_peers;
              })
        | inr left ↦
            unfold drop_peer in
            rw (left, drop_peer)
              (record {
                rooms_uniq = Uniq-insert room _ s.rooms v.rooms_uniq;
                all_peers =
                    AllValues-insert _ room _ s.rooms
                      (record {
                        uniq = Uniq-remove peer peers w.uniq;
                        inhabited = left;
                        numbered = AllValues-remove _ peer peers w.numbered;
                      })
                      v.all_peers;
              })
      ]

  -- Deregistering keeps the registry well formed: no empty room is left behind.
  pub deregister-IsRegistry :
      (s : ServerState Chan) (room : RoomId) (peer : Text) (connection_id : ℕ)
      → IsRegistry s
      → IsRegistry (deregister s room peer connection_id).1
  deregister-IsRegistry s room peer connection_id v = elim (Option-cases (get room s.rooms)) [
    | inl missing ↦ unfold deregister in rw (missing, deregister) v
    | inr (peers, e) ↦ elim (Bool-cases (is_registered (get peer peers) connection_id)) [
      | inl mine ↦
          unfold deregister in rw (e, mine, deregister) (drop_peer-IsRegistry s room peer peers v e)
      | inr other ↦ unfold deregister in rw (e, other, deregister) v
    ]
  ]
