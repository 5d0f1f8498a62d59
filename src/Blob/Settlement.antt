-- ===== src/Blob/Settlement.antt =====
-- The operations of server/src/blob.rs that end an upload or empty a room keep the accounting.
use omp_relayd.Base.{
  ℕ, ◌-◌, ◌≤◌, ◌≡◌, refl, subst, inl, inr, some, Option-cases, Bool-cases, arith, text_eq, true,
}
use omp_relayd.Base.Map.{get, remove, Uniq-remove}
use omp_relayd.Base.Map.Sums.{weight, sum-remove, AllValues-remove}
use omp_relayd.Protocol.Limits.{Text, RoomId, room_id_eq}
use omp_relayd.Blob.Types.{InFlight, RoomState, Index, Store, charge_for, max_payload_bytes}
use omp_relayd.Blob.Expiry.{forget_room}
use omp_relayd.Blob.Uploads.{
  own_flight, is_spent, drop_room_if_idle, release_flight, abandon_upload, settle, commit_upload,
}
use omp_relayd.Blob.Invariant.{IsRoom, IsIndex, charge_for_bounds, get-IsRoom, insert-IsIndex}
use omp_relayd.Blob.Rooms.{
  flight_weight, flight-le-charged, remove_flight-IsRoom, settle-IsRoom, settle-fits,
}
use omp_relayd.Blob.Accounting.{room-le-total, recharge_lem}

pub own_flight-some :
    (digest : Text) (serial : ℕ) (state : RoomState) {f : InFlight}
    → own_flight digest serial state ≡ some f
    → (get digest state.uploading ≡ some f) × (f.serial ≡ serial)
unfolding own_flight
own_flight-some digest serial state h = ground arith

pub is_spent-uncharged : (s : RoomState) → is_spent s ≡ true → s.charged ≡ 0
unfolding is_spent
is_spent-uncharged s h = ground arith

remove-IsIndex :
    (x : Index) (room : RoomId) {s : RoomState}
    → IsIndex x
    → get room x.rooms ≡ some s
    → IsIndex (record { rooms = remove room x.rooms; charged = x.charged - s.charged })
remove-IsIndex x room {s} v e =
    let weighs : weight (λ s. s.charged) (get room x.rooms) ≡ s.charged = rw e in
    record {
      rooms_uniq = Uniq-remove room x.rooms v.rooms_uniq;
      all_rooms = AllValues-remove IsRoom room x.rooms v.all_rooms;
      total = omega (arith, v.total, sum-remove (λ s. s.charged) room x.rooms v.rooms_uniq, weighs);
      under_ceiling = omega (arith, v.under_ceiling);
    }

drop_room_if_idle-IsIndex :
    (x : Index) (room : RoomId) → IsIndex x → IsIndex (drop_room_if_idle x room)
unfolding drop_room_if_idle
drop_room_if_idle-IsIndex x room v = elim (Option-cases (get room x.rooms)) [
  | inl missing ↦ rw (missing, drop_room_if_idle) v
  | inr (s, e) ↦ elim (Bool-cases (is_spent s)) [
    | inl spent ↦
        rw (e, spent, drop_room_if_idle)
          (subst (λ c. IsIndex (record { rooms = remove room x.rooms; charged = c }))
            (omega (arith, is_spent-uncharged s spent)) (remove-IsIndex x room v e))
    | inr used ↦ rw (e, used, drop_room_if_idle) v
  ]
]

release_flight-IsIndex :
    (x : Index) (room : RoomId) (state : RoomState) (digest : Text) (serial : ℕ)
    → IsIndex x
    → get room x.rooms ≡ some state
    → IsIndex (release_flight x room state digest serial)
unfolding release_flight
release_flight-IsIndex x room state digest serial v e =
    elim (Option-cases (own_flight digest serial state)) [
      | inl other ↦ rw (other, release_flight) v
      | inr (flight, mine) ↦
          let w = get-IsRoom x room v e in
          let (f, _) = own_flight-some digest serial state mine in
          let weighs : flight_weight state digest ≡ flight.charged = rw f in
          let enough = flight-le-charged state digest w in
          let small = room-le-total x room v e in
          rw (mine, release_flight)
            (insert-IsIndex x room _ (x.charged - flight.charged) v
              (subst
                (λ c. IsRoom (record state {
                  uploading = remove digest state.uploading;
                  charged = state.charged - c;
                }))
                weighs (remove_flight-IsRoom state digest w))
              (rw e (omega arith)) (omega (arith, v.under_ceiling)))
    ]

pub abandon_upload-IsIndex :
    (s : Store) (room : RoomId) (digest : Text) (serial : ℕ)
    → IsIndex s.index
    → IsIndex (abandon_upload s room digest serial).index
unfolding abandon_upload
abandon_upload-IsIndex s room digest serial v = elim (Option-cases (get room s.index.rooms)) [
  | inl missing ↦ rw (missing, abandon_upload) v
  | inr (state, e) ↦
      rw (e, abandon_upload)
        (drop_room_if_idle-IsIndex _ room
          (release_flight-IsIndex s.index room state digest serial v e))
]

-- The flight with this serial, if it is still there, was charged for as much as `bytes`.
abbrev pub Backs : Index → RoomId → Text → ℕ → ℕ → Type 0
Backs x room digest serial bytes =
    (state : RoomState) (flight : InFlight)
    → get room x.rooms ≡ some state
    → own_flight digest serial state ≡ some flight
    → charge_for bytes ≤ flight.charged

pub settle-IsIndex :
    (x : Index) (room : RoomId) (state : RoomState) (digest : Text) (flight : InFlight)
    (bytes now : ℕ)
    → IsIndex x
    → get room x.rooms ≡ some state
    → get digest state.uploading ≡ some flight
    → bytes ≤ max_payload_bytes
    → charge_for bytes ≤ flight.charged
    → IsIndex (settle x room state digest flight bytes now)
unfolding settle
settle-IsIndex x room state digest flight bytes now v e f h fits =
    let w = get-IsRoom x room v e in
    let weighs : flight_weight state digest ≡ flight.charged = rw f in
    let room_small = room-le-total x room v e in
    let (_, _, small) = charge_for_bounds bytes h in
    let both = settle-fits state digest w in
    let room_sum =
      recharge_lem state.charged (charge_for bytes) flight.charged (omega (arith, v.under_ceiling))
        small (omega arith) in
    let total_sum =
      recharge_lem x.charged (charge_for bytes) flight.charged v.under_ceiling small
        (omega arith) in
    insert-IsIndex x room _ _ v
      (settle-IsRoom state digest _ _ w (h, refl) (omega arith) (omega arith)) (rw e (omega arith))
      (omega (arith, v.under_ceiling))

pub commit_upload-IsIndex :
    (s : Store) (room : RoomId) (digest : Text) (serial bytes now : ℕ)
    → IsIndex s.index
    → bytes ≤ max_payload_bytes
    → Backs s.index room digest serial bytes
    → IsIndex (commit_upload s room digest serial bytes now).1.index
unfolding commit_upload
commit_upload-IsIndex s room digest serial bytes now v h b =
    elim (Option-cases (get room s.index.rooms)) [
      | inl missing ↦ rw (missing, commit_upload) v
      | inr (state, e) ↦ elim (Option-cases (own_flight digest serial state)) [
        | inl other ↦ rw (e, other, commit_upload) v
        | inr (flight, mine) ↦
            rw (e, mine, commit_upload)
              (settle-IsIndex s.index room state digest flight bytes now v e
                (own_flight-some digest serial state mine).0 h (b state flight e mine))
      ]
    ]

pub forget_room-IsIndex :
    (s : Store) (room : RoomId) → IsIndex s.index → IsIndex (forget_room s room).index
unfolding forget_room
forget_room-IsIndex s room v = elim (Option-cases (get room s.index.rooms)) [
  | inl missing ↦ rw (missing, forget_room) v
  | inr (state, e) ↦ rw (e, forget_room) (remove-IsIndex s.index room v e)
]
