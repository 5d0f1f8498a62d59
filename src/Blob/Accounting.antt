-- ===== src/Blob/Accounting.antt =====
-- Every operation of the index in server/src/blob.rs keeps the accounting.
use omp_relayd.Base.{
  ℕ, ◌+◌, ◌-◌, ◌≤◌, ◌≡◌, refl, sym, subst, inl, inr, some, none, Option, Option-cases, Bool-cases,
  arith, text_eq, ltb, leb, is_some,
}
use omp_relayd.Base.Map.{get, remove}
use omp_relayd.Base.Map.Sums.{weight-get-le, AllValues-get}
use omp_relayd.Protocol.Limits.{Text, RoomId, room_id_eq}
use omp_relayd.Blob.Types.{
  Reservation, RoomState, Index, Store, charge_for, max_payload_bytes, max_room_bytes,
  max_store_bytes,
}
use omp_relayd.Blob.Index.{
  recharge, room_charged, reservation_charge, or_default, admit_reservation, reserve, held,
  live_payload,
}
use omp_relayd.Blob.Uploads.{start_upload, claim_reservation, begin_upload}
use omp_relayd.Blob.Invariant.{
  IsRoom, IsIndex, IsReservation, charge_for_bounds, get-IsRoom, or_default-IsRoom, insert-IsIndex,
}
use omp_relayd.Blob.Rooms.{
  reservation_weight, reservation-le-charged, insert_reservation-IsRoom, remove_reservation-IsRoom,
  start_flight-IsRoom,
}

-- A room is charged no more than the store.
pub room-le-total :
    (x : Index) (room : RoomId) {s : RoomState}
    → IsIndex x
    → get room x.rooms ≡ some s
    → s.charged ≤ x.charged
room-le-total x room {s} v e =
    grind (arith, v.total, weight-get-le (λ (s : RoomState). s.charged) room x.rooms)

-- The u64 arithmetic of the operations never wraps within the ceilings.
pub recharge_lem :
    (total charged released : ℕ)
    → total ≤ max_store_bytes
    → charged ≤ max_payload_bytes
    → released ≤ total + charged
    → recharge total charged released + released ≡ total + charged
unfolding recharge
recharge_lem total charged released h k l = omega arith

reservation_charge-le :
    (x : Index) (room : RoomId) (digest : Text) (found : Option RoomState)
    → IsIndex x
    → get room x.rooms ≡ found
    → (reservation_charge digest found ≤ room_charged found)
      × (room_charged found ≤ x.charged)
      × (reservation_charge digest found ≡ reservation_weight (or_default found) digest)
      × ((or_default found).charged ≡ room_charged found)
reservation_charge-le x room digest none v e = unfold get in omega arith
reservation_charge-le x room digest (some s) v e =
    (reservation-le-charged s digest (get-IsRoom x room v e), room-le-total x room v e, refl, refl)

admit_reservation-IsIndex :
    (s : Store) (room : RoomId) (digest : Text) (bytes now : ℕ) (found : Option RoomState)
    → IsIndex s.index
    → bytes ≤ max_payload_bytes
    → get room s.index.rooms ≡ found
    → IsIndex (admit_reservation s room digest bytes now found).1.index
unfolding admit_reservation
admit_reservation-IsIndex s room digest bytes now found v h e =
    let charged = charge_for bytes in
    let released = reservation_charge digest found in
    let (le, room_le, same, base) = reservation_charge-le s.index room digest found v e in
    let (_, _, small) = charge_for_bounds bytes h in
    let room_total = recharge (room_charged found) charged released in
    let store_total = recharge s.index.charged charged released in
    let room_sum =
      recharge_lem (room_charged found) charged released (omega (arith, v.under_ceiling)) small
        (omega arith) in
    let store_sum =
      recharge_lem s.index.charged charged released v.under_ceiling small (omega arith) in
    elim (Bool-cases (ltb max_room_bytes room_total)) [
      | inl full ↦ rw (full, admit_reservation) v
      | inr room_fits ↦ elim (Bool-cases (ltb max_store_bytes store_total)) [
        | inl full ↦ rw (room_fits, full, admit_reservation) v
        | inr fits ↦
            rw (room_fits, fits, admit_reservation)
              (insert-IsIndex s.index room _ store_total v
                (insert_reservation-IsRoom (or_default found) digest _ room_total
                  (or_default-IsRoom s.index room v found e) (h, refl) (omega arith) (ground arith))
                (rw e (omega arith)) (ground arith))
      ]
    ]

pub reserve-IsIndex :
    (s : Store) (room : RoomId) (digest : Text) (bytes now : ℕ)
    → IsIndex s.index
    → IsIndex (reserve s room digest bytes now).1.index
unfolding reserve
reserve-IsIndex s room digest bytes now v = elim (Bool-cases (ltb max_payload_bytes bytes)) [
  | inl large ↦ rw large v
  | inr small ↦ elim (Option-cases (held now digest (get room s.index.rooms))) [
    | inl free ↦
        rw (small, free) (admit_reservation-IsIndex s room digest bytes now _ v (ground arith) refl)
    | inr (remaining, e) ↦ rw (small, e) v
  ]
]

-- The reservation leaves with its allowance, or the allowance moves to the flight.
start_upload-IsIndex :
    (s : Store) (room : RoomId) (state : RoomState) (digest : Text) (declared : ℕ) (r : Reservation)
    → IsIndex s.index
    → get room s.index.rooms ≡ some state
    → get digest state.reserved ≡ some r
    → IsIndex (start_upload s room state digest declared r).1.index
unfolding start_upload
start_upload-IsIndex s room state digest declared r v e f =
    let w = get-IsRoom s.index room v e in
    let weighs : reservation_weight state digest ≡ r.charged = rw f in
    let small = room-le-total s.index room v e in
    let enough = reservation-le-charged state digest w in
    let legal = AllValues-get IsReservation digest state.reserved w.reservations f in
    let (_, lo, hi) = charge_for_bounds r.declared legal.0 in
    elim (Option-cases (get digest state.uploading)) [
      | inl free ↦
          rw (free, start_upload)
            (insert-IsIndex s.index room _ s.index.charged v
              (start_flight-IsRoom state digest _ w (omega (arith, legal.1)) (sym weighs) free)
              (rw e (omega arith)) v.under_ceiling)
      | inr (flight, busy) ↦
          rw (busy, start_upload)
            (insert-IsIndex s.index room _ (s.index.charged - r.charged) v
              (subst
                (λ c. IsRoom (record state {
                  reserved = remove digest state.reserved;
                  charged = state.charged - c;
                }))
                weighs (remove_reservation-IsRoom state digest w))
              (rw e (omega arith)) (omega (arith, v.under_ceiling)))
    ]

pub begin_upload-IsIndex :
    (s : Store) (room : RoomId) (digest : Text) (declared now : ℕ)
    → IsIndex s.index
    → IsIndex (begin_upload s room digest declared now).1.index
unfolding begin_upload claim_reservation
begin_upload-IsIndex s room digest declared now v = elim (Option-cases (get room s.index.rooms)) [
  | inl missing ↦ rw (missing, begin_upload, claim_reservation) v
  | inr (state, e) ↦ elim (Bool-cases (is_some (live_payload now digest state))) [
    | inl live ↦ rw (e, live, begin_upload, claim_reservation) v
    | inr dead ↦ elim (Option-cases (get digest state.reserved)) [
      | inl unknown ↦ rw (e, dead, unknown, begin_upload, claim_reservation) v
      | inr (r, f) ↦ elim (Bool-cases (leb r.expires_at now)) [
        | inl late ↦ rw (e, dead, f, late, begin_upload, claim_reservation) v
        | inr timely ↦ elim (Bool-cases (ltb r.declared declared)) [
          | inl over ↦ rw (e, dead, f, timely, over, begin_upload, claim_reservation) v
          | inr fits ↦
              rw (e, dead, f, timely, fits, begin_upload, claim_reservation)
                (start_upload-IsIndex s room state digest declared r v e f)
        ]
      ]
    ]
  ]
]
