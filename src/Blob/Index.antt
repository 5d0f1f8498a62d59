-- ===== src/Blob/Index.antt =====
-- The index of `Store` in server/src/blob.rs: `reserve` and `payload_len`. Each operation is a
-- function of the store and of the time that it reads.
use omp_relayd.Base.{
  Result, ok, err, ℕ, ◌+◌, ◌-◌, Bool, ltb, if◌then◌else◌, Option, none, some, text_eq,
}
use omp_relayd.Base.Map.{get, insert, keep}
use omp_relayd.Base.Map.Sums.{weight}
use omp_relayd.Protocol.Limits.{Text, RoomId, room_id_eq, add64, sub64}
use omp_relayd.Blob.Types.{
  Refusal, payload_too_large, room_full, store_full, Grant, Reservation, Payload, RoomState,
  default_room, Index, Store, charge_for, max_payload_bytes, max_room_bytes, max_store_bytes,
  payload_time_to_live, reservation_time_to_live,
}

-- `expires_at > now`, for a payload and a reservation.
abbrev pub is_live : ℕ → Payload → Bool
is_live now p = ltb now p.expires_at

abbrev pub is_pending : ℕ → Reservation → Bool
is_pending now r = ltb now r.expires_at

-- What `reserve` reads of the room: its charge, the charge of the digest's old reservation, and
-- the time that a live payload has left.
abbrev pub room_charged : Option RoomState → ℕ
room_charged none = 0
room_charged (some state) = state.charged

abbrev pub reservation_charge : Text → Option RoomState → ℕ
reservation_charge digest none = 0
reservation_charge digest (some state) = weight (λ r. r.charged) (get digest state.reserved)

unfoldable pub live_payload : ℕ → Text → RoomState → Option Payload
live_payload now digest state = keep (is_live now) (get digest state.stored)

unfoldable pub held : ℕ → Text → Option RoomState → Option ℕ
held now digest none = none
held now digest (some state) = elim (live_payload now digest state) [
  | none ↦ none
  | some p ↦ some (p.expires_at - now)
]

abbrev pub or_default : Option RoomState → RoomState
or_default none = default_room
or_default (some state) = state

abbrev pub set_index : Store → Index → Store
set_index s index = record s { index = index }

-- `total + charged - released` on u64.
unfoldable pub recharge : ℕ → ℕ → ℕ → ℕ
recharge total charged released = sub64 (add64 total charged) released

-- The part of `reserve` after the look-up of a held payload.
unfoldable pub admit_reservation :
    Store → RoomId → Text → ℕ → ℕ → Option RoomState → Result Grant Refusal × Store
admit_reservation s room digest bytes now found =
    let charged = charge_for bytes in
    let released = reservation_charge digest found in
    let room_total = recharge (room_charged found) charged released in
    let store_total = recharge s.index.charged charged released in
    let state = or_default found in
    if ltb max_room_bytes room_total
    then (err room_full, s)
    else if ltb max_store_bytes store_total
    then (err store_full, s)
    else (
      ok (record { time_to_live = payload_time_to_live }),
      set_index s (record {
        rooms =
            insert room
              (record state {
                reserved =
                    insert digest
                      (record {
                        declared = bytes;
                        charged = charged;
                        expires_at = now + reservation_time_to_live;
                      })
                      state.reserved;
                charged = room_total;
              })
              s.index.rooms;
        charged = store_total;
      }),
    )

unfoldable pub reserve : Store → RoomId → Text → ℕ → ℕ → Result Grant Refusal × Store
reserve s room digest bytes now =
    if ltb max_payload_bytes bytes
    then (err payload_too_large, s)
    else elim (held now digest (get room s.index.rooms)) [
      | some remaining ↦ (ok (record { time_to_live = remaining }), s)
      | none ↦ admit_reservation s room digest bytes now (get room s.index.rooms)
    ]

unfoldable pub payload_len : Store → RoomId → Text → ℕ → Option ℕ
payload_len s room digest now = elim (get room s.index.rooms) [
  | none ↦ none
  | some state ↦ elim (live_payload now digest state) [ none ↦ none | some p ↦ some p.bytes ]
]
