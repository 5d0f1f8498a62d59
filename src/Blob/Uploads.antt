-- ===== src/Blob/Uploads.antt =====
-- The uploads in the index of server/src/blob.rs: `begin_upload`, `abandon_upload` and
-- `commit_upload`.
use omp_relayd.Base.{
  Result, ok, err, ℕ, ◌+◌, ◌-◌, Bool, false, ◌&&◌, ltb, leb, ◌==◌, if◌then◌else◌, [], Option, none,
  some, is_empty, is_some, text_eq,
}
use omp_relayd.Base.Map.{get, insert, remove, keep}
use omp_relayd.Base.Map.Sums.{weight}
use omp_relayd.Protocol.Limits.{Text, RoomId, room_id_eq, add64}
use omp_relayd.Blob.Types.{
  UploadRefusal, unreserved, over_reservation, UploadError, room_gone, Reservation, InFlight,
  RoomState, is_idle, Index, Store, Accepted, already_held, upload, charge_for,
  payload_time_to_live,
}
use omp_relayd.Blob.Index.{live_payload, set_index, recharge}

-- The end of `begin_upload`: the reservation leaves the table, a serial is taken, and the upload
-- starts unless another one of the same digest is in flight.
unfoldable pub start_upload :
    Store → RoomId → RoomState → Text → ℕ → Reservation → Result Accepted UploadRefusal × Store
start_upload s room state digest declared r =
    let serial = s.next_serial in
    let reserved = remove digest state.reserved in
    elim (get digest state.uploading) [
      | some _ ↦ (
        err unreserved,
        record s {
          index = record {
            rooms =
                insert room
                  (record state { reserved = reserved; charged = state.charged - r.charged })
                  s.index.rooms;
            charged = s.index.charged - r.charged;
          };
          next_serial = add64 serial 1;
        },
      )
      | none ↦ (
        ok (
            upload (record {
              room = room;
              digest = digest;
              serial = serial;
              declared = declared;
              hasher = [];
              written = 0;
              temp = none;
              file = false;
              settled = false;
            })),
        record s {
          index = record {
            rooms =
                insert room
                  (record state {
                    reserved = reserved;
                    uploading =
                        insert digest (record { serial = serial; charged = r.charged })
                          state.uploading;
                  })
                  s.index.rooms;
            charged = s.index.charged;
          };
          next_serial = add64 serial 1;
        },
      )
    ]

unfoldable pub claim_reservation :
    Store → RoomId → RoomState → Text → ℕ → ℕ → Result Accepted UploadRefusal × Store
claim_reservation s room state digest declared now = elim (get digest state.reserved) [
  | none ↦ (err unreserved, s)
  | some r ↦
      if leb r.expires_at now
      then (err unreserved, s)
      else if ltb r.declared declared
      then (err (over_reservation declared r.declared), s)
      else start_upload s room state digest declared r
]

unfoldable pub begin_upload : Store → RoomId → Text → ℕ → ℕ → Result Accepted UploadRefusal × Store
begin_upload s room digest declared now = elim (get room s.index.rooms) [
  | none ↦ (err unreserved, s)
  | some state ↦
      if is_some (live_payload now digest state)
      then (ok already_held, s)
      else claim_reservation s room state digest declared now
]

-- The in-flight entry of the upload with this serial.
unfoldable pub own_flight : Text → ℕ → RoomState → Option InFlight
own_flight digest serial state = keep (λ f. f.serial == serial) (get digest state.uploading)

-- A room that holds nothing any more.
unfoldable pub is_spent : RoomState → Bool
unfolding is_idle
is_spent state = is_idle state && is_empty state.stored

unfoldable pub drop_room_if_idle : Index → RoomId → Index
drop_room_if_idle index room = elim (get room index.rooms) [
  | none ↦ index
  | some state ↦ if is_spent state then record index { rooms = remove room index.rooms } else index
]

-- `abandon_upload` before it drops an idle room.
unfoldable pub release_flight : Index → RoomId → RoomState → Text → ℕ → Index
release_flight index room state digest serial = elim (own_flight digest serial state) [
  | none ↦ index
  | some flight ↦ record {
    rooms =
        insert room
          (record state {
            uploading = remove digest state.uploading;
            charged = state.charged - flight.charged;
          })
          index.rooms;
    charged = index.charged - flight.charged;
  }
]

unfoldable pub abandon_upload : Store → RoomId → Text → ℕ → Store
abandon_upload s room digest serial = elim (get room s.index.rooms) [
  | none ↦ s
  | some state ↦
      set_index s (drop_room_if_idle (release_flight s.index room state digest serial) room)
]

-- The settlement of `commit_upload`, once the flight is found.
unfoldable pub settle : Index → RoomId → RoomState → Text → InFlight → ℕ → ℕ → Index
settle index room state digest flight bytes now =
    let settled = charge_for bytes in
    let replaced = weight (λ p. p.charged) (get digest state.stored) in
    record {
      rooms =
          insert room
            (record state {
              uploading = remove digest state.uploading;
              stored =
                  insert digest
                    (record {
                      bytes = bytes;
                      charged = settled;
                      expires_at = now + payload_time_to_live;
                    })
                    state.stored;
              charged = recharge state.charged settled flight.charged - replaced;
            })
            index.rooms;
      charged = recharge index.charged settled flight.charged - replaced;
    }

unfoldable pub commit_upload :
    Store → RoomId → Text → ℕ → ℕ → ℕ → Result (Unit {0}) UploadError × Store
commit_upload s room digest serial bytes now = elim (get room s.index.rooms) [
  | none ↦ (err room_gone, s)
  | some state ↦ elim (own_flight digest serial state) [
    | none ↦ (err room_gone, s)
    | some flight ↦ (ok tt, set_index s (settle s.index room state digest flight bytes now))
  ]
]
