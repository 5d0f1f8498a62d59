-- ===== src/Blob/Flights.antt =====
-- The uploads in flight, under every operation of server/src/blob.rs: none appears but the one
-- that `begin_upload` starts, and none changes its serial or its charge.
use omp_relayd.Base.{
  ℕ, ◌≡◌, refl, subst, ◌∙◌, inl, inr, some, none, Option, Option-cases, Bool-cases, arith, text_eq,
  ltb, ite,
}
use omp_relayd.Base.Map.{Map, get, insert, remove, get-insert, get-remove}
use omp_relayd.Protocol.Limits.{Text, RoomId, room_id_eq}
use omp_relayd.Blob.Types.{
  InFlight, RoomState, Index, Store, max_payload_bytes, max_room_bytes, max_store_bytes, charge_for,
}
use omp_relayd.Blob.Expiry.{forget_room}
use omp_relayd.Blob.Index.{
  or_default, admit_reservation, reserve, held, recharge, room_charged, reservation_charge,
}
use omp_relayd.Blob.Uploads.{
  own_flight, is_spent, drop_room_if_idle, release_flight, abandon_upload, settle, commit_upload,
}

unfoldable pub flight_in : Text → Option RoomState → Option InFlight
flight_in digest none = none
flight_in digest (some state) = get digest state.uploading

unfoldable pub flight_at : Index → RoomId → Text → Option InFlight
unfolding flight_in
flight_at x room digest = flight_in digest (get room x.rooms)

-- Every flight of `y` is one of `x`.
abbrev pub Keeps : Index → Index → Type 0
Keeps x y =
    (room : RoomId) (digest : Text) (f : InFlight)
    → flight_at y room digest ≡ some f
    → flight_at x room digest ≡ some f

pub Keeps-trans : (x y z : Index) → Keeps x y → Keeps y z → Keeps x z
Keeps-trans x y z h k room digest f e = h room digest f (k room digest f e)

pub flight_at-insert :
    (x : Index) (room : RoomId) (state : RoomState) (charged : ℕ) (r : RoomId) (digest : Text)
    → flight_at (record { rooms = insert room state x.rooms; charged = charged }) r digest
      ≡ ite (room_id_eq.dec room r) (get digest state.uploading) (flight_at x r digest)
unfolding flight_at
flight_at-insert x room state charged r digest = ground (arith, get-insert r room state x.rooms)

flight_at-remove :
    (x : Index) (room : RoomId) (charged : ℕ) (r : RoomId) (digest : Text)
    → flight_at (record { rooms = remove room x.rooms; charged = charged }) r digest
      ≡ ite (room_id_eq.dec room r) none (flight_at x r digest)
unfolding flight_at
flight_at-remove x room charged r digest = ground (arith, get-remove r room x.rooms)

pub flight_at-room :
    (x : Index) (room : RoomId) (digest : Text) {found : Option RoomState}
    → get room x.rooms ≡ found
    → flight_at x room digest ≡ flight_in digest found
unfolding flight_at
flight_at-room x room digest e = rw e

-- A room whose flights were there before.
pub insert-Keeps :
    (x : Index) (room : RoomId) (state : RoomState) (charged : ℕ)
    → ((digest : Text) (f : InFlight)
        → get digest state.uploading ≡ some f
        → flight_at x room digest ≡ some f)
    → Keeps x (record { rooms = insert room state x.rooms; charged = charged })
insert-Keeps x room state charged h r digest f e = elim (room_id_eq.dec room r) [
  | yes same ↦
      subst (λ r. flight_at x r digest ≡ some f) same
        (h digest f (ground (arith, flight_at-insert x room state charged r digest)))
  | no other ↦ ground (arith, flight_at-insert x room state charged r digest)
]

remove-Keeps :
    (x : Index) (room : RoomId) (charged : ℕ)
    → Keeps x (record { rooms = remove room x.rooms; charged = charged })
remove-Keeps x room charged r digest f e = ground (arith, flight_at-remove x room charged r digest)

pub get-remove-some :
    (j k : Text) (m : Map Text InFlight) {f : InFlight}
    → get j (remove k m) ≡ some f
    → get j m ≡ some f
get-remove-some j k m h = ground (arith, get-remove j k m)

admit_reservation-Keeps :
    (s : Store) (room : RoomId) (digest : Text) (bytes now : ℕ) (found : Option RoomState)
    → get room s.index.rooms ≡ found
    → Keeps s.index (admit_reservation s room digest bytes now found).1.index
unfolding admit_reservation
admit_reservation-Keeps s room digest bytes now found e =
    let charged = charge_for bytes in
    let released = reservation_charge digest found in
    elim (Bool-cases (ltb max_room_bytes (recharge (room_charged found) charged released))) [
      | inl full ↦ rw (full, admit_reservation) (λ r d f h. h)
      | inr room_fits ↦
          elim (Bool-cases (ltb max_store_bytes (recharge s.index.charged charged released))) [
            | inl full ↦ rw (room_fits, full, admit_reservation) (λ r d f h. h)
            | inr fits ↦
                rw (room_fits, fits, admit_reservation)
                  (insert-Keeps s.index room _ _
                    (λ d f h. flight_at-room s.index room d e ∙ kept found d f h))
          ]
    ]
  where
    kept :
        (found : Option RoomState) (d : Text) (f : InFlight)
        → get d (or_default found).uploading ≡ some f
        → flight_in d found ≡ some f
    kept none d f h = unfold get in cc
    kept (some state) d f h = unfold flight_in in h

pub reserve-Keeps :
    (s : Store) (room : RoomId) (digest : Text) (bytes now : ℕ)
    → Keeps s.index (reserve s room digest bytes now).1.index
unfolding reserve
reserve-Keeps s room digest bytes now = elim (Bool-cases (ltb max_payload_bytes bytes)) [
  | inl large ↦ rw large (λ r d f h. h)
  | inr small ↦ elim (Option-cases (held now digest (get room s.index.rooms))) [
    | inl free ↦ rw (small, free) (admit_reservation-Keeps s room digest bytes now _ refl)
    | inr (remaining, e) ↦ rw (small, e) (λ r d f h. h)
  ]
]

release_flight-Keeps :
    (x : Index) (room : RoomId) (state : RoomState) (digest : Text) (serial : ℕ)
    → get room x.rooms ≡ some state
    → Keeps x (release_flight x room state digest serial)
unfolding release_flight flight_in
release_flight-Keeps x room state digest serial e =
    elim (Option-cases (own_flight digest serial state)) [
      | inl other ↦ rw (other, release_flight) (λ r d f h. h)
      | inr (flight, mine) ↦
          rw (mine, release_flight)
            (insert-Keeps x room _ _
              (λ d f h. flight_at-room x room d e ∙ get-remove-some d digest state.uploading h))
    ]

drop_room_if_idle-Keeps : (x : Index) (room : RoomId) → Keeps x (drop_room_if_idle x room)
unfolding drop_room_if_idle
drop_room_if_idle-Keeps x room = elim (Option-cases (get room x.rooms)) [
  | inl missing ↦ rw (missing, drop_room_if_idle) (λ r d f h. h)
  | inr (s, e) ↦ elim (Bool-cases (is_spent s)) [
    | inl spent ↦ rw (e, spent, drop_room_if_idle) (remove-Keeps x room x.charged)
    | inr used ↦ rw (e, used, drop_room_if_idle) (λ r d f h. h)
  ]
]

pub abandon_upload-Keeps :
    (s : Store) (room : RoomId) (digest : Text) (serial : ℕ)
    → Keeps s.index (abandon_upload s room digest serial).index
unfolding abandon_upload
abandon_upload-Keeps s room digest serial = elim (Option-cases (get room s.index.rooms)) [
  | inl missing ↦ rw (missing, abandon_upload) (λ r d f h. h)
  | inr (state, e) ↦
      rw (e, abandon_upload)
        (Keeps-trans s.index _ _ (release_flight-Keeps s.index room state digest serial e)
          (drop_room_if_idle-Keeps _ room))
]

pub commit_upload-Keeps :
    (s : Store) (room : RoomId) (digest : Text) (serial bytes now : ℕ)
    → Keeps s.index (commit_upload s room digest serial bytes now).1.index
unfolding commit_upload settle flight_in
commit_upload-Keeps s room digest serial bytes now = elim (Option-cases (get room s.index.rooms)) [
  | inl missing ↦ rw (missing, commit_upload) (λ r d f h. h)
  | inr (state, e) ↦ elim (Option-cases (own_flight digest serial state)) [
    | inl other ↦ rw (e, other, commit_upload) (λ r d f h. h)
    | inr (flight, mine) ↦
        rw (e, mine, commit_upload)
          (insert-Keeps s.index room _ _
            (λ d f h. flight_at-room s.index room d e ∙ get-remove-some d digest state.uploading h))
  ]
]

pub forget_room-Keeps : (s : Store) (room : RoomId) → Keeps s.index (forget_room s room).index
unfolding forget_room
forget_room-Keeps s room = elim (Option-cases (get room s.index.rooms)) [
  | inl missing ↦ rw (missing, forget_room) (λ r d f h. h)
  | inr (state, e) ↦ rw (e, forget_room) (remove-Keeps s.index room _)
]
