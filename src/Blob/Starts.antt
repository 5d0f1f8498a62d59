-- ===== src/Blob/Starts.antt =====
-- What `begin_upload` and `sweep` of server/src/blob.rs do to the uploads in flight.
use omp_relayd.Base.{
  ℕ, ◌≤◌, ◌≡◌, refl, subst, ◌∙◌, ◌⊎◌, inl, inr, some, none, Option, Option-cases, Bool-cases, arith,
  text_eq, false, ltb, leb, not, ap, is_some, ok, err, Result,
}
use omp_relayd.Base.Map.{Map, get, insert, remove, keep, get-insert, get-insert_self, get-retain}
use omp_relayd.Base.Map.Sums.{map_values, get-map_values, on_value, AllValues-get, Uniq-map_values}
use omp_relayd.Protocol.Limits.{Text, RoomId, room_id_eq, add64}
use omp_relayd.Blob.Types.{
  Reservation, InFlight, RoomState, Index, Store, Upload, Accepted, upload, already_held,
  UploadRefusal, max_payload_bytes, charge_for,
}
use omp_relayd.Blob.Expiry.{sweep_room, sweep_index}
use omp_relayd.Blob.Index.{live_payload}
use omp_relayd.Blob.Uploads.{start_upload, claim_reservation, begin_upload, is_spent}
use omp_relayd.Blob.Invariant.{IsIndex, IsReservation, get-IsRoom, charge_for_mono}
use omp_relayd.Blob.Flights.{
  flight_in, flight_at, Keeps, flight_at-insert, flight_at-room, insert-Keeps,
}

-- The flight of this serial, if it is still there, was charged for `bytes`.
abbrev pub IsBacked : Index → Upload → Type 0
IsBacked x u =
    (f : InFlight)
    → flight_at x u.room u.digest ≡ some f
    → f.serial ≡ u.serial
    → charge_for u.declared ≤ f.charged

-- What an accepted upload starts from.
pub record IsStarted (s : Store) (room : RoomId) (digest : Text) (declared : ℕ) (u : Upload)
    (s' : Store) : Type 0 where
  pub in_room : u.room ≡ room
  pub addressed : u.digest ≡ digest
  pub promised : u.declared ≡ declared
  pub numbered : u.serial ≡ s.next_serial
  pub empty : u.written ≡ 0
  pub unsettled : u.settled ≡ false
  pub small : declared ≤ max_payload_bytes
  pub backed : IsBacked s'.index u
  pub advanced : s'.next_serial ≡ add64 s.next_serial 1
  -- Every other flight was there before.
  pub others :
      (r : RoomId) (d : Text) (f : InFlight)
      → flight_at s'.index r d ≡ some f
      → (flight_at s.index r d ≡ some f) ⊎ (f.serial ≡ s.next_serial)

abbrev pub Begun : Store → RoomId → Text → ℕ → Result Accepted UploadRefusal × Store → Type 0
Begun s room digest declared (ok (upload u), s') = IsStarted s room digest declared u s'
Begun s room digest declared (ok already_held, s') = s' ≡ s
Begun s room digest declared (err e, s') =
    Keeps s.index s'.index
    × ((s'.next_serial ≡ s.next_serial) ⊎ (s'.next_serial ≡ add64 s.next_serial 1))

-- A room's state with one more flight.
launched_flight :
    (x : Index) (room : RoomId) (state : RoomState) (charged : ℕ) (digest : Text)
    (flight : InFlight) (before : Map Text InFlight)
    → state.uploading ≡ insert digest flight before
    → flight_at (record { rooms = insert room state x.rooms; charged = charged }) room digest
      ≡ some flight
launched_flight x room state charged digest flight before e = ground (
  arith,
  flight_at-insert x room state charged room digest,
  ap (get digest) e,
  get-insert_self digest flight before,
)

launched_others :
    (x : Index) (room : RoomId) (state : RoomState) (charged : ℕ) (digest : Text)
    (flight : InFlight) (before : Map Text InFlight)
    → state.uploading ≡ insert digest flight before
    → ((d : Text) → flight_at x room d ≡ get d before)
    → (r : RoomId) (d : Text) (f : InFlight)
    → flight_at (record { rooms = insert room state x.rooms; charged = charged }) r d ≡ some f
    → (flight_at x r d ≡ some f) ⊎ (f.serial ≡ flight.serial)
launched_others x room state charged digest flight before e same r d f h =
    elim (room_id_eq.dec room r) [
      | yes here ↦
          subst (λ r. (flight_at x r d ≡ some f) ⊎ (f.serial ≡ flight.serial)) here
            (ground (
              arith,
              flight_at-insert x room state charged r d,
              ap (get d) e,
              get-insert d digest flight before,
              same d,
            ))
      | no other ↦ inl (ground (arith, flight_at-insert x room state charged r d))
    ]

start_upload-Begun :
    (s : Store) (room : RoomId) (state : RoomState) (digest : Text) (declared : ℕ) (r : Reservation)
    → IsIndex s.index
    → get room s.index.rooms ≡ some state
    → get digest state.reserved ≡ some r
    → declared ≤ r.declared
    → Begun s room digest declared (start_upload s room state digest declared r)
unfolding start_upload flight_in
start_upload-Begun s room state digest declared r v e f h =
    let w = get-IsRoom s.index room v e in
    let legal = AllValues-get IsReservation digest state.reserved w.reservations f in
    let flight : InFlight = record { serial = s.next_serial; charged = r.charged } in
    let launched : RoomState = record state {
      reserved = remove digest state.reserved;
      uploading = insert digest flight state.uploading;
    } in
    elim (Option-cases (get digest state.uploading)) [
      | inl free ↦
          rw (free, start_upload)
            (record {
              in_room = refl;
              addressed = refl;
              promised = refl;
              numbered = refl;
              empty = refl;
              unsettled = refl;
              small = omega (arith, legal.0);
              backed = λ g at_new mine.
                  let same =
                    launched_flight s.index room launched s.index.charged digest flight
                      state.uploading refl in
                  ground
                    (arith, same, at_new, legal.1, charge_for_mono declared r.declared h legal.0);
              advanced = refl;
              others =
                  launched_others s.index room launched s.index.charged digest flight
                    state.uploading refl (λ d. flight_at-room s.index room d e);
            })
      | inr (flight, busy) ↦
          rw (busy, start_upload)
            (insert-Keeps s.index room _ _ (λ d f h. flight_at-room s.index room d e ∙ h), inr refl)
    ]

pub begin_upload-Begun :
    (s : Store) (room : RoomId) (digest : Text) (declared now : ℕ)
    → IsIndex s.index
    → Begun s room digest declared (begin_upload s room digest declared now)
unfolding begin_upload claim_reservation
begin_upload-Begun s room digest declared now v = elim (Option-cases (get room s.index.rooms)) [
  | inl missing ↦ rw (missing, begin_upload, claim_reservation) ((λ r d f h. h), inl refl)
  | inr (state, e) ↦ elim (Bool-cases (is_some (live_payload now digest state))) [
    | inl live ↦ rw (e, live, begin_upload, claim_reservation) refl
    | inr dead ↦ elim (Option-cases (get digest state.reserved)) [
      | inl unknown ↦
          rw (e, dead, unknown, begin_upload, claim_reservation) ((λ r d f h. h), inl refl)
      | inr (r, f) ↦ elim (Bool-cases (leb r.expires_at now)) [
        | inl late ↦
            rw (e, dead, f, late, begin_upload, claim_reservation) ((λ r d f h. h), inl refl)
        | inr timely ↦ elim (Bool-cases (ltb r.declared declared)) [
          | inl over ↦
              rw (e, dead, f, timely, over, begin_upload, claim_reservation)
                ((λ r d f h. h), inl refl)
          | inr fits ↦
              rw (e, dead, f, timely, fits, begin_upload, claim_reservation)
                (start_upload-Begun s room state digest declared r v e f (ground arith))
        ]
      ]
    ]
  ]
]

swept_flight :
    (now : ℕ) (digest : Text) (found : Option RoomState) (f : InFlight)
    → flight_in digest (keep (λ state. not (is_spent state)) (on_value (sweep_room now) found))
      ≡ some f
    → flight_in digest found ≡ some f
unfolding flight_in sweep_room
swept_flight now digest none f h = h
swept_flight now digest (some state) f h = ground arith

pub sweep_index-Keeps : (x : Index) (now : ℕ) → IsIndex x → Keeps x (sweep_index x now)
unfolding sweep_index flight_at
sweep_index-Keeps x now v room digest f h = swept_flight now digest (get room x.rooms) f (
    subst (λ o. flight_in digest o ≡ some f)
      (get-retain room _ (map_values (sweep_room now) x.rooms)
          (Uniq-map_values (sweep_room now) x.rooms v.rooms_uniq)
        ∙ ap (keep (λ state. not (is_spent state))) (get-map_values (sweep_room now) room x.rooms))
      h)
