-- ===== src/Blob/Fetching.antt =====
-- Which payloads of server/src/blob.rs can be fetched: those that were committed, until they
-- expire or their room ends.
use omp_relayd.Base.{
  ℕ, ◌+◌, ◌≤◌, ◌≡◌, refl, subst, inl, inr, some, none, Option, Option-cases, arith, ok, text_eq,
  ltb, if◌then◌else◌, not, true, is_empty, ite, [], ◌∷◌,
}
use omp_relayd.Base.Map.{Map, get, retain, keep, get-insert_self, get-remove, get-retain}
use omp_relayd.Base.Map.Sums.{map_values, get-map_values, Uniq-map_values}
use omp_relayd.Protocol.Limits.{Text, RoomId, room_id_eq}
use omp_relayd.Blob.Types.{
  Index, RoomState, Store, Payload, InFlight, payload_time_to_live, charge_for,
}
use omp_relayd.Blob.Expiry.{forget_room, sweep, sweep_index, sweep_room}
use omp_relayd.Blob.Index.{is_live, live_payload, payload_len}
use omp_relayd.Blob.Uploads.{commit_upload, settle, own_flight, is_spent}
use omp_relayd.Blob.Invariant.{IsIndex, IsRoom, get-IsRoom}

-- What the index lists at an address.
unfoldable pub stored_in : Text → Option RoomState → Option Payload
stored_in digest none = none
stored_in digest (some s) = get digest s.stored

unfoldable pub stored_at : Index → RoomId → Text → Option Payload
unfolding stored_in
stored_at x room digest = stored_in digest (get room x.rooms)

abbrev pub length_of : Option Payload → Option ℕ
length_of none = none
length_of (some p) = some p.bytes

pub payload_len_lem :
    (s : Store) (room : RoomId) (digest : Text) (now : ℕ)
    → payload_len s room digest now ≡ length_of (keep (is_live now) (stored_at s.index room digest))
unfolding payload_len stored_at live_payload
payload_len_lem s room digest now = ground arith

commit_upload_cases :
    (s : Store) (room : RoomId) (digest : Text) (serial bytes now : ℕ)
    → (commit_upload s room digest serial bytes now).0 ≡ ok tt
    → (state : RoomState) × (flight : InFlight) × (get room s.index.rooms ≡ some state)
      × ((commit_upload s room digest serial bytes now).1.index
          ≡ settle s.index room state digest flight bytes now)
unfolding commit_upload
commit_upload_cases s room digest serial bytes now h =
    elim (Option-cases (get room s.index.rooms)) [
      | inl missing ↦ absurd (ground arith)
      | inr (state, e) ↦ elim (Option-cases (own_flight digest serial state)) [
        | inl other ↦ absurd (ground arith)
        | inr (flight, mine) ↦ (state, flight, e, rw (e, mine, commit_upload))
      ]
    ]

stored_at-settle :
    (x : Index) (room : RoomId) (state : RoomState) (digest : Text) (flight : InFlight)
    (bytes now : ℕ)
    → stored_at (settle x room state digest flight bytes now) room digest
      ≡ some (record {
        bytes = bytes;
        charged = charge_for bytes;
        expires_at = now + payload_time_to_live;
      })
unfolding stored_at settle
stored_at-settle x room state digest flight bytes now =
    rw (get-insert_self room, stored_at) (get-insert_self digest _ state.stored)

-- A committed payload is fetchable, with the length that was committed, for two hours and no
-- longer.
pub payload_len-commit_upload :
    (s : Store) (room : RoomId) (digest : Text) (serial bytes now later : ℕ)
    → (commit_upload s room digest serial bytes now).0 ≡ ok tt
    → payload_len (commit_upload s room digest serial bytes now).1 room digest later
      ≡ (if ltb later (now + 7200000000000) then some bytes else none)
payload_len-commit_upload s room digest serial bytes now later h =
    let (state, flight, e, same) = commit_upload_cases s room digest serial bytes now h in
    rw (payload_len_lem, same, stored_at-settle s.index room state digest flight bytes now)
      (ground arith)

get-empty : (digest : Text) (m : Map Text Payload) → is_empty m ≡ true → get digest m ≡ none
unfolding get
get-empty digest [] h = refl
get-empty digest (e ∷ m) h = cc

-- What a room's sweep, and the removal of a spent room, leave at an address.
swept_room :
    (now : ℕ) (digest : Text) (s : RoomState)
    → IsRoom s
    → stored_in digest (keep (λ s. not (is_spent s)) (some (sweep_room now s)))
      ≡ keep (is_live now) (get digest s.stored)
unfolding stored_in is_spent sweep_room
swept_room now digest s v =
    let left = get-retain digest (is_live now) s.stored v.stored_uniq in
    ground (arith, left, get-empty digest (retain (is_live now) s.stored))

stored_at-sweep_index :
    (x : Index) (room : RoomId) (digest : Text) (now : ℕ)
    → IsIndex x
    → stored_at (sweep_index x now) room digest ≡ keep (is_live now) (stored_at x room digest)
unfolding stored_at sweep_index
stored_at-sweep_index x room digest now v =
    let swept = map_values (sweep_room now) x.rooms in
    let kept =
      get-retain room (λ s. not (is_spent s)) swept
        (Uniq-map_values (sweep_room now) x.rooms v.rooms_uniq) in
    rw (kept, get-map_values (sweep_room now) room x.rooms)
      (elim (Option-cases (get room x.rooms)) [
        | inl missing ↦ rw missing (unfold stored_in in refl)
        | inr (s, e) ↦ rw e (swept_room now digest s (get-IsRoom x room v e))
      ])

sweep-index : (s : Store) (now : ℕ) → (sweep s now).1.index ≡ sweep_index s.index now
unfolding sweep
sweep-index s now = refl

still_live :
    (now later : ℕ) (o : Option Payload)
    → now ≤ later
    → keep (is_live later) (keep (is_live now) o) ≡ keep (is_live later) o
still_live now later none h = refl
still_live now later (some p) h = ground arith

-- A sweep takes away nothing that can still be fetched, at its own time or later.
pub payload_len-sweep :
    (s : Store) (room : RoomId) (digest : Text) (now later : ℕ)
    → IsIndex s.index
    → now ≤ later
    → payload_len (sweep s now).1 room digest later ≡ payload_len s room digest later
payload_len-sweep s room digest now later v h =
    rw
      (
        payload_len_lem,
        payload_len_lem s room digest later,
        sweep-index s now,
        stored_at-sweep_index s.index room digest now v,
        still_live now later (stored_at s.index room digest) h,
      )
      refl

-- A forgotten room has nothing to fetch, and every other room has what it had.
pub payload_len-forget_room :
    (s : Store) (room r : RoomId) (digest : Text) (now : ℕ)
    → payload_len (forget_room s room) r digest now
      ≡ ite (room_id_eq.dec room r) none (payload_len s r digest now)
unfolding payload_len forget_room
payload_len-forget_room s room r digest now =
    ground (arith, get-remove r room s.index.rooms, missing_room)
  where
    missing_room : get room s.index.rooms ≡ none → room ≡ r → get r s.index.rooms ≡ none
    missing_room e same = subst (λ r. get r s.index.rooms ≡ none) same e
