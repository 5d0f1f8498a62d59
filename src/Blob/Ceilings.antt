-- ===== src/Blob/Ceilings.antt =====
-- The bounds that server/src/blob.rs promises, for the store after any history of calls.
use omp_relayd.Base.{ℕ, ◌+◌, ◌*◌, ◌≤◌, ◌<◌, ◌≡◌, some, List, [], ◌∷◌, arith, length, text_eq}
use omp_relayd.Base.Map.{Map, get}
use omp_relayd.Base.Map.Sums.{AllValues, AllValues-weaken, length-sum, sum}
use omp_relayd.Protocol.Limits.{RoomId, room_id_eq, u64_mod}
use omp_relayd.Blob.Types.{RoomState, FilePath, Reservation, Payload, InFlight, min_charge_bytes}
use omp_relayd.Blob.Invariant.{
  IsRoom, IsReservation, IsFlight, IsPayload, get-IsRoom, charge_for_bounds,
}
use omp_relayd.Blob.System.{Event}
use omp_relayd.Blob.Safety.{history_index, history-IsIndex}

-- The entries of a room, of all three tables.
abbrev pub entries : RoomState → ℕ
entries s = length s.reserved + length s.uploading + length s.stored

reservation_least : (r : Reservation) → IsReservation r → min_charge_bytes ≤ r.charged
reservation_least r h = omega (arith, charge_for_bounds r.declared h.0)

payload_least : (p : Payload) → IsPayload p → min_charge_bytes ≤ p.charged
payload_least p h = omega (arith, charge_for_bounds p.bytes h.0)

flight_least : (f : InFlight) → IsFlight f → min_charge_bytes ≤ f.charged
flight_least f h = h.0

entries-charged : (s : RoomState) → IsRoom s → entries s * min_charge_bytes ≤ s.charged
entries-charged s v = omega (
  arith,
  v.counted,
  length-sum (λ (r : Reservation). r.charged) min_charge_bytes s.reserved
      (AllValues-weaken IsReservation _ reservation_least s.reserved v.reservations),
  length-sum (λ (f : InFlight). f.charged) min_charge_bytes s.uploading
      (AllValues-weaken IsFlight _ flight_least s.uploading v.flights),
  length-sum (λ (p : Payload). p.charged) min_charge_bytes s.stored
      (AllValues-weaken IsPayload _ payload_least s.stored v.payloads),
)

entries-sum :
    (rooms : Map RoomId RoomState)
    → AllValues IsRoom rooms
    → sum entries rooms * min_charge_bytes ≤ sum (λ s. s.charged) rooms
entries-sum [] a = omega arith
entries-sum ((room, s) ∷ rooms) a = omega (arith, entries-charged s a.0, entries-sum rooms a.1)

-- After any history of fewer than 2^64 calls on a fresh store, a room has at most 512 entries in
-- its three tables together.
pub room_entries :
    (sha256 : List ℕ → List ℕ) (root : FilePath) (events : List Event) (room : RoomId)
    (s : RoomState)
    → length events < u64_mod
    → get room (history_index sha256 root events).rooms ≡ some s
    → entries s ≤ 512
room_entries sha256 root events room s h e =
    let w = get-IsRoom _ room (history-IsIndex sha256 root events h) e in
    omega (arith, entries-charged s w, w.bounded)

-- After any history of fewer than 2^64 calls on a fresh store, all rooms together have at most
-- 4096 entries.
pub store_entries :
    (sha256 : List ℕ → List ℕ) (root : FilePath) (events : List Event)
    → length events < u64_mod
    → sum entries (history_index sha256 root events).rooms ≤ 4096
store_entries sha256 root events h =
    let v = history-IsIndex sha256 root events h in
    omega (
      arith,
      entries-sum (history_index sha256 root events).rooms v.all_rooms,
      v.total,
      v.under_ceiling,
    )

bytes-payload_sum :
    (stored : Map (List ℕ) Payload)
    → AllValues IsPayload stored
    → sum (λ p. p.bytes) stored ≤ sum (λ p. p.charged) stored
bytes-payload_sum [] a = omega arith
bytes-payload_sum ((digest, p) ∷ m) a =
    omega (arith, a.0, charge_for_bounds p.bytes a.0.0, bytes-payload_sum m a.1)

stored_bytes-rooms :
    (rooms : Map RoomId RoomState)
    → AllValues IsRoom rooms
    → sum (λ s. sum (λ p. p.bytes) s.stored) rooms ≤ sum (λ s. s.charged) rooms
stored_bytes-rooms [] a = omega arith
stored_bytes-rooms ((room, s) ∷ rooms) a =
    omega
      (arith, a.0.counted, bytes-payload_sum s.stored a.0.payloads, stored_bytes-rooms rooms a.1)

-- After any history of fewer than 2^64 calls on a fresh store, the payloads that the index lists
-- as stored have at most 256 MiB together.
pub stored_bytes :
    (sha256 : List ℕ → List ℕ) (root : FilePath) (events : List Event)
    → length events < u64_mod
    → sum (λ s. sum (λ p. p.bytes) s.stored) (history_index sha256 root events).rooms ≤ 268435456
stored_bytes sha256 root events h =
    let v = history-IsIndex sha256 root events h in
    omega (
      arith,
      stored_bytes-rooms (history_index sha256 root events).rooms v.all_rooms,
      v.total,
      v.under_ceiling,
    )
