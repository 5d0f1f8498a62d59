-- ===== src/Blob/Invariant.antt =====
-- What holds of the index of server/src/blob.rs between two operations: each room's charge is the
-- sum over its three tables, the store's is the sum over the rooms, and both are under their
-- ceilings.
use omp_relayd.Base.{ℕ, ◌+◌, ◌≤◌, ◌≡◌, refl, some, none, Option, arith, text_eq}
use omp_relayd.Base.Map.{get, insert, Uniq, Uniq-insert}
use omp_relayd.Base.Map.Sums.{sum, AllValues, sum-insert, AllValues-insert, AllValues-get}
use omp_relayd.Protocol.Limits.{RoomId, room_id_eq}
use omp_relayd.Blob.Types.{
  Reservation, Payload, InFlight, RoomState, Index, default_room, default_index, charge_for,
  max_payload_bytes, max_room_bytes, max_store_bytes, min_charge_bytes,
}
use omp_relayd.Blob.Index.{room_charged, or_default}

pub charge_for_bounds :
    (bytes : ℕ)
    → bytes ≤ max_payload_bytes
    → (bytes ≤ charge_for bytes)
      × (min_charge_bytes ≤ charge_for bytes)
      × (charge_for bytes ≤ max_payload_bytes)
unfolding charge_for
charge_for_bounds bytes h = omega arith

pub charge_for_mono : (a b : ℕ) → a ≤ b → b ≤ max_payload_bytes → charge_for a ≤ charge_for b
unfolding charge_for
charge_for_mono a b h k = omega arith

abbrev pub reservation_sum : RoomState → ℕ
reservation_sum s = sum (λ r. r.charged) s.reserved

abbrev pub flight_sum : RoomState → ℕ
flight_sum s = sum (λ f. f.charged) s.uploading

abbrev pub payload_sum : RoomState → ℕ
payload_sum s = sum (λ p. p.charged) s.stored

abbrev pub IsReservation : Reservation → Type 0
IsReservation r = (r.declared ≤ max_payload_bytes) × (r.charged ≡ charge_for r.declared)

abbrev pub IsFlight : InFlight → Type 0
IsFlight f = (min_charge_bytes ≤ f.charged) × (f.charged ≤ max_payload_bytes)

abbrev pub IsPayload : Payload → Type 0
IsPayload p = (p.bytes ≤ max_payload_bytes) × (p.charged ≡ charge_for p.bytes)

pub record IsRoom (s : RoomState) : Type 0 where
  pub counted : s.charged ≡ reservation_sum s + flight_sum s + payload_sum s
  pub bounded : s.charged ≤ max_room_bytes
  pub reserved_uniq : Uniq s.reserved
  pub uploading_uniq : Uniq s.uploading
  pub stored_uniq : Uniq s.stored
  pub reservations : AllValues IsReservation s.reserved
  pub flights : AllValues IsFlight s.uploading
  pub payloads : AllValues IsPayload s.stored

pub record IsIndex (x : Index) : Type 0 where
  pub rooms_uniq : Uniq x.rooms
  pub all_rooms : AllValues IsRoom x.rooms
  pub total : x.charged ≡ sum (λ s. s.charged) x.rooms
  pub under_ceiling : x.charged ≤ max_store_bytes

pub default_index-IsIndex : IsIndex default_index
default_index-IsIndex = record {
  rooms_uniq = tt;
  all_rooms = tt;
  total = refl;
  under_ceiling = omega arith;
}

pub default_room-IsRoom : IsRoom default_room
default_room-IsRoom = record {
  counted = refl;
  bounded = omega arith;
  reserved_uniq = tt;
  uploading_uniq = tt;
  stored_uniq = tt;
  reservations = tt;
  flights = tt;
  payloads = tt;
}

pub get-IsRoom :
    (x : Index) (room : RoomId) {s : RoomState} → IsIndex x → get room x.rooms ≡ some s → IsRoom s
get-IsRoom x room v e = AllValues-get IsRoom room x.rooms v.all_rooms e

pub or_default-IsRoom :
    (x : Index) (room : RoomId)
    → IsIndex x
    → (found : Option RoomState) → get room x.rooms ≡ found
    → IsRoom (or_default found)
or_default-IsRoom x room v none e = default_room-IsRoom
or_default-IsRoom x room v (some s) e = get-IsRoom x room v e

-- A room's new state, and the store's new charge that goes with it.
pub insert-IsIndex :
    (x : Index) (room : RoomId) (s : RoomState) (charged : ℕ)
    → IsIndex x
    → IsRoom s
    → charged + room_charged (get room x.rooms) ≡ x.charged + s.charged
    → charged ≤ max_store_bytes
    → IsIndex (record { rooms = insert room s x.rooms; charged = charged })
insert-IsIndex x room s charged v r e h = record {
  rooms_uniq = Uniq-insert room s x.rooms v.rooms_uniq;
  all_rooms = AllValues-insert IsRoom room s x.rooms r v.all_rooms;
  total = grind (arith, sum-insert (λ s. s.charged) room s x.rooms v.rooms_uniq);
  under_ceiling = h;
}
