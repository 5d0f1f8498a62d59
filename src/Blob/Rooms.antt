-- ===== src/Blob/Rooms.antt =====
-- Each change that server/src/blob.rs makes to one room keeps the room's accounting.
use omp_relayd.Base.{ℕ, ◌+◌, ◌-◌, ◌≤◌, ◌≡◌, none, arith, text_eq}
use omp_relayd.Base.Map.{get, insert, remove, retain, Uniq-insert, Uniq-remove, Uniq-retain}
use omp_relayd.Base.Map.Sums.{
  sum, weight, sum-insert, sum-remove, sum-retain, weight-get-le, AllValues-insert,
  AllValues-remove, AllValues-retain,
}
use omp_relayd.Protocol.Limits.{Text}
use omp_relayd.Blob.Types.{Reservation, Payload, InFlight, RoomState, max_room_bytes}
use omp_relayd.Blob.Expiry.{expired_charge, sweep_room}
use omp_relayd.Blob.Index.{is_pending, is_live}
use omp_relayd.Blob.Invariant.{
  IsRoom, IsReservation, IsFlight, IsPayload, reservation_sum, payload_sum,
}

module _ (s : RoomState) (digest : Text) where
  abbrev pub reservation_weight : ℕ
  reservation_weight = weight (λ r. r.charged) (get digest s.reserved)

  abbrev pub flight_weight : ℕ
  flight_weight = weight (λ f. f.charged) (get digest s.uploading)

  abbrev pub payload_weight : ℕ
  payload_weight = weight (λ p. p.charged) (get digest s.stored)

  pub reservation-le-charged : IsRoom s → reservation_weight ≤ s.charged
  reservation-le-charged v =
      omega (arith, v.counted, weight-get-le (λ r. r.charged) digest s.reserved)

  pub flight-le-charged : IsRoom s → flight_weight ≤ s.charged
  flight-le-charged v = omega (arith, v.counted, weight-get-le (λ f. f.charged) digest s.uploading)

  pub payload-le-charged : IsRoom s → payload_weight ≤ s.charged
  payload-le-charged v = omega (arith, v.counted, weight-get-le (λ p. p.charged) digest s.stored)

  pub insert_reservation-IsRoom :
      (r : Reservation) (charged : ℕ)
      → IsRoom s
      → IsReservation r
      → charged + reservation_weight ≡ s.charged + r.charged
      → charged ≤ max_room_bytes
      → IsRoom (record s { reserved = insert digest r s.reserved; charged = charged })
  insert_reservation-IsRoom r charged v h e b = record {
    counted =
        omega (arith, v.counted, sum-insert (λ r. r.charged) digest r s.reserved v.reserved_uniq);
    bounded = b;
    reserved_uniq = Uniq-insert digest r s.reserved v.reserved_uniq;
    uploading_uniq = v.uploading_uniq;
    stored_uniq = v.stored_uniq;
    reservations = AllValues-insert IsReservation digest r s.reserved h v.reservations;
    flights = v.flights;
    payloads = v.payloads;
  }

  pub remove_reservation-IsRoom :
      IsRoom s
      → IsRoom (record s {
        reserved = remove digest s.reserved;
        charged = s.charged - reservation_weight;
      })
  remove_reservation-IsRoom v = record {
    counted =
        omega (arith, v.counted, sum-remove (λ r. r.charged) digest s.reserved v.reserved_uniq);
    bounded = omega (arith, v.bounded);
    reserved_uniq = Uniq-remove digest s.reserved v.reserved_uniq;
    uploading_uniq = v.uploading_uniq;
    stored_uniq = v.stored_uniq;
    reservations = AllValues-remove IsReservation digest s.reserved v.reservations;
    flights = v.flights;
    payloads = v.payloads;
  }

  -- An upload starts: the allowance moves from the reservation to the flight.
  pub start_flight-IsRoom :
      (f : InFlight)
      → IsRoom s
      → IsFlight f
      → f.charged ≡ reservation_weight
      → get digest s.uploading ≡ none
      → IsRoom (record s {
        reserved = remove digest s.reserved;
        uploading = insert digest f s.uploading;
      })
  start_flight-IsRoom f v h e free = record {
    counted = ground (
      arith,
      v.counted,
      sum-remove (λ r. r.charged) digest s.reserved v.reserved_uniq,
      sum-insert (λ f. f.charged) digest f s.uploading v.uploading_uniq,
    );
    bounded = v.bounded;
    reserved_uniq = Uniq-remove digest s.reserved v.reserved_uniq;
    uploading_uniq = Uniq-insert digest f s.uploading v.uploading_uniq;
    stored_uniq = v.stored_uniq;
    reservations = AllValues-remove IsReservation digest s.reserved v.reservations;
    flights = AllValues-insert IsFlight digest f s.uploading h v.flights;
    payloads = v.payloads;
  }

  pub remove_flight-IsRoom :
      IsRoom s
      → IsRoom
          (record s { uploading = remove digest s.uploading; charged = s.charged - flight_weight })
  remove_flight-IsRoom v = record {
    counted =
        omega (arith, v.counted, sum-remove (λ f. f.charged) digest s.uploading v.uploading_uniq);
    bounded = omega (arith, v.bounded);
    reserved_uniq = v.reserved_uniq;
    uploading_uniq = Uniq-remove digest s.uploading v.uploading_uniq;
    stored_uniq = v.stored_uniq;
    reservations = v.reservations;
    flights = AllValues-remove IsFlight digest s.uploading v.flights;
    payloads = v.payloads;
  }

  -- A flight settles into a stored payload, which may replace one that has expired.
  pub settle-IsRoom :
      (p : Payload) (charged : ℕ)
      → IsRoom s
      → IsPayload p
      → p.charged ≤ flight_weight
      → charged + flight_weight + payload_weight ≡ s.charged + p.charged
      → IsRoom (record s {
        uploading = remove digest s.uploading;
        stored = insert digest p s.stored;
        charged = charged;
      })
  settle-IsRoom p charged v h fits e = record {
    counted = omega (
      arith,
      v.counted,
      sum-remove (λ f. f.charged) digest s.uploading v.uploading_uniq,
      sum-insert (λ p. p.charged) digest p s.stored v.stored_uniq,
    );
    bounded = omega (arith, v.bounded);
    reserved_uniq = v.reserved_uniq;
    uploading_uniq = Uniq-remove digest s.uploading v.uploading_uniq;
    stored_uniq = Uniq-insert digest p s.stored v.stored_uniq;
    reservations = v.reservations;
    flights = AllValues-remove IsFlight digest s.uploading v.flights;
    payloads = AllValues-insert IsPayload digest p s.stored h v.payloads;
  }

  pub settle-fits : IsRoom s → flight_weight + payload_weight ≤ s.charged
  settle-fits v = omega (
    arith,
    v.counted,
    weight-get-le (λ f. f.charged) digest s.uploading,
    weight-get-le (λ p. p.charged) digest s.stored,
  )

-- What a sweep releases is what it takes out of the tables, and no more than the room's charge.
pub expired_charge_lem :
    (now : ℕ) (s : RoomState)
    → IsRoom s
    → expired_charge now s
        + sum (λ r. r.charged) (retain (is_pending now) s.reserved)
        + sum (λ p. p.charged) (retain (is_live now) s.stored)
      ≡ reservation_sum s + payload_sum s
unfolding expired_charge
expired_charge_lem now s v = omega (
  arith,
  v.counted,
  v.bounded,
  sum-retain (λ r. r.charged) (is_pending now) s.reserved,
  sum-retain (λ p. p.charged) (is_live now) s.stored,
)

pub expired_charge-le : (now : ℕ) (s : RoomState) → IsRoom s → expired_charge now s ≤ s.charged
expired_charge-le now s v = omega (arith, v.counted, expired_charge_lem now s v)

pub sweep_room-IsRoom : (now : ℕ) (s : RoomState) → IsRoom s → IsRoom (sweep_room now s)
unfolding sweep_room
sweep_room-IsRoom now s v = record {
  counted = omega (arith, v.counted, expired_charge_lem now s v);
  bounded = omega (arith, v.bounded);
  reserved_uniq = Uniq-retain (is_pending now) s.reserved v.reserved_uniq;
  uploading_uniq = v.uploading_uniq;
  stored_uniq = Uniq-retain (is_live now) s.stored v.stored_uniq;
  reservations = AllValues-retain IsReservation (is_pending now) s.reserved v.reservations;
  flights = v.flights;
  payloads = AllValues-retain IsPayload (is_live now) s.stored v.payloads;
}
