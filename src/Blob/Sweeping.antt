-- ===== src/Blob/Sweeping.antt =====
-- The operations of server/src/blob.rs that sweep keep the accounting.
use omp_relayd.Base.{
  ℕ, ◌+◌, ◌-◌, ◌≤◌, ◌≡◌, refl, inl, inr, Bool-cases, arith, [], ◌∷◌, text_eq, not,
}
use omp_relayd.Base.Map.{Map, retain, Uniq-retain}
use omp_relayd.Base.Map.Sums.{sum, AllValues, AllValues-retain, map_values, Uniq-map_values}
use omp_relayd.Protocol.Limits.{RoomId, room_id_eq}
use omp_relayd.Blob.Types.{RoomState, Index, Store}
use omp_relayd.Blob.Expiry.{sweep_room, sweep_charged, sweep_index, sweep, expired_charge}
use omp_relayd.Blob.Uploads.{is_spent}
use omp_relayd.Blob.Invariant.{IsRoom, IsIndex}
use omp_relayd.Blob.Rooms.{expired_charge-le, sweep_room-IsRoom}
use omp_relayd.Blob.Settlement.{is_spent-uncharged}

AllValues-sweep :
    (now : ℕ) (rooms : Map RoomId RoomState)
    → AllValues IsRoom rooms
    → AllValues IsRoom (map_values (sweep_room now) rooms)
AllValues-sweep now [] a = tt
AllValues-sweep now ((room, state) ∷ rooms) a =
    (sweep_room-IsRoom now state a.0, AllValues-sweep now rooms a.1)

sweep_room-charged :
    (now : ℕ) (s : RoomState) → (sweep_room now s).charged ≡ s.charged - expired_charge now s
unfolding sweep_room
sweep_room-charged now s = refl

sweep_charged-sum :
    (now charged : ℕ) (rooms : Map RoomId RoomState)
    → AllValues IsRoom rooms
    → sum (λ s. s.charged) rooms ≤ charged
    → sweep_charged now charged rooms + sum (λ s. s.charged) rooms
      ≡ charged + sum (λ s. s.charged) (map_values (sweep_room now) rooms)
unfolding sweep_charged
sweep_charged-sum now charged [] a h = refl
sweep_charged-sum now charged ((room, state) ∷ rooms) a h =
    let le = expired_charge-le now state a.0 in
    omega (
      arith,
      sweep_room-charged now state,
      sweep_charged-sum now (charged - expired_charge now state) rooms a.1 (omega arith),
    )

sum-unspent :
    (rooms : Map RoomId RoomState)
    → sum (λ s. s.charged) (retain (λ s. not (is_spent s)) rooms) ≡ sum (λ s. s.charged) rooms
unfolding retain
sum-unspent [] = refl
sum-unspent ((room, state) ∷ rooms) = elim (Bool-cases (is_spent state)) [
  | inl spent ↦
      rw (spent, retain) (omega (arith, is_spent-uncharged state spent, sum-unspent rooms))
  | inr used ↦ rw (used, retain) (omega (arith, sum-unspent rooms))
]

sweep_charged-le :
    (now charged : ℕ) (rooms : Map RoomId RoomState) → sweep_charged now charged rooms ≤ charged
unfolding sweep_charged
sweep_charged-le now charged [] = omega arith
sweep_charged-le now charged ((room, state) ∷ rooms) =
    omega (arith, sweep_charged-le now (charged - expired_charge now state) rooms)

sweep_index-IsIndex : (x : Index) (now : ℕ) → IsIndex x → IsIndex (sweep_index x now)
unfolding sweep_index
sweep_index-IsIndex x now v =
    let swept = map_values (sweep_room now) x.rooms in
    let kept = sum-unspent swept in
    let charges = sweep_charged-sum now x.charged x.rooms v.all_rooms (omega (arith, v.total)) in
    let less = sweep_charged-le now x.charged x.rooms in
    record {
      rooms_uniq = Uniq-retain _ swept (Uniq-map_values (sweep_room now) x.rooms v.rooms_uniq);
      all_rooms = AllValues-retain IsRoom _ swept (AllValues-sweep now x.rooms v.all_rooms);
      total = omega (arith, v.total);
      under_ceiling = omega (arith, v.under_ceiling);
    }

pub sweep-IsIndex : (s : Store) (now : ℕ) → IsIndex s.index → IsIndex (sweep s now).1.index
unfolding sweep
sweep-IsIndex s now v = sweep_index-IsIndex s.index now v
