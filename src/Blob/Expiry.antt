-- ===== src/Blob/Expiry.antt =====
-- What leaves the index of server/src/blob.rs: `forget_room` and `sweep`, and the queue of
-- removals.
use omp_relayd.Base.{ℕ, ◌+◌, ◌-◌, not, List, [], ◌∷◌, ◌++◌, length, none, some, text_eq}
use omp_relayd.Base.Map.{Map, get, remove, retain}
use omp_relayd.Base.Map.Sums.{sum, map_values}
use omp_relayd.Protocol.Limits.{Text, RoomId, room_id_eq, add64, wrap32}
use omp_relayd.Blob.Types.{Payload, RoomState, Index, Removal, Store, Swept}
use omp_relayd.Blob.Index.{is_live, is_pending, set_index}
use omp_relayd.Blob.Uploads.{is_spent}

abbrev pub queue_removal : Store → Removal → Store
queue_removal s removal = record s { removals = s.removals ++ (removal ∷ []) }

unfoldable pub forget_room : Store → RoomId → Store
forget_room s room = elim (get room s.index.rooms) [
  | none ↦ s
  | some state ↦
      queue_removal
        (set_index s
          (record { rooms = remove room s.index.rooms; charged = s.index.charged - state.charged }))
        (Removal.room room)
]

-- What `sweep` releases in one room. The counter wraps as u64 does.
unfoldable pub expired_charge : ℕ → RoomState → ℕ
expired_charge now state =
    add64 (sum (λ r. r.charged) (retain (λ r. not (is_pending now r)) state.reserved))
      (sum (λ p. p.charged) (retain (λ p. not (is_live now p)) state.stored))

unfoldable pub sweep_room : ℕ → RoomState → RoomState
unfolding expired_charge
sweep_room now state = record state {
  reserved = retain (is_pending now) state.reserved;
  stored = retain (is_live now) state.stored;
  charged = state.charged - expired_charge now state;
}

unfoldable pub sweep_charged : ℕ → ℕ → Map RoomId RoomState → ℕ
sweep_charged now charged [] = charged
sweep_charged now charged ((room, state) ∷ rooms) =
    sweep_charged now (charged - expired_charge now state) rooms

payload_removals : RoomId → Map Text Payload → List Removal
payload_removals room [] = []
payload_removals room ((digest, p) ∷ m) = Removal.payload room digest ∷ payload_removals room m

unfoldable pub sweep_removals : ℕ → Map RoomId RoomState → List Removal
unfolding payload_removals
sweep_removals now [] = []
sweep_removals now ((room, state) ∷ rooms) =
    payload_removals room (retain (λ p. not (is_live now p)) state.stored)
    ++ sweep_removals now rooms

-- The counters of `Swept`, before they wrap as u32 does.
unfoldable pub count_expired : ℕ → Map RoomId RoomState → ℕ × ℕ
count_expired now [] = (0, 0)
count_expired now ((room, state) ∷ rooms) =
    let (payloads, reservations) = count_expired now rooms in
    (
      length (retain (λ p. not (is_live now p)) state.stored) + payloads,
      length (retain (λ r. not (is_pending now r)) state.reserved) + reservations,
    )

unfoldable pub sweep_index : Index → ℕ → Index
sweep_index index now = record {
  rooms = retain (λ state. not (is_spent state)) (map_values (sweep_room now) index.rooms);
  charged = sweep_charged now index.charged index.rooms;
}

unfoldable pub sweep : Store → ℕ → Swept × Store
sweep s now =
    let (payloads, reservations) = count_expired now s.index.rooms in
    (
      record { payloads = wrap32 payloads; reservations = wrap32 reservations },
      record s {
        index = sweep_index s.index now;
        removals = s.removals ++ sweep_removals now s.index.rooms;
      },
    )
