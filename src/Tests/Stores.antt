-- ===== src/Tests/Stores.antt =====
-- The store of server/src/blob.rs on concrete histories.
use omp_relayd.Base.{
  text-discrete, ℕ_discrete, ℕ, ◌+◌, ◌≤◌, ◌≡◌, refl, some, none, List, [], ◌∷◌, arith, ok, text_eq,
  ltb, if◌then◌else◌, ite,
}
use omp_relayd.Base.Text.{codes}
use omp_relayd.Base.Map.{get, insert}
use omp_relayd.Base.Map.Sums.{sum}
use omp_relayd.Protocol.Limits.{Text, RoomId, RoomId-discrete, room_id_eq}
use omp_relayd.Blob.Types.{RoomState, Store, Payload, charge_for, default_index}
use omp_relayd.Blob.Expiry.{sweep, forget_room}
use omp_relayd.Blob.Index.{payload_len, reserve, admit_reservation, recharge, held}
use omp_relayd.Blob.Uploads.{commit_upload, settle, own_flight}
use omp_relayd.Blob.Invariant.{default_index-IsIndex}
use omp_relayd.Blob.System.{
  Event, reserves, begins, drops, forgets, sweeps, removes, open_store, run, perform,
}
use omp_relayd.Blob.Safety.{IsSystem, run-IsSystem, open_store-IsSystem, history_index}
use omp_relayd.Blob.Ceilings.{room_entries, store_entries, stored_bytes, entries}
use omp_relayd.Blob.Fetching.{
  payload_len-commit_upload, payload_len-sweep, payload_len-forget_room, stored_in, stored_at,
}

abbrev pub room : RoomId
room = record { project = codes "omp"; task = codes "main" }

abbrev pub digest : Text
digest = codes "d"

abbrev pub identity : List ℕ → List ℕ
identity bytes = bytes

abbrev pub root : List Text
root = codes "tmp" ∷ []

abbrev reserved_once : List Event
reserved_once = reserves room digest 10 0 ∷ []

abbrev busy : List Event
busy =
    reserves room digest 10 0
    ∷ begins room digest 10 1
    ∷ drops 0
    ∷ sweeps 2
    ∷ forgets room
    ∷ removes
    ∷ []

run-IsSystem_example : IsSystem (run identity (open_store root) busy)
run-IsSystem_example =
    run-IsSystem identity (open_store root) busy (open_store-IsSystem root)
      (unfold open_store in ground arith)

-- The room after its first reservation.
abbrev reserved_room : RoomState
reserved_room = record {
  reserved = (digest, record { declared = 10; charged = 65536; expires_at = 60000000000 }) ∷ [];
  uploading = [];
  stored = [];
  charged = 65536;
}

reserved_room_found :
    get room (history_index identity root reserved_once).rooms ≡ some reserved_room
unfolding RoomId-discrete text-discrete ℕ_discrete run perform open_store reserve admit_reservation
    recharge held charge_for get insert
reserved_room_found = refl

room_entries_example : entries reserved_room ≤ 512
room_entries_example =
    room_entries identity root reserved_once room reserved_room (ground arith) reserved_room_found

store_entries_test : sum entries (history_index identity root busy).rooms ≤ 4096
store_entries_test = store_entries identity root busy (ground arith)

stored_bytes_example :
    sum (λ s. sum (λ p. p.bytes) s.stored) (history_index identity root busy).rooms ≤ 268435456
stored_bytes_example = stored_bytes identity root busy (ground arith)

-- A store with an upload in flight, of serial 0.
abbrev pub flying : Store
flying = record {
  root = root;
  index = record {
    rooms =
        (
          room,
          record {
            reserved = [];
            uploading = (digest, record { serial = 0; charged = 65536 }) ∷ [];
            stored = [];
            charged = 65536;
          },
        )
        ∷ [];
    charged = 65536;
  };
  removals = [];
  next_serial = 1;
}

pub flying_commit : (commit_upload flying room digest 0 10 5).0 ≡ ok tt
unfolding RoomId-discrete text-discrete ℕ_discrete commit_upload own_flight settle get insert
flying_commit = refl

payload_len-commit_upload_example :
    payload_len (commit_upload flying room digest 0 10 5).1 room digest 7
    ≡ (if ltb 7 (5 + 7200000000000) then some 10 else none)
payload_len-commit_upload_example =
    payload_len-commit_upload flying room digest 0 10 5 7 flying_commit

abbrev pub holding : Store
holding = (commit_upload flying room digest 0 10 5).1

abbrev fresh : Store
fresh = record { root = root; index = default_index; removals = []; next_serial = 0 }

payload_len-sweep_test :
    payload_len (sweep fresh 6).1 room digest 7 ≡ payload_len fresh room digest 7
payload_len-sweep_test =
    payload_len-sweep fresh room digest 6 7 default_index-IsIndex (ground arith)

payload_len-forget_room_test :
    payload_len (forget_room holding room) room digest 7
    ≡ ite (room_id_eq.dec room room) none (payload_len holding room digest 7)
payload_len-forget_room_test = payload_len-forget_room holding room room digest 7

abbrev pub held_payload : Payload
held_payload = record { bytes = 10; charged = 65536; expires_at = 7200000000005 }

pub holding_stored : stored_at holding.index room digest ≡ some held_payload
unfolding stored_in RoomId-discrete text-discrete ℕ_discrete stored_at commit_upload own_flight
    settle get insert charge_for
holding_stored = refl
