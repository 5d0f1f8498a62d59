-- ===== src/Tests/Uploads.antt =====
-- An upload of server/src/blob.rs that finishes, on a concrete store.
use omp_relayd.Base.{
  text-discrete, ℕ_discrete, ℕ, ◌≡◌, refl, true, false, List, [], ◌∷◌, some, ok, text_eq,
}
use omp_relayd.Base.Text.{codes}
use omp_relayd.Base.Map.{get, insert, remove}
use omp_relayd.Protocol.Limits.{RoomId, RoomId-discrete, room_id_eq}
use omp_relayd.Blob.Types.{Store, Upload}
use omp_relayd.Blob.Uploads.{commit_upload, own_flight, settle}
use omp_relayd.Blob.Digest.{base64url}
use omp_relayd.Blob.Transfer.{Io, finish, commit, publish_file, publish}
use omp_relayd.Blob.Finishing.{finish-IsFetchable, IsFetchable}

-- A hash of one byte.
abbrev first_byte : List ℕ → List ℕ
first_byte [] = 0 ∷ []
first_byte (b ∷ bytes) = b ∷ []

abbrev room : RoomId
room = record { project = codes "omp"; task = codes "main" }

-- A store with an upload of the address `Bw` in flight.
abbrev flying : Store
flying = record {
  root = codes "tmp" ∷ [];
  index = record {
    rooms =
        (
          room,
          record {
            reserved = [];
            uploading = (codes "Bw", record { serial = 0; charged = 65536 }) ∷ [];
            stored = [];
            charged = 65536;
          },
        )
        ∷ [];
    charged = 65536;
  };
  removals = [];
  next_serial = 1;
}

abbrev whole : Upload
whole = record {
  room = room;
  digest = codes "Bw";
  serial = 0;
  declared = 2;
  hasher = 7 ∷ 8 ∷ [];
  written = 2;
  temp = some (codes "tmp" ∷ codes "x" ∷ []);
  file = true;
  settled = false;
}

abbrev all_done : Io
all_done = record { dir_made = true; file_made = true; done = true }

whole_finished : (finish first_byte flying whole all_done 5).result ≡ ok 2
unfolding finish commit publish_file publish commit_upload own_flight settle get insert remove
    base64url RoomId-discrete text-discrete ℕ_discrete
whole_finished = refl

finish-IsFetchable_example :
    (base64url (7 ∷ []) ≡ codes "Bw")
    × (whole.declared ≡ whole.declared)
    × IsFetchable (finish first_byte flying whole all_done 5).store whole 2 5
finish-IsFetchable_example = finish-IsFetchable first_byte flying whole all_done 5 2 whole_finished
