-- ===== src/Blob/System.antt =====
-- The store of server/src/blob.rs with the uploads that its clients hold, as a machine whose
-- events are the calls of the relay, of the transfer route and of `Maintenance`. Each runs as one
-- step: the index is only touched under the mutex.
use omp_relayd.Base.{ℕ, List, [], ◌∷◌, Option, none, some, Result, ok, err, Eq, ℕ_discrete}
use omp_relayd.Base.Map.{Map, get, insert, remove}
use omp_relayd.Protocol.Limits.{Text, RoomId}
use omp_relayd.Blob.Types.{
  Store, Upload, Accepted, already_held, upload, UploadRefusal, FilePath, default_index, Removal,
}
use omp_relayd.Blob.Expiry.{forget_room, sweep}
use omp_relayd.Blob.Index.{reserve}
use omp_relayd.Blob.Uploads.{begin_upload}
use omp_relayd.Blob.Paths.{removable}
use omp_relayd.Blob.Transfer.{Io, write, finish, drop_upload}

instance abbrev pub serial_eq : Eq ℕ
serial_eq = record { dec = ℕ_discrete }

pub record System : Type 0 where
  pub store : Store
  -- The uploads in progress, by serial.
  pub uploads : Map ℕ Upload

-- `Store::open`, after the directories are made.
unfoldable pub open_store : FilePath → System
open_store root = record {
  store = record { root = root; index = default_index; removals = []; next_serial = 0 };
  uploads = [];
}

pub data Event : Type 0 where
  reserves : RoomId → Text → ℕ → ℕ → Event
  begins : RoomId → Text → ℕ → ℕ → Event
  writes : ℕ → List ℕ → Io → Event
  finishes : ℕ → Io → ℕ → Event
  drops : ℕ → Event
  forgets : RoomId → Event
  sweeps : ℕ → Event
  removes : Event

unfoldable pub begun : System → Result Accepted UploadRefusal × Store → System
begun y (ok (upload u), s) = record { store = s; uploads = insert u.serial u y.uploads }
begun y (ok already_held, s) = record y { store = s }
begun y (err e, s) = record y { store = s }

-- `Maintenance::run` and `drain`: the oldest removal is received.
unfoldable pub receive_removal : Store → Option Removal × Store
receive_removal s = elim s.removals [
  | [] ↦ (none, s)
  | removal ∷ rest ↦ (some removal, record s { removals = rest })
]

module _ (sha256 : List ℕ → List ℕ) where
  -- `Maintenance::remove`: the path that is unlinked, if the removal is still due.
  unfoldable pub maintain : Store → Option FilePath × Store
  unfolding receive_removal
  maintain s =
      let (received, s') = receive_removal s in
      elim received [ none ↦ (none, s') | some removal ↦ (removable sha256 s' removal, s') ]

  unfoldable pub perform : System → Event → System
  unfolding begun maintain
  perform y (reserves room digest bytes now) = record y {
    store = (reserve y.store room digest bytes now).1;
  }
  perform y (begins room digest declared now) =
      begun y (begin_upload y.store room digest declared now)
  perform y (writes serial chunk answer) = elim (get serial y.uploads) [
    | none ↦ y
    | some u ↦
        let p = write sha256 y.store u chunk answer in
        record { store = p.store; uploads = insert serial p.upload y.uploads }
  ]
  perform y (finishes serial answer now) = elim (get serial y.uploads) [
    | none ↦ y
    | some u ↦ record {
      store = (finish sha256 y.store u answer now).store;
      uploads = remove serial y.uploads;
    }
  ]
  perform y (drops serial) = elim (get serial y.uploads) [
    | none ↦ y
    | some u ↦ record { store = drop_upload y.store u; uploads = remove serial y.uploads }
  ]
  perform y (forgets room) = record y { store = forget_room y.store room }
  perform y (sweeps now) = record y { store = (sweep y.store now).1 }
  perform y removes = record y { store = (maintain y.store).1 }

  unfoldable pub run : System → List Event → System
  unfolding perform
  run y [] = y
  run y (event ∷ events) = run (perform y event) events
