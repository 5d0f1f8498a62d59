-- ===== src/Blob/Paths.antt =====
-- The paths of server/src/blob.rs, and what a queued removal may unlink.
use omp_relayd.Base.{
  ℕ, Bool, ◌||◌, if◌then◌else◌, List, [], ◌∷◌, ◌++◌, Option, none, some, is_some, text_eq,
}
use omp_relayd.Base.Map.{get}
use omp_relayd.Base.Text.{decimal}
use omp_relayd.Protocol.Limits.{Text, RoomId, room_id_eq, add64}
use omp_relayd.Blob.Types.{RoomState, Store, FilePath, Removal, payload, room, temp}
use omp_relayd.Blob.Digest.{room_dir_name}

unfoldable pub owns_payload : Text → RoomState → Bool
owns_payload digest state =
    is_some (get digest state.stored) || is_some (get digest state.uploading)

module _ (sha256 : List ℕ → List ℕ) where
  unfoldable pub room_dir : Store → RoomId → FilePath
  room_dir s r = s.root ++ (room_dir_name sha256 r ∷ [])

  unfoldable pub payload_path : Store → RoomId → Text → FilePath
  unfolding room_dir
  payload_path s r digest = room_dir s r ++ (digest ∷ [])

  -- The path and the store with the next serial.
  unfoldable pub temp_path : Store → RoomId → Text → FilePath × Store
  unfolding room_dir
  temp_path s r digest = (
    room_dir s r ++ ((b'.' ∷ (digest ++ (b'.' ∷ decimal s.next_serial))) ∷ []),
    record s { next_serial = add64 s.next_serial 1 },
  )

  unfoldable pub removable : Store → Removal → Option FilePath
  removable s (payload r digest) = elim (get r s.index.rooms) [
    | none ↦ some (payload_path s r digest)
    | some state ↦ if owns_payload digest state then none else some (payload_path s r digest)
  ]
  removable s (room r) = if is_some (get r s.index.rooms) then none else some (room_dir s r)
  removable s (temp path) = some path
