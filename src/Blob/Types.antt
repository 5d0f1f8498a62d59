-- ===== src/Blob/Types.antt =====
-- The constants and the data of server/src/blob.rs. An `Instant` and a `Duration` are numbers of
-- nanoseconds.
use omp_relayd.Base.{ℕ, ◌+◌, ◌-◌, ◌*◌, ◌/◌, max, Bool, ◌&&◌, ◌==◌, List, [], is_empty, Option}
use omp_relayd.Base.Map.{Map}
use omp_relayd.Protocol.Limits.{Text, RoomId, max_frame_bytes, mul64}

abbrev pub max_payload_bytes : ℕ
max_payload_bytes = 4194304

abbrev pub max_room_bytes : ℕ
max_room_bytes = 8 * max_payload_bytes

abbrev pub max_store_bytes : ℕ
max_store_bytes = 8 * max_room_bytes

abbrev pub min_charge_bytes : ℕ
min_charge_bytes = max_frame_bytes

abbrev pub second : ℕ
second = 1000000000

abbrev pub payload_time_to_live : ℕ
payload_time_to_live = 7200 * second

abbrev pub reservation_time_to_live : ℕ
reservation_time_to_live = 60 * second

pub data Refusal : Type 0 where
  payload_too_large room_full store_full : Refusal

pub data UploadRefusal : Type 0 where
  unreserved : UploadRefusal
  over_reservation : ℕ → ℕ → UploadRefusal

pub data UploadError : Type 0 where
  digest_mismatch : Text → Text → UploadError
  length_mismatch : ℕ → ℕ → UploadError
  room_gone : UploadError
  io : UploadError

pub record Grant : Type 0 where
  pub time_to_live : ℕ

pub record Reservation : Type 0 where
  pub declared : ℕ
  pub charged : ℕ
  pub expires_at : ℕ

pub record Payload : Type 0 where
  pub bytes : ℕ
  pub charged : ℕ
  pub expires_at : ℕ

pub record InFlight : Type 0 where
  pub serial : ℕ
  pub charged : ℕ

pub record RoomState : Type 0 where
  pub reserved : Map Text Reservation
  pub uploading : Map Text InFlight
  pub stored : Map Text Payload
  pub charged : ℕ

abbrev pub default_room : RoomState
default_room = record { reserved = []; uploading = []; stored = []; charged = 0 }

unfoldable pub is_idle : RoomState → Bool
is_idle s = s.charged == 0 && is_empty s.reserved && is_empty s.uploading

pub record Index : Type 0 where
  pub rooms : Map RoomId RoomState
  pub charged : ℕ

abbrev pub default_index : Index
default_index = record { rooms = []; charged = 0 }

-- A path is the list of its components.
abbrev pub FilePath : Type 0
FilePath = List Text

pub data Removal : Type 0 where
  payload : RoomId → Text → Removal
  room : RoomId → Removal
  temp : FilePath → Removal

-- The removals queue is the list of what was sent and not yet received, oldest first.
pub record Store : Type 0 where
  pub root : FilePath
  pub index : Index
  pub removals : List Removal
  pub next_serial : ℕ

-- `hasher` holds the bytes hashed so far, and `file` says whether a handle is open. The handle on
-- the store is the store that each call takes.
pub record Upload : Type 0 where
  pub room : RoomId
  pub digest : Text
  pub serial : ℕ
  pub declared : ℕ
  pub hasher : List ℕ
  pub written : ℕ
  pub temp : Option FilePath
  pub file : Bool
  pub settled : Bool

pub data Accepted : Type 0 where
  already_held : Accepted
  upload : Upload → Accepted

pub record Swept : Type 0 where
  pub payloads : ℕ
  pub reservations : ℕ

-- `div_ceil` on u64.
abbrev div_ceil : ℕ → ℕ → ℕ
div_ceil a b = (a + b - 1) / b

unfoldable pub charge_for : ℕ → ℕ
charge_for bytes = mul64 (div_ceil (max bytes 1) min_charge_bytes) min_charge_bytes
