-- ===== src/Blob.antt =====
-- server/src/blob.rs: the payload store.
pub mod Types
pub mod Index
pub mod Uploads
pub mod Expiry
pub mod Invariant
pub mod Rooms
pub mod Accounting
pub mod Settlement
pub mod Sweeping
pub mod Digest
pub mod Base64
pub mod RoomNames
pub mod Paths
pub mod Transfer
pub mod Files
pub mod Opening
pub mod Privacy
pub mod Successes
pub mod Opened
pub mod Untouched
pub mod Emptied
pub mod Fresh
pub mod Maintenance
pub mod Draining
pub mod Cuts
pub mod Drained
pub mod Flights
pub mod Starts
pub mod System
pub mod Moves
pub mod Writing
pub mod Safety
pub mod Ceilings
pub mod Fetching
pub mod Spared
pub mod Finishing
