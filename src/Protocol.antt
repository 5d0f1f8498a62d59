-- ===== src/Protocol.antt =====
-- server/src/protocol.rs: the wire contract.
pub mod Limits
pub mod Validate
pub mod Rules
pub mod Frames
pub mod Rooms
pub mod Fields
pub mod Encoding
pub mod Budget
