-- ===== src/Relay.antt =====
-- server/src/relay.rs: the registry of peers and the frames of a connection.
pub mod Channel
pub mod Registry
pub mod Membership
pub mod Takeover
pub mod Delivery
pub mod Messages
pub mod Replies
pub mod Handlers
pub mod Answers
pub mod Conduct
pub mod Gates
pub mod Receipts
pub mod Reservations
pub mod Writer
pub mod Written
pub mod Reader
pub mod Reading
pub mod Connection
pub mod Departures
pub mod Names
pub mod Server
pub mod Leases
pub mod Delivered
pub mod Admission
pub mod Admitted
pub mod Reads
pub mod Listing
