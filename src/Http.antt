-- ===== src/Http.antt =====
-- server/src/http.rs: the transfer of payloads.
pub mod Headers
pub mod Targets
pub mod Paths
pub mod Transfers
pub mod Routes
pub mod Lengths
pub mod Histories
