-- ===== src/Tests.antt =====
-- Runs of the modelled code of server/src on concrete inputs.
mod Queues
mod Texts
mod Stores
mod Peers
mod Frames
mod Deliveries
mod Reads
mod Requests
mod Commands
mod Connections
mod Paths
mod Rooms
mod Disks
mod Uploads
