-- ===== src/Lib.antt =====
-- omp-relayd: the relay's protocol checks, its payload store, its registry of peers, its connections
-- and its start.
--
-- The server (server/src) lets peers of a room exchange frames and hand each other payloads. It
-- has five parts, which stand here in one module each:
--
-- * Protocol (server/src/protocol.rs). Limits: the constants and RoomId. Rooms and Fields: the
--   visitor that reads a RoomId, and what it reads. Validate: validate_identifier,
--   validate_correlation_id, validate_digest, body_over_budget. Rules: what they accept. Frames:
--   ClientFrame, ServerFrame, their names, and decode. Encoding: the fields that encode hands to
--   MessagePack, and their sizes. Budget: the size of a delivery. A text is the list of its code
--   points; byte_len is its length in UTF-8, the length that Rust's str has.
-- * Blob (server/src/blob.rs). Types: the constants and the data. Index, Uploads and Expiry: what
--   Store does under its mutex (reserve and payload_len; begin_upload, abandon_upload and
--   commit_upload; forget_room and sweep). Paths: the paths, and removable. Transfer:
--   Upload::write, commit, finish and drop. Digest: base64url and the addresses. System: the store
--   with the uploads that are in progress, as a machine whose events are the calls. Files: a disk
--   and the calls of the file system. Opening: Store::open and the private directories.
--   Maintenance: remove_path, Maintenance::remove, drain and run. The other modules prove:
--   Accounting, Settlement, Sweeping, Flights, Starts, Moves, Writing and Safety the invariant of
--   the machine, Ceilings its bounds, Fetching what can be fetched, Finishing what a finished
--   upload has checked, Base64 and RoomNames the addresses, Privacy, Successes, Opened, Untouched,
--   Emptied and Fresh what Store::open refuses and leaves, Draining, Cuts, Drained and Spared
--   what the drain does.
-- * Relay (server/src/relay.rs). Registry: ServerState, register, deregister, list_peers, route,
--   fanout. Replies: the reply queue of a connection. Handlers: handle_frame, handle_send,
--   handle_announce, handle_reserve. Admission: admit and handle_inbound, as functions of what
--   was read. Reader: run_reader over what happens to a connection. Writer: run_writer over what
--   arrives and how each write ends, the best-effort write of close_with included. Connection: the choice of dispatch, register_peer,
--   run_connection and the guard that deregisters. Server: the connections of a server as a
--   machine. Membership, Takeover and Delivery prove what the registry does; Answers, Conduct,
--   Gates, Receipts, Reservations and Delivered what the handlers answer; Admitted and Reads what
--   a read leads to; Listing what list_peers gives; Reading and Written what the two loops of a connection do;
--   Departures, Names and Leases who holds the names.
-- * Http (server/src/http.rs). Targets: Target::parse and percent_decode. Headers: content_length.
--   Transfers: route, put, get and refuse_upload, for a body given by its parts. Histories: what a
--   PUT does to the store; Paths, Lengths and Routes: which paths and lengths are read, and what a
--   GET answers.
-- * Main (server/src/main.rs). Args: parse_args and the address. Start: main and run, as the acts
--   that they perform in order. Signals: Termination::recv. Commands and Refusals: which command
--   lines are accepted and refused; Service: what an accepted one leads to.
--
-- Base has the shared names: results, association lists for hash maps, texts, UTF-8, truncation.
-- Tests runs the code on concrete inputs.
--
-- Numbers: u64 and usize are natural numbers with the wrap written out (add64, sub64, mul64), u32
-- counters wrap in wrap32. An Instant is a number of nanoseconds, and each function takes the time
-- that the code reads. The drain runs on fuel, and the length of the queue is enough; every other
-- loop is structural on a list.
--
-- Parameters: SHA-256 is a function on bytes; MessagePack is encode and deserialize, and where
-- the size of what encode gives matters it is the hypothesis IsMessagePack, which Tests.Deliveries
-- shows to hold of an encoder; tokio's mpsc is the record Mpsc with the laws IsMpsc, which
-- Tests.Queues shows to hold of a bounded queue; the file system is the answers in Io for an upload,
-- and a disk with refusals for the start and the removals, where a process may be privileged to
-- change the mode of any directory; the Debug form of a character is
-- show_char.
--
-- Not modelled: serve with its grace period, and the select of pump between its two loops; the
-- connection of server/src/http.rs, its timeouts and its response headers; the length-delimited
-- codec; logging; the TypeScript extension.
-- A call of Upload::write or Upload::finish is one step of the machine, so what other tasks do
-- while it awaits the file system is not covered, and neither is the content of the files. A removal
-- of Maintenance::remove is one step too, so what happens between its check and its unlink is not
-- covered.
pub mod Base
pub mod Protocol
pub mod Blob
pub mod Relay
pub mod Http
pub mod Main
mod Tests
