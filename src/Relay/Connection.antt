-- ===== src/Relay/Connection.antt =====
-- The connections of server/src/relay.rs from their first byte to their end: `dispatch`,
-- `register_peer`, `run_connection`, and the guard that deregisters.
use omp_relayd.Base.{ℕ, Bool, ◌==◌, if◌then◌else◌, none, some}
use omp_relayd.Protocol.Limits.{Text, RoomId}
use omp_relayd.Protocol.Frames.{ServerFrame, hello_timeout}
use omp_relayd.Relay.Registry.{ServerState, register, deregister}
use omp_relayd.Relay.Handlers.{RegisteredPeer}
use omp_relayd.Relay.Admission.{Admission, closing}

-- What the peek at the first byte gives.
pub data Peeked : Type 0 where
  stopped elapsed hung_up unreadable : Peeked
  byte : ℕ → Peeked

-- What a connection is taken as.
pub data Taken : Type 0 where
  dropped frames transfer : Taken
  told : ServerFrame → Taken

-- `no_hello` is the text of the deadline.
unfoldable pub take_connection : Text → Bool → Peeked → Taken
take_connection no_hello has_blobs stopped = dropped
take_connection no_hello has_blobs elapsed = told (closing hello_timeout no_hello)
take_connection no_hello has_blobs hung_up = dropped
take_connection no_hello has_blobs unreadable = dropped
take_connection no_hello has_blobs (byte first) =
    if first == 0 then frames else if has_blobs then transfer else frames

module _ {Chan : Type 0} where
  unfoldable pub register_peer :
      ServerState Chan → RoomId → Text → Chan → RegisteredPeer × ServerState Chan
  unfolding register
  register_peer s room peer outbound =
      let (registration, s') = register s room peer outbound in
      (record { room = room; peer = peer; connection_id = registration.connection_id }, s')

  -- `Drop` of the guard.
  unfoldable pub drop_registered : ServerState Chan → RegisteredPeer → ServerState Chan
  unfolding deregister
  drop_registered s registered =
      (deregister s registered.room registered.peer registered.connection_id).1

  -- `ready` says whether `ready` was written in time, and `pumped` what the state is once the pump
  -- has returned.
  unfoldable pub run_connection :
      ServerState Chan
      → Admission
      → Chan
      → Bool
      → (RegisteredPeer → ServerState Chan → ServerState Chan)
      → ServerState Chan
  unfolding register_peer drop_registered
  run_connection s admission outbound ready pumped = elim admission.admitted [
    | none ↦ s
    | some (room, peer) ↦
        let (registered, s') = register_peer s room peer outbound in
        drop_registered (if ready then pumped registered s' else s') registered
  ]
