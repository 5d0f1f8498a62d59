-- ===== src/Relay/Server.antt =====
-- The connections of a server of server/src/relay.rs, as a machine: a connection registers, its
-- frames are handled, and it ends, which drops its guard. Each runs as one step, under the lock of the
-- registry.
use omp_relayd.Base.{ℕ, zero, suc, List, [], ◌∷◌, Option, none, some}
use omp_relayd.Protocol.Limits.{Text, RoomId}
use omp_relayd.Protocol.Frames.{ClientFrame, ServerFrame}
use omp_relayd.Relay.Channel.{Mpsc}
use omp_relayd.Relay.Registry.{Bytes, ServerState, Deadlines, with_deadlines}
use omp_relayd.Relay.Handlers.{RegisteredPeer, handle_frame}
use omp_relayd.Relay.Connection.{register_peer, drop_registered}

-- The state, and the guards of the connections that run.
pub record Server (Chan : Type 0) : Type 0 where
  pub state : ServerState Chan
  pub live : List RegisteredPeer

-- A connection is named by its place among those that run. A frame comes with the reply queue that
-- the connection has then, and with the time.
pub data ServerEvent (Queue Chan : Type 0) : Type 0 where
  joins : RoomId → Text → Chan → ServerEvent Queue Chan
  frames : ℕ → Queue → ℕ → ClientFrame → ServerEvent Queue Chan
  leaves : ℕ → ServerEvent Queue Chan

-- An element, and the others.
unfoldable pub pick {ℓ} : {A : Type ℓ} → ℕ → List A → Option (A × List A)
pick i [] = none
pick zero (x ∷ xs) = some (x, xs)
pick (suc i) (x ∷ xs) = elim (pick i xs) [ none ↦ none | some (y, rest) ↦ some (y, x ∷ rest) ]

module _ {Chan : Type 0} where
  abbrev pub start_server : Deadlines → Server Chan
  start_server deadlines = record { state = with_deadlines deadlines; live = [] }

  module _ {Queue : Type 0} (r : Mpsc ServerFrame Queue) (q : Mpsc Bytes Chan)
      (encode : ServerFrame → Option Bytes) (show_char : ℕ → Text) where
    unfoldable pub serve_event : Server Chan → ServerEvent Queue Chan → Server Chan
    unfolding register_peer drop_registered handle_frame pick
    serve_event y (joins room peer outbound) =
        let (registered, s) = register_peer y.state room peer outbound in
        record { state = s; live = registered ∷ y.live }
    serve_event y (frames i replies now frame) = elim (pick i y.live) [
      | none ↦ y
      | some (registered, others) ↦ record y {
        state = (handle_frame r q encode show_char replies y.state registered now frame).state;
      }
    ]
    serve_event y (leaves i) = elim (pick i y.live) [
      | none ↦ y
      | some (registered, others) ↦ record {
        state = drop_registered y.state registered;
        live = others;
      }
    ]

    unfoldable pub serve_events : Server Chan → List (ServerEvent Queue Chan) → Server Chan
    unfolding serve_event
    serve_events y [] = y
    serve_events y (event ∷ events) = serve_events (serve_event y event) events
