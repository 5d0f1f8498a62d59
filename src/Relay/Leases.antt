-- ===== src/Relay/Leases.antt =====
-- Every name of the registry of server/src/relay.rs is held by a connection that runs.
use omp_relayd.Base.{
  ℕ, zero, suc, ◌≡◌, refl, sym, subst, ◌∙◌, ◌⊎◌, inl, inr, Bool-cases, ◌&&◌, equals, text_eq,
  Option, none, some, Option-cases, List, [], ◌∷◌, arith,
}
use omp_relayd.Base.Map.{get}
use omp_relayd.Protocol.Limits.{Text, RoomId, room_id_eq}
use omp_relayd.Protocol.Frames.{ServerFrame}
use omp_relayd.Relay.Channel.{Mpsc, IsMpsc}
use omp_relayd.Relay.Registry.{
  Bytes, PeerHandle, ServerState, Deadlines, with_deadlines, register, deregister, handle_at,
  is_registered,
}
use omp_relayd.Relay.Handlers.{RegisteredPeer}
use omp_relayd.Relay.Takeover.{id_of, handle_at-register, deregister-IsLeft}
use omp_relayd.Relay.Connection.{register_peer, drop_registered}
use omp_relayd.Relay.Departures.{deregister-other, deregister-gone}
use omp_relayd.Relay.Names.{handle_frame-IsSameNames}
use omp_relayd.Relay.Server.{
  Server, ServerEvent, joins, frames, leaves, pick, start_server, serve_event, serve_events,
}

abbrev pub Elem : {A : Type 0} → A → List A → Type 0
Elem x [] = ⊥
Elem x (y ∷ ys) = (x ≡ y) ⊎ Elem x ys

pick-suc :
    {A : Type 0} (i : ℕ) (z : A) (xs : List A) (w : A) (rest : List A)
    → pick i xs ≡ some (w, rest)
    → pick (suc i) (z ∷ xs) ≡ some (w, z ∷ rest)
unfolding pick
pick-suc i z xs w rest f = rw (f, pick) refl

pick-Elem :
    {A : Type 0} (i : ℕ) (xs : List A) (x : A) (others : List A) (y : A)
    → pick i xs ≡ some (x, others)
    → Elem y xs
    → (y ≡ x) ⊎ Elem y others
unfolding pick
pick-Elem i [] x others y e member = absurd member
pick-Elem zero (z ∷ xs) x others y e (inl same) = inl (cc)
pick-Elem zero (z ∷ xs) x others y e (inr member) = inr (subst (Elem y) (cc) member)
pick-Elem (suc i) (z ∷ xs) x others y e member = elim (Option-cases (pick i xs)) [
  | inl absent ↦ absurd (ground (arith, e, absent))
  | inr ((w, rest), f) ↦
      let both = sym (pick-suc i z xs w rest f) ∙ e in
      let front : w ≡ x = cc in
      let back : z ∷ rest ≡ others = cc in
      elim member [
        | inl same ↦ inr (subst (Elem y) back (inl same))
        | inr inside ↦ elim (pick-Elem i xs w rest y f inside) [
          | inl here ↦ inl (here ∙ front)
          | inr there ↦ inr (subst (Elem y) back (inr there))
        ]
      ]
]

abbrev pub guard : RoomId → Text → ℕ → RegisteredPeer
guard room peer id = record { room = room; peer = peer; connection_id = id }

named :
    (r : RoomId) (p : Text) (id : ℕ) (room : RoomId) (peer : Text) (own : ℕ)
    → r ≡ room
    → p ≡ peer
    → id ≡ own
    → guard r p id ≡ guard room peer own
named r p id room peer own e f g = rw (e, f, g) refl

module _ {Chan : Type 0} where
  id_of-some :
      (o : Option (PeerHandle Chan)) (id : ℕ)
      → id_of o ≡ some id
      → (h : PeerHandle Chan) × (o ≡ some h) × (h.connection_id ≡ id)
  id_of-some none id e = cc
  id_of-some (some h) id e = (h, refl, cc)

  -- A connection that ends takes a name away at most.
  deregister-shrinks :
      (s : ServerState Chan) (room r : RoomId) (peer p : Text) (i id : ℕ)
      → id_of (handle_at (deregister s room peer i).1 r p) ≡ some id
      → id_of (handle_at s r p) ≡ some id
  deregister-shrinks s room r peer p i id e =
      elim (Bool-cases (is_registered (handle_at s room peer) i)) [
        | inr other ↦
            subst (λ s'. id_of (handle_at s' r p) ≡ some id) (deregister-other s room peer i other)
              e
        | inl mine ↦ elim (Option-cases (handle_at s room peer)) [
          | inl absent ↦ absurd (ground (arith, mine, absent))
          | inr (k, f) ↦
              let mine' : k.connection_id ≡ i = ground (arith, mine, f) in
              let left = (deregister-IsLeft s room peer k f).1.names r p in
              let here =
                subst (λ i. id_of (handle_at (deregister s room peer i).1 r p) ≡ some id)
                  (sym mine') e in
              elim (Bool-cases (equals room r && equals peer p)) [
                | inl own ↦ absurd (ground (arith, left, here, own))
                | inr other ↦ ground (arith, left, here, other)
              ]
        ]
      ]

  -- Each name that the registry lists belongs to a connection that runs, under that connection's id.
  abbrev pub IsLeased : Server Chan → Type 0
  IsLeased y =
      (room : RoomId) (peer : Text) (id : ℕ)
      → id_of (handle_at y.state room peer) ≡ some id
      → Elem (guard room peer id) y.live

  register-id :
      (s : ServerState Chan) (room : RoomId) (peer : Text) (outbound : Chan)
      → (register s room peer outbound).0.connection_id ≡ s.next_connection_id
  unfolding register
  register-id s room peer outbound = refl

  joins-IsLeased :
      (y : Server Chan) (room : RoomId) (peer : Text) (outbound : Chan)
      → IsLeased y
      → IsLeased (record {
        state = (register_peer y.state room peer outbound).1;
        live = (register_peer y.state room peer outbound).0 ∷ y.live;
      })
  unfolding register_peer
  joins-IsLeased y room peer outbound leased r p id e =
      let at = handle_at-register y.state room r peer p outbound in
      elim (room_id_eq.dec room r) [
        | no other ↦ inr (leased r p id (ground (arith, at, e)))
        | yes same ↦ elim (text_eq.dec peer p) [
          | no other ↦ inr (leased r p id (ground (arith, at, e, same)))
          | yes same' ↦
              let mine : id ≡ y.state.next_connection_id = ground (arith, at, e, same, same') in
              inl (
                named r p id room peer _ (sym same) (sym same')
                  (mine ∙ sym (register-id y.state room peer outbound)))
        ]
      ]

  leaves-IsLeased :
      (y : Server Chan) (registered : RegisteredPeer) (others : List RegisteredPeer) (i : ℕ)
      → IsLeased y
      → pick i y.live ≡ some (registered, others)
      → IsLeased (record { state = drop_registered y.state registered; live = others })
  unfolding drop_registered
  leaves-IsLeased y registered others i leased e r p id held =
      let s = y.state in
      let before =
        deregister-shrinks s registered.room r registered.peer p registered.connection_id id held in
      elim (pick-Elem i y.live registered others (guard r p id) e (leased r p id before)) [
        | inr there ↦ there
        | inl own ↦
            let (h, found, same) = id_of-some _ id held in
            absurd (
              deregister-gone s r p id h
                (subst (λ g. handle_at (deregister s g.room g.peer g.connection_id).1 r p ≡ some h)
                  (sym own) found)
                same)
      ]

  module _ {Queue : Type 0} (r : Mpsc ServerFrame Queue) (law : IsMpsc r) (q : Mpsc Bytes Chan)
      (encode : ServerFrame → Option Bytes) (show_char : ℕ → Text) where
    serve_event-IsLeased :
        (y : Server Chan) (event : ServerEvent Queue Chan)
        → IsLeased y
        → IsLeased (serve_event r q encode show_char y event)
    unfolding serve_event
    serve_event-IsLeased y (joins room peer outbound) leased =
        joins-IsLeased y room peer outbound leased
    serve_event-IsLeased y (frames i replies now frame) leased =
        elim (Option-cases (pick i y.live)) [
          | inl absent ↦ rw (absent, serve_event) leased
          | inr ((registered, others), e) ↦
              rw (e, serve_event)
                (λ room peer id held. leased room peer id (
                  sym (
                    handle_frame-IsSameNames r law q encode show_char replies y.state registered now
                      frame room peer)
                  ∙ held))
        ]
    serve_event-IsLeased y (leaves i) leased = elim (Option-cases (pick i y.live)) [
      | inl absent ↦ rw (absent, serve_event) leased
      | inr ((registered, others), e) ↦
          rw (e, serve_event) (leaves-IsLeased y registered others i leased e)
    ]

    serve_events-kept :
        (y : Server Chan) (events : List (ServerEvent Queue Chan))
        → IsLeased y
        → IsLeased (serve_events r q encode show_char y events)
    unfolding serve_events
    serve_events-kept y [] leased = leased
    serve_events-kept y (event ∷ events) leased =
        serve_events-kept (serve_event r q encode show_char y event) events
          (serve_event-IsLeased y event leased)

    start_server-IsLeased : (deadlines : Deadlines) → IsLeased (start_server deadlines)
    unfolding with_deadlines handle_at get
    start_server-IsLeased deadlines room peer id e = absurd (ground (arith, e))

    -- Whatever connections join, in whatever order their frames are handled and they end, takeovers
    -- of a name included: from the start of a server on, every name that its registry lists belongs
    -- to a connection that still runs. So no name is listed when no connection is left.
    pub serve_events-IsLeased :
        (deadlines : Deadlines) (events : List (ServerEvent Queue Chan))
        → IsLeased (serve_events r q encode show_char (start_server deadlines) events)
    serve_events-IsLeased deadlines events =
        serve_events-kept (start_server deadlines) events (start_server-IsLeased deadlines)
