-- ===== src/Relay/Channel.antt =====
-- The sending half of `tokio::sync::mpsc`, which server/src/relay.rs uses and does not implement:
-- its operations, and what its documentation says of them.
use omp_relayd.Base.{ℕ, ◌+◌, ◌<◌, ◌≡◌, Bool, true, false, List, [], ◌∷◌, ◌++◌, Option, some}

-- What `try_send` answers.
pub data Sent : Type 0 where
  sent full closed : Sent

pub record Mpsc (A : Type 0) (Chan : Type 0) : Type 0 where
  pub try_send : A → Chan → Sent × Chan
  -- The free slots.
  pub capacity : Chan → ℕ
  -- A permit holds a slot, until it is sent into or dropped.
  pub try_reserve : Chan → Option Chan
  pub send_permit : A → Chan → Chan
  pub drop_permit : Chan → Chan
  -- What was sent and not yet received, oldest first, and whether the receiver is gone.
  pub queued : Chan → List A
  pub is_closed : Chan → Bool

-- The documented behaviour.
module _ {A Chan : Type 0} (q : Mpsc A Chan) where
  open q use {try_send, capacity, try_reserve, send_permit, drop_permit, queued, is_closed}

  pub record IsMpsc : Type 0 where
    pub send_closed : (a : A) (c : Chan) → is_closed c ≡ true → try_send a c ≡ (closed, c)
    pub send_full :
        (a : A) (c : Chan) → is_closed c ≡ false → capacity c ≡ 0 → try_send a c ≡ (full, c)
    pub send_sent :
        (a : A) (c : Chan) → is_closed c ≡ false → 0 < capacity c → (try_send a c).0 ≡ sent
    pub send_queued :
        (a : A) (c : Chan)
        → (try_send a c).0 ≡ sent
        → (queued (try_send a c).1 ≡ queued c ++ (a ∷ []))
          × (capacity (try_send a c).1 + 1 ≡ capacity c)
          × (is_closed (try_send a c).1 ≡ is_closed c)
    pub reserve_open :
        (c : Chan) → is_closed c ≡ false → 0 < capacity c → (d : Chan) × (try_reserve c ≡ some d)
    pub reserve_lem :
        (c d : Chan)
        → try_reserve c ≡ some d
        → (queued d ≡ queued c) × (capacity d + 1 ≡ capacity c) × (is_closed d ≡ is_closed c)
    pub permit_sent :
        (a : A) (c : Chan)
        → (queued (send_permit a c) ≡ queued c ++ (a ∷ []))
          × (capacity (send_permit a c) ≡ capacity c)
          × (is_closed (send_permit a c) ≡ is_closed c)
    pub permit_dropped :
        (c : Chan)
        → (queued (drop_permit c) ≡ queued c)
          × (capacity (drop_permit c) ≡ capacity c + 1)
          × (is_closed (drop_permit c) ≡ is_closed c)
