-- ===== src/Tests/Queues.antt =====
-- A bounded queue, as an instance of the channel that server/src/relay.rs uses.
use omp_relayd.Base.{
  ℕ, ◌+◌, ◌-◌, refl, Bool, false, ltb, if◌then◌else◌, List, [], ◌∷◌, ◌++◌, Option, none, some,
  arith,
}
use omp_relayd.Relay.Channel.{Mpsc, IsMpsc, Sent, sent, full, closed}

pub record Fifo (A : Type 0) : Type 0 where
  pub items : List A
  pub free : ℕ
  pub gone : Bool

module _ {A : Type 0} where
  abbrev offer : A → Fifo A → Sent × Fifo A
  offer a c =
      if c.gone
      then (closed, c)
      else if ltb 0 c.free
      then (sent, record c { items = c.items ++ (a ∷ []); free = c.free - 1 })
      else (full, c)

  abbrev hold : Fifo A → Option (Fifo A)
  hold c =
      if c.gone then none else if ltb 0 c.free then some (record c { free = c.free - 1 }) else none

  abbrev pub fifo : Mpsc A (Fifo A)
  fifo = record {
    try_send = offer;
    capacity = λ c. c.free;
    try_reserve = hold;
    send_permit = λ a c. record c { items = c.items ++ (a ∷ []) };
    drop_permit = λ c. record c { free = c.free + 1 };
    queued = λ c. c.items;
    is_closed = λ c. c.gone;
  }

  pub fifo-IsMpsc : IsMpsc fifo
  fifo-IsMpsc = record {
    send_closed = λ a c h. ground arith;
    send_full = λ a c h e. ground arith;
    send_sent = λ a c h e. ground arith;
    send_queued = λ a c e. (ground arith, ground arith, ground arith);
    reserve_open = λ c h e. (record c { free = c.free - 1 }, ground arith);
    reserve_lem = λ c d e. (ground arith, ground arith, ground arith);
    permit_sent = λ a c. (refl, refl, refl);
    permit_dropped = λ c. (refl, refl, refl);
  }

-- A queue with some free slots.
abbrev pub empty_queue : {A : Type 0} → ℕ → Fifo A
empty_queue free = record { items = []; free = free; gone = false }
