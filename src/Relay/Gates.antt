-- ===== src/Relay/Gates.antt =====
-- The checks and the reserved slots before the effect of a frame of server/src/relay.rs.
use omp_relayd.Base.{
  ℕ, ◌≤◌, ◌≡◌, refl, inl, inr, Option, none, some, Option-cases, false, Bool-cases, leb, arith,
}
use omp_relayd.Protocol.Limits.{Text}
use omp_relayd.Protocol.Frames.{ServerFrame}
use omp_relayd.Relay.Channel.{Mpsc, IsMpsc}
use omp_relayd.Relay.Registry.{ServerState}
use omp_relayd.Relay.Replies.{
  diagnostic_reserve, Flow, break, reserve_acknowledgement, claim_acknowledgement,
}
use omp_relayd.Relay.Handlers.{Outcome, leave, reply_if, within_budget, with_acknowledgement}

module _ {Queue : Type 0} (r : Mpsc ServerFrame Queue) (law : IsMpsc r) where
  open r use {capacity, queued}

  pub reserve_acknowledgement-queued :
      (replies slot : Queue)
      → reserve_acknowledgement r replies ≡ some slot
      → queued slot ≡ queued replies
  reserve_acknowledgement-queued replies slot e =
      elim (Bool-cases (leb (capacity replies) diagnostic_reserve)) [
        | inl scarce ↦ absurd (unfold reserve_acknowledgement in ground arith)
        | inr ample ↦
            (law.reserve_lem replies slot (unfold reserve_acknowledgement in ground arith)).0
      ]

  pub reserve_acknowledgement-open :
      (replies : Queue)
      → r.is_closed replies ≡ false
      → 2 ≤ capacity replies
      → (slot : Queue) × (reserve_acknowledgement r replies ≡ some slot)
  unfolding reserve_acknowledgement
  reserve_acknowledgement-open replies open_end free =
      let (slot, e) = law.reserve_open replies open_end (omega (arith, free)) in
      let ample : leb (capacity replies) diagnostic_reserve ≡ false = ground arith in
      (slot, rw (ample) e)

module _ {Queue Chan : Type 0} (r : Mpsc ServerFrame Queue) (law : IsMpsc r) where
  open r use {capacity, queued}

  -- What holds of every outcome that leaves the state, and of what follows a check, holds with it.
  module _ (replies : Queue) (s : ServerState Chan) (P : Outcome Queue Chan → Type 0)
      (left : (x : Flow × Queue) → P (leave s x)) where
    pub reply_if-rule :
        {E : Type 0} (v : Option E) (frame : E → ServerFrame) (next : Outcome Queue Chan)
        → P next
        → P (reply_if r replies s v frame next)
    unfolding reply_if
    reply_if-rule none frame next p = p
    reply_if-rule (some e) frame next p = left _

    pub within_budget-rule :
        (v : Option ℕ) (field : Text) (next : Outcome Queue Chan)
        → P next
        → P (within_budget r replies s v field next)
    unfolding within_budget
    within_budget-rule none field next p = p
    within_budget-rule (some n) field next p = left _

    pub with_acknowledgement-rule :
        (what : Text) (next : Queue → Outcome Queue Chan)
        → ((slot : Queue) → queued slot ≡ queued replies → P (next slot))
        → P (with_acknowledgement r replies s what next)
    unfolding with_acknowledgement claim_acknowledgement
    with_acknowledgement-rule what next p =
        elim (Option-cases (reserve_acknowledgement r replies)) [
          | inl absent ↦ rw (absent, with_acknowledgement) (left (break, _))
          | inr (slot, e) ↦
              rw (e, with_acknowledgement)
                (p slot (reserve_acknowledgement-queued r law replies slot e))
        ]

  pub with_acknowledgement-claimed :
      (replies slot : Queue) (s : ServerState Chan) (what : Text)
      (next : Queue → Outcome Queue Chan)
      → reserve_acknowledgement r replies ≡ some slot
      → with_acknowledgement r replies s what next ≡ next slot
  unfolding with_acknowledgement claim_acknowledgement
  with_acknowledgement-claimed replies slot s what next e = rw (e, with_acknowledgement) refl
