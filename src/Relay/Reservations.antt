-- ===== src/Relay/Reservations.antt =====
-- The answers to a reserve frame in server/src/relay.rs: no reservation is taken in silence.
use omp_relayd.Base.{ℕ, ◌≡◌, refl, ap, ◌∙◌, ◌⊎◌, inl, inr, [], ◌∷◌, ◌++◌, Option, none, some}
use omp_relayd.Base.Text.{codes}
use omp_relayd.Protocol.Limits.{Text}
use omp_relayd.Protocol.Frames.{ServerFrame, reserved}
use omp_relayd.Blob.Types.{Store}
use omp_relayd.Blob.Index
use omp_relayd.Relay.Channel.{Mpsc, IsMpsc}
use omp_relayd.Relay.Registry.{Bytes, ServerState}
use omp_relayd.Relay.Replies.{Flow, continue}
use omp_relayd.Relay.Handlers.{
  RegisteredPeer, Outcome, leave, reserve_claimed, reserve_valid, handle_reserve, reserve_answer,
}
use omp_relayd.Relay.Gates.{reply_if-rule, with_acknowledgement-rule}

module _ {Queue Chan : Type 0} (r : Mpsc ServerFrame Queue) (law : IsMpsc r) where
  open r use {capacity, queued}

  module _ (q : Mpsc Bytes Chan) (encode : ServerFrame → Option Bytes) (show_char : ℕ → Text)
      (s : ServerState Chan) (registered : RegisteredPeer) where
    -- The state and the queue after a reservation that has been answered.
    abbrev pub IsReserved : Queue → Text → Text → ℕ → ℕ → Outcome Queue Chan → Type 0
    IsReserved replies request_id digest bytes now after =
        (blobs : Store) × (s.blobs ≡ some blobs)
        × (after.flow ≡ continue)
        × (after.state
            ≡ record s { blobs = some (Index.reserve blobs registered.room digest bytes now).1 })
        × (queued after.replies
            ≡ queued replies
              ++ (reserved request_id
                    (reserve_answer (Index.reserve blobs registered.room digest bytes now).0).0
                    (reserve_answer (Index.reserve blobs registered.room digest bytes now).0).1
                  ∷ []))

    reserve_valid-answer :
        (blobs : Option Store)
        → s.blobs ≡ blobs
        → (replies : Queue) (request_id digest : Text) (bytes now : ℕ)
        → let after =
            reserve_valid r q encode show_char replies s registered blobs request_id digest bytes
              now in
          (after.state ≡ s) ⊎ IsReserved replies request_id digest bytes now after
    unfolding reserve_valid reserve_claimed
    reserve_valid-answer none e replies request_id digest bytes now = inl refl
    reserve_valid-answer (some blobs) e replies request_id digest bytes now =
        with_acknowledgement-rule r law replies s
          (λ after. (after.state ≡ s) ⊎ IsReserved replies request_id digest bytes now after)
          (λ x. inl refl) (codes "reservation")
          (λ slot.
            reserve_claimed r q encode show_char slot s registered.room blobs request_id digest
              bytes now)
          (λ slot same.
            let answer =
              reserved request_id
                (reserve_answer (Index.reserve blobs registered.room digest bytes now).0).0
                (reserve_answer (Index.reserve blobs registered.room digest bytes now).0).1 in
            inr (
              blobs,
              e,
              refl,
              refl,
              (law.permit_sent answer slot).0 ∙ ap (λ fs. fs ++ (answer ∷ [])) same,
            ))

    -- A reserve frame leaves the state as it was, or the store has taken the reservation in the
    -- room of the connection and exactly one answer is queued, with the outcome of the store.
    pub handle_reserve-answered :
        (replies : Queue) (request_id digest : Text) (bytes now : ℕ)
        → let after =
            handle_reserve r q encode show_char replies s registered request_id digest bytes now in
          (after.state ≡ s) ⊎ IsReserved replies request_id digest bytes now after
    unfolding handle_reserve
    handle_reserve-answered replies request_id digest bytes now =
        let P : Outcome Queue Chan → Type 0 =
          λ after. (after.state ≡ s) ⊎ IsReserved replies request_id digest bytes now after in
        let left : (x : Flow × Queue) → P (leave s x) = λ x. inl refl in
        reply_if-rule r law replies s P left _ _ _ (
          reply_if-rule r law replies s P left _ _ _
            (reserve_valid-answer s.blobs refl replies request_id digest bytes now))
