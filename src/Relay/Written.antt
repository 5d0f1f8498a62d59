-- ===== src/Relay/Written.antt =====
-- The order of what a connection of server/src/relay.rs writes.
use omp_relayd.Base.{
  if◌then◌else◌, ℕ, ◌<◌, ◌≡◌, refl, Bool, true, false, List, [], ◌∷◌, ◌++◌, All, map, length, none,
  arith, suc,
}
use omp_relayd.Protocol.Frames.{ServerFrame}
use omp_relayd.Relay.Registry.{Bytes}
use omp_relayd.Relay.Writer.{
  Inbox, replied, reader_done, delivered, entry_dropped, superseded, arrive, done, failed,
  interrupted, frame, close_replaced, raced, take_reply, turn, Moment, arrives, turns, run_writer,
}

module _ (sent : Bool) (later : List Moment) where
  -- When its connection is superseded while a writer writes a reply, the writer returns, and it has
  -- written the closing diagnostic, if that is sent in time, after nothing but that reply, if it
  -- already stood in the buffer.
  pub run_writer-interrupted :
      (reply : ServerFrame) (replies : List ServerFrame) (inbox : Inbox) (buffered : Bool)
      → inbox.evicted ≡ false
      → inbox.replies ≡ reply ∷ replies
      → run_writer inbox (turns (interrupted buffered) sent ∷ later)
        ≡ ((if buffered then frame reply ∷ [] else []) ++ close_replaced sent, none)
  unfolding run_writer turn take_reply raced
  run_writer-interrupted reply replies inbox true e f =
      rw (e, run_writer, turn) (rw (f, take_reply) refl)
  run_writer-interrupted reply replies inbox false e f =
      rw (e, run_writer, turn) (rw (f, take_reply) refl)

-- The moments of a connection whose socket takes every write and that nothing supersedes.
abbrev pub IsQuiet : Moment → Type 0
IsQuiet (arrives (delivered bytes)) = Unit {0}
IsQuiet (turns done sent) = Unit {0}
IsQuiet _ = ⊥

abbrev pub turn_count : List Moment → ℕ
turn_count [] = 0
turn_count (arrives arrival ∷ later) = turn_count later
turn_count (turns outcome sent ∷ later) = suc (turn_count later)

-- The inbox of a connection whose reader has ended, and that nothing has superseded.
abbrev pub ending : List ServerFrame → List Bytes → Bool → Inbox
ending replies outbound outbound_closed = record {
  replies = replies;
  replies_closed = true;
  outbound = outbound;
  outbound_closed = outbound_closed;
  evicted = false;
}

-- When the reader has ended, every reply that it queued, the closing diagnostic included, is written
-- in its order and before any delivery, and then the writer returns: as long as the socket takes the
-- writes and nothing supersedes the connection, one turn more than there are replies is enough,
-- whatever is delivered meanwhile.
pub run_writer-drained :
    (replies : List ServerFrame) (outbound : List Bytes) (outbound_closed : Bool)
    (moments : List Moment)
    → All IsQuiet moments
    → length replies < turn_count moments
    → run_writer (ending replies outbound outbound_closed) moments ≡ (map frame replies, none)
unfolding run_writer turn take_reply raced arrive
run_writer-drained replies outbound closed [] quiet enough = absurd (omega arith)
run_writer-drained replies outbound closed (arrives (delivered bytes) ∷ later) quiet enough =
    run_writer-drained replies (outbound ++ bytes ∷ []) closed later quiet.1 enough
run_writer-drained replies outbound closed (arrives (replied reply) ∷ later) quiet enough =
    absurd quiet.0
run_writer-drained replies outbound closed (arrives reader_done ∷ later) quiet enough =
    absurd quiet.0
run_writer-drained replies outbound closed (arrives entry_dropped ∷ later) quiet enough =
    absurd quiet.0
run_writer-drained replies outbound closed (arrives superseded ∷ later) quiet enough =
    absurd quiet.0
run_writer-drained [] outbound closed (turns done sent ∷ later) quiet enough = refl
run_writer-drained (reply ∷ replies) outbound closed (turns done sent ∷ later) quiet enough =
    rw (run_writer-drained replies outbound closed later quiet.1 (omega arith)) refl
run_writer-drained replies outbound closed (turns failed sent ∷ later) quiet enough = absurd quiet.0
run_writer-drained replies outbound closed (turns (interrupted buffered) sent ∷ later) quiet
      enough =
    absurd quiet.0
