-- ===== src/Tests/Frames.antt =====
-- The handlers of server/src/relay.rs on concrete frames.
use omp_relayd.Base.{ℕ, ◌≡◌, ◌⊎◌, refl, some, none, Option, [], ◌∷◌, arith, text_eq}
use omp_relayd.Base.Text.{codes, byte_len, len_utf8}
use omp_relayd.Base.Map.{get}
use omp_relayd.Protocol.Limits.{Text, room_id_eq}
use omp_relayd.Protocol.Validate.{
  validate_correlation_id, validate_identifier, body_over_budget, find, starts_with, ends_with,
  is_whitespace,
}
use omp_relayd.Protocol.Frames.{ServerFrame, message, peer_offline, ping}
use omp_relayd.Relay.Registry.{
  Bytes, ServerState, default_deadlines, with_deadlines, handle_at, route, status,
}
use omp_relayd.Relay.Handlers.{
  RegisteredPeer, Submission, handle_send, handle_announce, handle_reserve, handle_frame, err_of,
  optional_err,
}
use omp_relayd.Relay.Answers.{IsAnswer}
use omp_relayd.Relay.Conduct.{handle_frame-IsAnswer}
use omp_relayd.Relay.Receipts.{
  IsReceipted, IsAccepted, handle_send-receipt, handle_send-routed, handle_announce-IsAccepted,
}
use omp_relayd.Relay.Reservations.{IsReserved, handle_reserve-answered}
use omp_relayd.Tests.Queues.{Fifo, fifo, fifo-IsMpsc, empty_queue}

abbrev nobody : ServerState (Fifo Bytes)
nobody = with_deadlines default_deadlines

abbrev replies : Fifo ServerFrame
replies = empty_queue 3

abbrev alice : RegisteredPeer
alice = record {
  room = record { project = codes "omp"; task = codes "main" };
  peer = codes "alice";
  connection_id = 1;
}

abbrev greeting : Submission
greeting = record { id = codes "1"; body = codes "hi"; reply_to = none; attachment = none }

abbrev encode_empty : ServerFrame → Option Bytes
encode_empty frame = some (0x80 ∷ [])

abbrev show_char : ℕ → Text
show_char c = c ∷ []

handle_frame-IsAnswer_example :
    IsAnswer fifo replies nobody
      (handle_frame fifo fifo encode_empty show_char replies nobody alice 5 ping)
handle_frame-IsAnswer_example =
    handle_frame-IsAnswer fifo fifo-IsMpsc replies nobody (refl, ground arith) fifo encode_empty
      show_char alice 5 ping

handle_send-receipt_example :
    let after =
      handle_send fifo fifo encode_empty show_char replies nobody alice (codes "bob") greeting in
    (after.state ≡ nobody)
    ⊎ IsReceipted fifo fifo-IsMpsc fifo encode_empty show_char nobody alice replies
        (codes "bob")
        greeting
        after
handle_send-receipt_example =
    handle_send-receipt fifo fifo-IsMpsc fifo encode_empty show_char nobody alice replies
      (codes "bob") greeting

id_ok : err_of (validate_correlation_id greeting.id) ≡ none
unfolding err_of validate_correlation_id byte_len len_utf8
id_ok = refl

to_ok : err_of (validate_identifier (codes "bob")) ≡ none
unfolding err_of validate_identifier byte_len len_utf8 find starts_with ends_with is_whitespace
to_ok = refl

small : body_over_budget greeting.body ≡ none
unfolding body_over_budget byte_len len_utf8
small = refl

offline :
    (route fifo encode_empty nobody alice.room
      (codes "bob")
      (message (codes "1") (codes "alice") (codes "hi") none none)).0
    ≡ status peer_offline
unfolding route handle_at with_deadlines get
offline = refl

handle_send-routed_test :
    IsReceipted fifo fifo-IsMpsc fifo encode_empty show_char nobody alice replies
      (codes "bob")
      greeting
      (handle_send fifo fifo encode_empty show_char replies nobody alice (codes "bob") greeting)
handle_send-routed_test =
    handle_send-routed fifo fifo-IsMpsc fifo encode_empty show_char nobody alice replies
      (codes "bob") greeting peer_offline id_ok to_ok (unfold optional_err in refl)
      (unfold optional_err in refl) small refl (ground arith) offline

handle_announce-IsAccepted_example :
    let after = handle_announce fifo fifo encode_empty show_char replies nobody alice greeting in
    (after.state ≡ nobody)
    ⊎ IsAccepted fifo fifo-IsMpsc fifo encode_empty show_char nobody alice replies greeting after
handle_announce-IsAccepted_example =
    handle_announce-IsAccepted fifo fifo-IsMpsc fifo encode_empty show_char nobody alice replies
      greeting

handle_reserve-answered_example :
    let after =
      handle_reserve fifo fifo encode_empty show_char replies nobody alice
        (codes "1")
        (codes "d")
        10
        5 in
    (after.state ≡ nobody)
    ⊎ IsReserved fifo fifo-IsMpsc fifo encode_empty show_char nobody alice replies
        (codes "1")
        (codes "d")
        10
        5
        after
handle_reserve-answered_example =
    handle_reserve-answered fifo fifo-IsMpsc fifo encode_empty show_char nobody alice replies
      (codes "1") (codes "d") 10 5
