-- ===== src/Tests/Deliveries.antt =====
-- A delivery of server/src/relay.rs with a concrete encoder.
use omp_relayd.Base.{
  ℕ, ◌+◌, ◌≤◌, zero, ◌≡◌, suc, refl, ap, some, none, Option, List, [], ◌∷◌, length, arith,
}
use omp_relayd.Base.Text.{codes, byte_len, len_utf8}
use omp_relayd.Protocol.Limits.{max_frame_bytes}
use omp_relayd.Protocol.Validate.{
  validate_correlation_id, validate_identifier, body_over_budget, find, starts_with, ends_with,
  is_whitespace,
}
use omp_relayd.Protocol.Rules.{IsIdentifier, validate_identifier_iff}
use omp_relayd.Protocol.Frames.{ServerFrame, message}
use omp_relayd.Protocol.Budget.{IsDelivery, frame_size-message}
use omp_relayd.Protocol.Encoding.{frame_size, IsMessagePack}
use omp_relayd.Relay.Registry.{Bytes, ServerState, default_deadlines, with_deadlines}
use omp_relayd.Relay.Handlers.{
  RegisteredPeer, Submission, handle_send, handle_announce, err_of, optional_err,
}
use omp_relayd.Relay.Receipts.{IsReceipted, IsAccepted}
use omp_relayd.Relay.Delivered.{IsSubmission, handle_send-delivered, handle_announce-delivered}
use omp_relayd.Tests.Queues.{Fifo, fifo, fifo-IsMpsc, empty_queue}

abbrev zeros : ℕ → List ℕ
zeros zero = []
zeros (suc n) = 0 ∷ zeros n

length-zeros : (n : ℕ) → length (zeros n) ≡ n
length-zeros zero = refl
length-zeros (suc n) = ap suc (length-zeros n)

-- As many bytes as MessagePack writes.
abbrev pack : ServerFrame → Option Bytes
pack frame = some (zeros (frame_size frame))

pack-IsMessagePack : IsMessagePack pack
pack-IsMessagePack = record {
  encodes = λ frame. (zeros (frame_size frame), refl, length-zeros (frame_size frame));
}

abbrev room : ServerState (Fifo Bytes)
room = with_deadlines default_deadlines

abbrev bob : RegisteredPeer
bob = record {
  room = record { project = codes "omp"; task = codes "main" };
  peer = codes "bob";
  connection_id = 2;
}

abbrev answer_text : Submission
answer_text = record {
  id = codes "2";
  body = codes "yes";
  reply_to = some (codes "1");
  attachment = none;
}

bob-IsIdentifier : IsIdentifier (codes "bob")
unfolding validate_identifier byte_len len_utf8 find starts_with ends_with is_whitespace
bob-IsIdentifier = (validate_identifier_iff (codes "bob")).0 refl

answer-IsSubmission : IsSubmission (codes "bob") answer_text
unfolding err_of optional_err validate_correlation_id body_over_budget byte_len len_utf8
answer-IsSubmission = record {
  id_ok = refl;
  reply_ok = refl;
  attachment_ok = refl;
  within = refl;
  sender = bob-IsIdentifier;
}

to_ok : err_of (validate_identifier (codes "ann")) ≡ none
unfolding err_of validate_identifier byte_len len_utf8 find starts_with ends_with is_whitespace
to_ok = refl

handle_send-delivered_example :
    IsReceipted fifo fifo-IsMpsc fifo pack
      (λ c. c ∷ [])
      room
      bob
      (empty_queue 3)
      (codes "ann")
      answer_text
      (handle_send fifo fifo pack (λ c. c ∷ []) (empty_queue 3) room bob (codes "ann") answer_text)
handle_send-delivered_example =
    handle_send-delivered fifo fifo-IsMpsc fifo pack pack-IsMessagePack (λ c. c ∷ []) room bob
      (empty_queue 3) (codes "ann") answer_text answer-IsSubmission to_ok refl (ground arith)

handle_announce-delivered_test :
    IsAccepted fifo fifo-IsMpsc fifo pack
      (λ c. c ∷ [])
      room
      bob
      (empty_queue 3)
      answer_text
      (handle_announce fifo fifo pack (λ c. c ∷ []) (empty_queue 3) room bob answer_text)
handle_announce-delivered_test =
    handle_announce-delivered fifo fifo-IsMpsc fifo pack pack-IsMessagePack (λ c. c ∷ []) room bob
      (empty_queue 3) answer_text answer-IsSubmission refl (ground arith)

answer-IsDelivery : IsDelivery (codes "2") (codes "bob") (codes "yes") (some (codes "1")) none
unfolding byte_len len_utf8
answer-IsDelivery = record {
  short_id = ground arith;
  short_from = ground arith;
  short_body = ground arith;
  short_reply = ground arith;
  short_attachment = tt;
}

frame_size-message_example :
    frame_size (message (codes "2") (codes "bob") (codes "yes") (some (codes "1")) none) + 91
    ≤ max_frame_bytes
frame_size-message_example =
    frame_size-message (codes "2") (codes "bob") (codes "yes") (some (codes "1")) none
      answer-IsDelivery
