-- ===== src/Relay/Admitted.antt =====
-- Who is admitted by server/src/relay.rs, and what a read on a registered connection leads to.
use omp_relayd.Base.{
  ℕ, ◌≡◌, refl, subst, ap, ◌∙◌, ◌↔◌, inl, inr, Result-cases, Option-cases, none, some, Result, ok,
  arith, List, [], ◌∷◌, All,
}
use omp_relayd.Protocol.Limits.{Text, RoomId, protocol_version}
use omp_relayd.Protocol.Validate.{validate_identifier}
use omp_relayd.Protocol.Rules.{IsIdentifier, validate_identifier_iff}
use omp_relayd.Protocol.Frames.{
  ClientFrame, hello, list, send, announce, reserve, ping, unsupported, decode,
}
use omp_relayd.Relay.Handlers.{err_of}
use omp_relayd.Relay.Admission.{
  read, Inbound, hung_up, failed, arrived, report_framing_error_now, first_rejected, hello_fields,
  admit_hello, admit_frame, admit,
}

-- The three identifiers of a `hello` are valid.
abbrev pub IsMember : RoomId → Text → Type 0
IsMember room peer = IsIdentifier room.project × IsIdentifier room.task × IsIdentifier peer

validate_identifier-IsIdentifier :
    (s : Text) → (err_of (validate_identifier s) ≡ none) ↔ IsIdentifier s
validate_identifier-IsIdentifier s = elim (Result-cases (validate_identifier s)) [
  | inl (t, e) ↦ (λ h. (validate_identifier_iff s).0 e, λ i. unfold err_of in rw (e) refl)
  | inr (x, e) ↦ (
    λ h. absurd (unfold err_of in ground arith),
    λ i. absurd (let v = (validate_identifier_iff s).1 i in cc),
  )
]

first_rejected-All :
    (fields : List (Text × Text))
    → (first_rejected fields ≡ none) ↔ All (λ (f : Text × Text). IsIdentifier f.1) fields
unfolding first_rejected
first_rejected-All [] = (λ h. tt, λ i. refl)
first_rejected-All ((field, value) ∷ fields) =
    elim (Option-cases (err_of (validate_identifier value))) [
      | inl e ↦ (
        λ h. (
          (validate_identifier-IsIdentifier value).0 e,
          (first_rejected-All fields).0 (ground arith),
        ),
        λ i. rw (e, first_rejected) ((first_rejected-All fields).1 i.1),
      )
      | inr (x, e) ↦ (
        λ h. absurd (ground arith),
        λ i. absurd (let v = (validate_identifier-IsIdentifier value).1 i.0 in cc),
      )
    ]

module _ {E : Type 0} (deserialize : List ℕ → Result (ClientFrame × ℕ) E) (show_error : E → Text)
    (show_char : ℕ → Text) where
  admit_hello-current :
      (offered : ℕ) (room r : RoomId) (peer p : Text)
      → (admit_hello deserialize show_error show_char offered room peer).admitted ≡ some (r, p)
      → offered ≡ protocol_version
  unfolding admit_hello
  admit_hello-current offered room r peer p h = ground arith

  admit_hello-IsMember :
      (offered : ℕ) (room r : RoomId) (peer p : Text)
      → (admit_hello deserialize show_error show_char offered room peer).admitted ≡ some (r, p)
      → (room ≡ r) × (peer ≡ p) × IsMember r p
  admit_hello-IsMember offered room r peer p h =
      let current = admit_hello-current offered room r peer p h in
      elim (Option-cases (first_rejected (hello_fields room peer))) [
        | inr (x, e) ↦ absurd (unfold admit_hello in ground arith)
        | inl e ↦
            let i = (first_rejected-All (hello_fields room peer)).0 e in
            let same_room : room ≡ r = unfold admit_hello in ground arith in
            let same_peer : peer ≡ p = unfold admit_hello in ground arith in
            (
              same_room,
              same_peer,
              subst (λ x. IsMember x p) same_room
                  (subst (λ x. IsMember room x) same_peer (i.0, i.1.0, i.1.1.0)),
            )
      ]

  admit_hello-member :
      (room : RoomId) (peer : Text)
      → IsMember room peer
      → (admit_hello deserialize show_error show_char protocol_version room peer).admitted
        ≡ some (room, peer)
  admit_hello-member room peer (project, task, name) =
      let e = (first_rejected-All (hello_fields room peer)).1 (project, (task, (name, tt))) in
      unfold admit_hello in rw (e, admit_hello) refl

  admit_frame-hello :
      (frame : ClientFrame) (room : RoomId) (peer : Text)
      → (admit_frame deserialize show_error show_char frame).admitted ≡ some (room, peer)
      → (frame ≡ hello protocol_version room peer) × IsMember room peer
  unfolding admit_frame
  admit_frame-hello (hello offered r p) room peer h =
      let current = admit_hello-current offered r room p peer h in
      let (same_room, same_peer, member) = admit_hello-IsMember offered r room p peer h in
      (cc, member)
  admit_frame-hello (list request_id) room peer h = absurd (ground arith)
  admit_frame-hello (send id to body reply_to attachment) room peer h = absurd (ground arith)
  admit_frame-hello (announce id body reply_to attachment) room peer h = absurd (ground arith)
  admit_frame-hello (reserve request_id digest bytes) room peer h = absurd (ground arith)
  admit_frame-hello ping room peer h = absurd (ground arith)
  admit_frame-hello unsupported room peer h = absurd (ground arith)

  -- The first read is a payload that decodes to a `hello` of this protocol version, with valid
  -- identifiers.
  abbrev pub IsHello : Inbound → RoomId → Text → Type 0
  IsHello hung_up room peer = ⊥
  IsHello (failed e) room peer = ⊥
  IsHello (arrived payload) room peer =
      (decode deserialize payload ≡ ok (hello protocol_version room peer)) × IsMember room peer

  -- A connection whose first read came in time is admitted, to a room under a name, exactly when
  -- what it read is a `hello` of the supported version for that room and name, and all three
  -- identifiers are valid.
  pub admit_iff :
      (no_hello : Text) (inbound : Inbound) (room : RoomId) (peer : Text)
      → ((admit deserialize show_error show_char no_hello (read inbound)).admitted
          ≡ some (room, peer))
        ↔ IsHello inbound room peer
  unfolding admit admit_frame report_framing_error_now
  admit_iff no_hello hung_up room peer = (λ h. absurd (ground arith), λ i. absurd i)
  admit_iff no_hello (failed e) room peer = (λ h. absurd (ground arith), λ i. absurd i)
  admit_iff no_hello (arrived payload) room peer =
      elim (Result-cases (decode deserialize payload)) [
        | inr (e, f) ↦ (λ h. absurd (ground arith), λ i. absurd (let g = i.0 in cc))
        | inl (frame, f) ↦ (
          λ h.
              let (same, member) = admit_frame-hello frame room peer (ground arith) in
              (f ∙ ap ok same, member),
          λ i. rw (i.0, admit) (admit_hello-member room peer i.1),
        )
      ]
