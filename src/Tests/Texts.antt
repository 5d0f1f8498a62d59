-- ===== src/Tests/Texts.antt =====
-- The texts and digests of server/src/protocol.rs and server/src/blob.rs, on concrete inputs.
use omp_relayd.Base.{
  ℕ, ◌+◌, ◌≤◌, ◌≡◌, refl, ◌⊎◌, List, [], ◌∷◌, ◌++◌, length, ok, arith, All, ◌↔◌, true, ◌≢◌,
}
use omp_relayd.Base.Text.{codes, byte_len, len_utf8}
use omp_relayd.Base.Truncate.{cap_text, cap_text_lem}
use omp_relayd.Protocol.Limits.{digest_chars, max_correlation_bytes, RoomId}
use omp_relayd.Protocol.Validate.{
  is_base64_url, validate_correlation_id, validate_digest, validate_identifier,
}
use omp_relayd.Protocol.Rules.{
  IsIdentifier, validate_identifier_iff, validate_digest_iff, validate_correlation_id_iff,
}
use omp_relayd.Blob.Digest.{base64url, digest}
use omp_relayd.Blob.Base64.{decode, decode-base64url, length-base64url, validate_digest-digest}
use omp_relayd.Blob.RoomNames.{IsRoomText, room_preimage_injective}

abbrev main_room : RoomId
main_room = record { project = codes "omp"; task = codes "main" }

-- A hash of 32 bytes.
abbrev zeroes : List ℕ → List ℕ
zeroes bytes =
    0 ∷ 0 ∷ 0 ∷ 0 ∷ 0 ∷ 0 ∷ 0 ∷ 0 ∷ 0 ∷ 0 ∷ 0 ∷ 0 ∷ 0 ∷ 0 ∷ 0 ∷ 0 ∷ 0 ∷ 0 ∷ 0 ∷ 0 ∷ 0 ∷ 0 ∷ 0 ∷ 0
    ∷ 0 ∷ 0 ∷ 0 ∷ 0 ∷ 0 ∷ 0 ∷ 0 ∷ 0 ∷ []

cap_text_lem_example :
    (byte_len (cap_text 3 (0xe9 ∷ 0xe9 ∷ [])) ≤ 3)
    × ((rest : List ℕ) × (cap_text 3 (0xe9 ∷ 0xe9 ∷ []) ++ rest ≡ 0xe9 ∷ 0xe9 ∷ []))
    × ((cap_text 3 (0xe9 ∷ 0xe9 ∷ []) ≡ 0xe9 ∷ 0xe9 ∷ [])
        ⊎ (3 ≤ byte_len (cap_text 3 (0xe9 ∷ 0xe9 ∷ [])) + 3))
cap_text_lem_example = cap_text_lem 3 (0xe9 ∷ 0xe9 ∷ [])

validate_identifier_iff_example :
    (validate_identifier (codes "a/b") ≡ ok tt) ↔ IsIdentifier (codes "a/b")
validate_identifier_iff_example = validate_identifier_iff (codes "a/b")

validate_digest_iff_test :
    (validate_digest (codes "short") ≡ ok tt)
    ↔ ((length (codes "short") ≡ digest_chars) × All (λ c. is_base64_url c ≡ true) (codes "short"))
validate_digest_iff_test = validate_digest_iff (codes "short")

validate_correlation_id_iff_test :
    (validate_correlation_id (codes "m-1") ≡ ok tt)
    ↔ ((codes "m-1" ≢ []) × (byte_len (codes "m-1") ≤ max_correlation_bytes))
validate_correlation_id_iff_test = validate_correlation_id_iff (codes "m-1")

decode-base64url_example : decode (base64url (0 ∷ 255 ∷ 16 ∷ 7 ∷ [])) ≡ 0 ∷ 255 ∷ 16 ∷ 7 ∷ []
decode-base64url_example = decode-base64url (0 ∷ 255 ∷ 16 ∷ 7 ∷ []) (ground arith)

length-base64url_test : length (base64url (1 ∷ 2 ∷ [])) ≡ 3
length-base64url_test = length-base64url (1 ∷ 2 ∷ [])

validate_digest-digest_example : validate_digest (digest zeroes (1 ∷ [])) ≡ ok tt
validate_digest-digest_example = validate_digest-digest zeroes (λ bytes. refl) (1 ∷ [])

named : IsRoomText main_room.project
unfolding byte_len len_utf8
named = ground arith

named_main : IsRoomText main_room.task
unfolding byte_len len_utf8
named_main = ground arith

room_preimage_injective_test : main_room ≡ main_room
room_preimage_injective_test =
    room_preimage_injective main_room main_room named named_main named named_main refl
