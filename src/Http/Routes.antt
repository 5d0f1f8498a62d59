-- ===== src/Http/Routes.antt =====
-- The routes of server/src/http.rs from a path to an answer.
use omp_relayd.Base.{ℕ, ◌≡◌, ◌≢◌, ◌↔◌, refl, true, List, [], All, All-weaken, some, ok, arith}
use omp_relayd.Base.Text.{encode_utf8}
use omp_relayd.Base.Utf8.{IsScalar}
use omp_relayd.Protocol.Limits.{Text, RoomId}
use omp_relayd.Protocol.Validate.{validate_digest, is_base64_url}
use omp_relayd.Protocol.Rules.{validate_digest_iff}
use omp_relayd.Blob.Types.{Store}
use omp_relayd.Blob.Index.{payload_len}
use omp_relayd.Http.Targets.{Target, parse}
use omp_relayd.Http.Paths.{Spells, path, parse-path}
use omp_relayd.Http.Transfers.{ok_status, Request, get_method, get_payload, dispatch, route}

-- Two texts spell the components of a room, which are not empty.
pub record IsSpelt (first second : Text) (room : RoomId) : Type 0 where
  pub spells_project : Spells first (encode_utf8 room.project)
  pub spells_task : Spells second (encode_utf8 room.task)
  pub scalar_project : All IsScalar room.project
  pub scalar_task : All IsScalar room.task
  pub named_project : room.project ≢ []
  pub named_task : room.task ≢ []

not_slash : (c : ℕ) → is_base64_url c ≡ true → c ≢ b'/'
not_slash c h e = ground arith

digest-plain : (digest : Text) → validate_digest digest ≡ ok tt → All (λ c. c ≢ b'/') digest
digest-plain digest valid = All-weaken _ _ not_slash digest ((validate_digest_iff digest).0 valid).1

parse-IsSpelt :
    (first second digest : Text) (room : RoomId)
    → IsSpelt first second room
    → validate_digest digest ≡ ok tt
    → parse (path first second digest) ≡ some (record { room = room; digest = digest })
parse-IsSpelt first second digest room v valid =
    parse-path first second room.project room.task digest v.spells_project v.spells_task
      v.scalar_project v.scalar_task v.named_project v.named_task (digest-plain digest valid)

get_payload_iff :
    (s : Store) (target : Target) (now n : ℕ)
    → (get_payload s target true true now ≡ (ok_status, some n))
      ↔ (payload_len s target.room target.digest now ≡ some n)
unfolding get_payload
get_payload_iff s target now n = (λ h. ground arith, λ h. rw (h, get_payload) refl)

-- A GET of any spelling of a room and of a valid address, where the payload's file opens, answers
-- 200 with a length exactly if the store has a payload of that length there, and changes nothing.
pub route-get :
    (sha256 : List ℕ → List ℕ) (s : Store) (first second digest : Text) (room : RoomId)
    (request : Request) (now n : ℕ)
    → IsSpelt first second room
    → validate_digest digest ≡ ok tt
    → request.method ≡ get_method
    → (((route sha256 s (path first second digest) request true now).0 ≡ (ok_status, some n))
        ↔ (payload_len s room digest now ≡ some n))
      × ((route sha256 s (path first second digest) request true now).1 ≡ s)
unfolding route dispatch
route-get sha256 s first second digest room request now n spelt valid is_get =
    rw (parse-IsSpelt first second digest room spelt valid, valid, is_get, dispatch)
      (get_payload_iff s (record { room = room; digest = digest }) now n, refl)
