-- ===== src/Http/Transfers.antt =====
-- The transfer routes of server/src/http.rs: `put`, `get` and the statuses of their answers.
use omp_relayd.Base.{
  true, false, Bool, not, ◌&&◌, if◌then◌else◌, ℕ, List, [], ◌∷◌, Option, none, some, Result, ok,
  err,
}
use omp_relayd.Protocol.Limits.{Text}
use omp_relayd.Protocol.Validate.{validate_digest}
use omp_relayd.Blob.Types.{
  Store, Upload, UploadError, digest_mismatch, length_mismatch, room_gone, io, UploadRefusal,
  unreserved, over_reservation, Accepted, already_held, upload,
}
use omp_relayd.Blob.Index.{payload_len}
use omp_relayd.Blob.Uploads.{begin_upload}
use omp_relayd.Http.Targets.{Target, parse}
use omp_relayd.Http.Headers.{content_length}
use omp_relayd.Blob.Transfer.{Io, write, finish, drop_upload}

pub data Status : Type 0 where
  ok_status created no_content bad_request forbidden not_found method_not_allowed : Status
  request_timeout conflict length_required payload_too_large internal_server_error : Status

pub data Method : Type 0 where
  put_method get_method head_method other_method : Method

-- What waiting for a frame of the body gives. The end of the list is the end of the body.
pub data Part : Type 0 where
  chunk : List ℕ → Io → Part
  trailers broken stalled : Part

-- A request: its method, the text of its `Content-Length`, its body, and what the file system answers and what
-- the clock says when the upload is finished.
pub record Request : Type 0 where
  pub method : Method
  pub length_header : Option Text
  pub body : List Part
  pub last : Io
  pub end : ℕ

unfoldable pub refuse_upload : UploadError → Status
refuse_upload (digest_mismatch declared computed) = bad_request
refuse_upload (length_mismatch declared received) = bad_request
refuse_upload room_gone = conflict
refuse_upload io = internal_server_error

-- The status of a `get`, and the length that it states; `opened` says whether the file opens.
unfoldable pub get_payload : Store → Target → Bool → Bool → ℕ → Status × Option ℕ
get_payload s target with_body opened now = elim (payload_len s target.room target.digest now) [
  | none ↦ (not_found, none)
  | some bytes ↦ if with_body && not opened then (not_found, none) else (ok_status, some bytes)
]

module _ (sha256 : List ℕ → List ℕ) where
  unfoldable pub put_end : Store → Upload → Io → ℕ → Status × Store
  put_end s u last end =
      let done = finish sha256 s u last end in
      elim done.result [ ok bytes ↦ (created, done.store) | err e ↦ (refuse_upload e, done.store) ]

  -- The loop over the body. An upload that is not finished is dropped.
  unfoldable pub put_body : Store → Upload → List Part → Io → ℕ → Status × Store
  unfolding put_end
  put_body s u [] last end = put_end s u last end
  put_body s u (stalled ∷ body) last end = (request_timeout, drop_upload s u)
  put_body s u (broken ∷ body) last end = (bad_request, drop_upload s u)
  put_body s u (trailers ∷ body) last end = put_body s u body last end
  put_body s u (chunk bytes answer ∷ body) last end =
      let p = write sha256 s u bytes answer in
      let rest = put_body p.store p.upload body last end in
      elim p.result [ ok _ ↦ rest | err e ↦ (refuse_upload e, drop_upload p.store p.upload) ]

  -- `put` after the answer of `begin_upload`.
  unfoldable pub put_accepted : Result Accepted UploadRefusal × Store → Request → Status × Store
  unfolding put_body
  put_accepted (err unreserved, s) request = (forbidden, s)
  put_accepted (err (over_reservation declared reserved), s) request = (payload_too_large, s)
  put_accepted (ok already_held, s) request = (no_content, s)
  put_accepted (ok (upload u), s) request = put_body s u request.body request.last request.end

  unfoldable pub put : Store → Target → Request → ℕ → Status × Store
  unfolding put_accepted content_length
  put s target request now = elim (content_length request.length_header) [
    | none ↦ (length_required, s)
    | some declared ↦ put_accepted (begin_upload s target.room target.digest declared now) request
  ]

  -- `route` once the path has been parsed. The status, and the length stated.
  unfoldable pub dispatch : Store → Option Target → Request → Bool → ℕ → (Status × Option ℕ) × Store
  unfolding put
  dispatch s none request opened now = ((not_found, none), s)
  dispatch s (some target) request opened now = elim (validate_digest target.digest) [
    | err e ↦ ((bad_request, none), s)
    | ok _ ↦ elim request.method [
      | put_method ↦ let (st, s') = put s target request now in ((st, none), s')
      | get_method ↦ (get_payload s target true opened now, s)
      | head_method ↦ (get_payload s target false opened now, s)
      | other_method ↦ ((method_not_allowed, none), s)
    ]
  ]

  unfoldable pub route : Store → Text → Request → Bool → ℕ → (Status × Option ℕ) × Store
  unfolding dispatch
  route s path request opened now = dispatch s (parse path) request opened now
