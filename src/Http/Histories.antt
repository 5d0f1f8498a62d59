-- ===== src/Http/Histories.antt =====
-- A PUT of server/src/http.rs is a history of the machine of the payload store.
use omp_relayd.Base.{
  ℕ, ◌≡◌, refl, sym, ap, ◌∙◌, inl, inr, List, [], ◌∷◌, Option, none, some, ◌⊎◌, true, false, is_ok,
  Result, Result-cases, ok, err, arith,
}
use omp_relayd.Base.Map.{get, insert, remove}
use omp_relayd.Blob.Types.{
  Store, Upload, UploadRefusal, unreserved, over_reservation, Accepted, already_held, upload,
}
use omp_relayd.Blob.Uploads.{begin_upload}
use omp_relayd.Blob.Transfer.{Io, write, finish, drop_upload}
use omp_relayd.Blob.System.{
  System, Event, begins, writes, finishes, drops, begun, perform, run, serial_eq,
}
use omp_relayd.Http.Targets.{Target}
use omp_relayd.Http.Headers.{content_length}
use omp_relayd.Http.Transfers.{
  Part, chunk, trailers, broken, stalled, Request, put_end, put_body, put_accepted, put,
}

module _ (sha256 : List ℕ → List ℕ) where
  -- A store with one upload in progress, and with none.
  abbrev pub busy : Store → ℕ → Upload → System
  busy s k u = record { store = s; uploads = (k, u) ∷ [] }

  abbrev pub quiet : Store → System
  quiet s = record { store = s; uploads = [] }

  busy-drops :
      (s : Store) (k : ℕ) (u : Upload)
      → perform sha256 (busy s k u) (drops k) ≡ quiet (drop_upload s u)
  unfolding perform get remove
  busy-drops s k u = ground arith

  busy-finishes :
      (s : Store) (k : ℕ) (u : Upload) (answer : Io) (now : ℕ)
      → perform sha256 (busy s k u) (finishes k answer now)
        ≡ quiet (finish sha256 s u answer now).store
  unfolding perform get remove
  busy-finishes s k u answer now = ground arith

  busy-writes :
      (s : Store) (k : ℕ) (u : Upload) (bytes : List ℕ) (answer : Io)
      → perform sha256 (busy s k u) (writes k bytes answer)
        ≡ busy (write sha256 s u bytes answer).store k (write sha256 s u bytes answer).upload
  unfolding perform get insert remove
  busy-writes s k u bytes answer = ground arith

  put_end-finish :
      (s : Store) (u : Upload) (last : Io) (end : ℕ)
      → (put_end sha256 s u last end).1 ≡ (finish sha256 s u last end).store
  unfolding put_end
  put_end-finish s u last end = elim (Result-cases (finish sha256 s u last end).result) [
    | inl (bytes, e) ↦ rw (e, put_end) refl
    | inr (x, e) ↦ rw (e, put_end) refl
  ]

  -- The events of an upload whose body is this one: each chunk is written, until one fails or the
  -- body breaks, upon which the upload is dropped; at the end of the body the upload is finished.
  abbrev pub IsTransfer : Store → Upload → ℕ → List Part → Io → ℕ → List Event → Type 0
  IsTransfer s u k [] last end events = events ≡ finishes k last end ∷ []
  IsTransfer s u k (stalled ∷ body) last end events = events ≡ drops k ∷ []
  IsTransfer s u k (broken ∷ body) last end events = events ≡ drops k ∷ []
  IsTransfer s u k (trailers ∷ body) last end events = IsTransfer s u k body last end events
  IsTransfer s u k (chunk bytes answer ∷ body) last end events =
      let p = write sha256 s u bytes answer in
      (rest : List Event) × (events ≡ writes k bytes answer ∷ rest)
      × (((is_ok p.result ≡ true) × IsTransfer p.store p.upload k body last end rest)
          ⊎ ((is_ok p.result ≡ false) × (rest ≡ drops k ∷ [])))

  -- What follows the begin: an upload that is accepted takes the body of the request, under its own
  -- serial number; a refusal, or a payload that is already held, is followed by nothing.
  abbrev pub IsFollowed : Result Accepted UploadRefusal × Store → Request → List Event → Type 0
  IsFollowed (err refusal, s) request events = events ≡ []
  IsFollowed (ok already_held, s) request events = events ≡ []
  IsFollowed (ok (upload u), s) request events =
      IsTransfer s u u.serial request.body request.last request.end events

  -- The events of a PUT, by the length that it declares.
  abbrev pub IsPut : Store → Target → Request → ℕ → Option ℕ → List Event → Type 0
  IsPut s target request now none events = events ≡ []
  IsPut s target request now (some declared) events =
      (rest : List Event) × (events ≡ begins target.room target.digest declared now ∷ rest)
      × IsFollowed (begin_upload s target.room target.digest declared now) request rest

  -- Such events take the machine to a store with no upload in progress.
  abbrev IsOver : System → (List Event → Type 0) → Store → Type 0
  IsOver y P s = (events : List Event) × P events × (run sha256 y events ≡ quiet s)

  run-after :
      (y z : System) (event : Event) (events : List Event) (s : Store)
      → perform sha256 y event ≡ z
      → run sha256 z events ≡ quiet s
      → run sha256 y (event ∷ events) ≡ quiet s
  unfolding run
  run-after y z event events s e h = ap (λ w. run sha256 w events) e ∙ h

  run-one :
      (y : System) (event : Event) (s : Store)
      → perform sha256 y event ≡ quiet s
      → run sha256 y (event ∷ []) ≡ quiet s
  unfolding run
  run-one y event s e = e

  put_body-IsOver :
      (body : List Part) (s : Store) (k : ℕ) (u : Upload) (last : Io) (end : ℕ)
      → IsOver (busy s k u) (IsTransfer s u k body last end) (put_body sha256 s u body last end).1
  unfolding put_body
  put_body-IsOver [] s k u last end = (
    finishes k last end ∷ [],
    refl,
    run-one (busy s k u) (finishes k last end) _
        (busy-finishes s k u last end ∙ ap quiet (sym (put_end-finish s u last end))),
  )
  put_body-IsOver (stalled ∷ body) s k u last end =
      (drops k ∷ [], refl, run-one (busy s k u) (drops k) _ (busy-drops s k u))
  put_body-IsOver (broken ∷ body) s k u last end =
      (drops k ∷ [], refl, run-one (busy s k u) (drops k) _ (busy-drops s k u))
  put_body-IsOver (trailers ∷ body) s k u last end = put_body-IsOver body s k u last end
  put_body-IsOver (chunk bytes answer ∷ body) s k u last end =
      let p = write sha256 s u bytes answer in
      let (rest, fit, ran) = put_body-IsOver body p.store k p.upload last end in
      let after = run-after (busy s k u) (busy p.store k p.upload) (writes k bytes answer) in
      let wrote = busy-writes s k u bytes answer in
      elim (Result-cases p.result) [
        | inl (t, e) ↦ (
          writes k bytes answer ∷ rest,
          (rest, refl, inl (ap is_ok e, fit)),
          after rest _ wrote (rw (e, put_body) ran),
        )
        | inr (x, e) ↦ (
          writes k bytes answer ∷ drops k ∷ [],
          (drops k ∷ [], refl, inr (ap is_ok e, refl)),
          after (drops k ∷ []) _ wrote (
              rw (e, put_body)
                (run-one (busy p.store k p.upload) (drops k) (drop_upload p.store p.upload)
                  (busy-drops p.store k p.upload))),
        )
      ]

  put_accepted-IsOver :
      (s : Store) (x : Result Accepted UploadRefusal × Store) (request : Request)
      → IsOver (begun (quiet s) x) (IsFollowed x request) (put_accepted sha256 x request).1
  unfolding put_accepted begun insert remove run
  put_accepted-IsOver s (err unreserved, t) request = ([], refl, refl)
  put_accepted-IsOver s (err (over_reservation declared reserved), t) request = ([], refl, refl)
  put_accepted-IsOver s (ok already_held, t) request = ([], refl, refl)
  put_accepted-IsOver s (ok (upload u), t) request =
      put_body-IsOver request.body t u.serial u request.last request.end

  put_absent :
      (s : Store) (target : Target) (request : Request) (now : ℕ)
      → content_length request.length_header ≡ none
      → (put sha256 s target request now).1 ≡ s
  unfolding put
  put_absent s target request now e = rw (e, put) refl

  put_declared :
      (s : Store) (target : Target) (request : Request) (now declared : ℕ)
      → content_length request.length_header ≡ some declared
      → put sha256 s target request now
        ≡ put_accepted sha256 (begin_upload s target.room target.digest declared now) request
  unfolding put
  put_declared s target request now declared e = rw (e, put) refl

  put-IsPut :
      (s : Store) (target : Target) (request : Request) (now : ℕ) (length : Option ℕ)
      → content_length request.length_header ≡ length
      → IsOver (quiet s) (IsPut s target request now length) (put sha256 s target request now).1
  unfolding run
  put-IsPut s target request now none e =
      ([], refl, ap quiet (sym (put_absent s target request now e)))
  put-IsPut s target request now (some declared) e =
      let x = begin_upload s target.room target.digest declared now in
      let (rest, fit, ran) = put_accepted-IsOver s x request in
      (
        begins target.room target.digest declared now ∷ rest,
        (rest, refl, fit),
        run-after (quiet s) (begun (quiet s) x) (begins target.room target.digest declared now) rest
              _ (unfold perform in refl) ran
            ∙ ap (λ o. quiet o.1) (sym (put_declared s target request now declared e)),
      )

  -- A PUT, whatever its body and however it ends, does to the store what one history of the machine
  -- does, which leaves no upload in progress: nothing, when it declares no length; or else the
  -- upload of its target begins with the length that it declares, and, if it is accepted, takes each
  -- chunk of the body until one fails or the body breaks, upon which it is dropped, and is finished
  -- at the end of the body.
  pub put-run :
      (s : Store) (target : Target) (request : Request) (now : ℕ)
      → (events : List Event) × IsPut s target request now
          (content_length request.length_header)
          events
        × (run sha256 (quiet s) events ≡ quiet (put sha256 s target request now).1)
  put-run s target request now = put-IsPut s target request now _ refl
