-- ===== src/Blob/Finishing.antt =====
-- What a successful `finish` of server/src/blob.rs has checked, and what it leaves.
use omp_relayd.Base.{
  ℕ, ◌+◌, ◌≡◌, sym, ap, ◌∙◌, inl, inr, Bool-cases, ltb, ◌==◌, if◌then◌else◌, equals, equals→eq,
  List, [], none, some, Option-cases, Result-cases, ok, arith, text_eq,
}
use omp_relayd.Blob.Types.{Store, Upload, FilePath}
use omp_relayd.Blob.Index.{payload_len}
use omp_relayd.Blob.Uploads.{commit_upload}
use omp_relayd.Blob.Paths.{temp_path}
use omp_relayd.Blob.Digest.{base64url}
use omp_relayd.Blob.Transfer.{Io, publish, publish_file, commit, finish, drop_upload}
use omp_relayd.Blob.Fetching.{payload_len-commit_upload}

-- The payload of the upload can be fetched from the store, until its time is over.
abbrev pub IsFetchable : Store → Upload → ℕ → ℕ → Type 0
IsFetchable s u bytes now =
    (later : ℕ)
    → payload_len s u.room u.digest later
      ≡ (if ltb later (now + 7200000000000) then some bytes else none)

module _ (sha256 : List ℕ → List ℕ) where
  publish-IsFetchable :
      (s : Store) (u : Upload) (path : FilePath) (answer : Io) (now bytes : ℕ)
      → (publish sha256 s u path answer now).result ≡ ok bytes
      → (bytes ≡ u.written) × IsFetchable (publish sha256 s u path answer now).store u bytes now
  publish-IsFetchable s u path answer now bytes h = elim (Bool-cases answer.done) [
    | inr failed ↦ absurd (unfold publish in ground arith)
    | inl renamed ↦ elim (Result-cases (commit_upload s u.room u.digest u.serial u.written now).0) [
      | inr (x, e) ↦ absurd (unfold publish in ground arith)
      | inl (t, e) ↦
          let same : u.written ≡ bytes = unfold publish in ground arith in
          (
            sym same,
            unfold publish in
                rw (renamed, e, publish)
                  (λ later.
                    payload_len-commit_upload s u.room u.digest u.serial u.written now later e
                    ∙ ap (λ b. if ltb later (now + 7200000000000) then some b else none) same),
          )
    ]
  ]

  publish_file-IsFetchable :
      (s : Store) (u : Upload) (answer : Io) (now bytes : ℕ)
      → (publish_file sha256 s u answer now).result ≡ ok bytes
      → (bytes ≡ u.written) × IsFetchable (publish_file sha256 s u answer now).store u bytes now
  publish_file-IsFetchable s u answer now bytes h = elim (Option-cases u.temp) [
    | inr (path, e) ↦
        unfold publish_file in
        rw (e, publish_file)
          (publish-IsFetchable s u path answer now bytes
            (unfold publish_file in rw (e, publish_file) at h))
    | inl fresh ↦ elim (Bool-cases answer.dir_made) [
      | inr refused ↦ absurd (unfold publish_file in ground arith)
      | inl dir ↦ elim (Bool-cases answer.file_made) [
        | inr refused ↦ absurd (unfold publish_file in ground arith)
        | inl file ↦
            let (path, t) = temp_path sha256 s u.room u.digest in
            let done : (publish sha256 t u path answer now).result ≡ ok bytes =
              unfold publish_file in ground arith in
            unfold publish_file in
            rw (fresh, dir, file, publish_file) (publish-IsFetchable t u path answer now bytes done)
      ]
    ]
  ]

  -- What a `commit` that succeeds has checked.
  commit-IsFetchable :
      (s : Store) (u : Upload) (answer : Io) (now bytes : ℕ)
      → (commit sha256 s u answer now).result ≡ ok bytes
      → (base64url (sha256 u.hasher) ≡ u.digest)
        × (bytes ≡ u.declared)
        × IsFetchable (commit sha256 s u answer now).store u bytes now
  commit-IsFetchable s u answer now bytes h = elim (Bool-cases (u.written == u.declared)) [
    | inr short ↦ absurd (unfold commit in ground arith)
    | inl full ↦ elim (Bool-cases (equals (base64url (sha256 u.hasher)) u.digest)) [
      | inr wrong ↦ absurd (unfold commit in ground arith)
      | inl right ↦
          let hashed : Upload = record u { hasher = [] } in
          let done : (publish_file sha256 s hashed answer now).result ≡ ok bytes =
            unfold commit in ground arith in
          let (same, fetchable) = publish_file-IsFetchable s hashed answer now bytes done in
          (
            equals→eq (base64url (sha256 u.hasher)) u.digest right,
            ground arith,
            unfold commit in rw (full, right, commit) fetchable,
          )
    ]
  ]

  -- An upload that finishes with success has the hash that its address states and the length that
  -- it declared, and its payload, of that length, can be fetched for two hours and no longer.
  pub finish-IsFetchable :
      (s : Store) (u : Upload) (answer : Io) (now bytes : ℕ)
      → (finish sha256 s u answer now).result ≡ ok bytes
      → (base64url (sha256 u.hasher) ≡ u.digest)
        × (bytes ≡ u.declared)
        × IsFetchable (finish sha256 s u answer now).store u bytes now
  finish-IsFetchable s u answer now bytes h =
      elim (Result-cases (commit sha256 s u answer now).result) [
        | inr (x, e) ↦ absurd (unfold finish in ground arith)
        | inl (n, e) ↦
            let same : n ≡ bytes = unfold finish in ground arith in
            let (hash, length_ok, fetchable) =
              commit-IsFetchable s u answer now bytes (e ∙ ap ok same) in
            (hash, length_ok, unfold finish in rw (e, finish) (unfold drop_upload in fetchable))
      ]
