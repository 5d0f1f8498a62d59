-- ===== src/Blob/Transfer.antt =====
-- `Upload` of server/src/blob.rs: write, commit, finish and drop. What the file system answers is
-- an argument; `false` stands for an I/O error.
use omp_relayd.Base.{
  ℕ, Bool, true, false, not, ltb, ◌==◌, if◌then◌else◌, List, [], ◌∷◌, ◌++◌, length, none, some,
  is_some, Result, ok, err, Eq, equals, text-discrete, text_eq, ◌&&◌,
}
use omp_relayd.Protocol.Limits.{add64}
use omp_relayd.Blob.Types.{
  Store, Upload, FilePath, Removal, UploadError, digest_mismatch, length_mismatch, io,
}
use omp_relayd.Blob.Expiry.{queue_removal}
use omp_relayd.Blob.Uploads.{abandon_upload, commit_upload}
use omp_relayd.Blob.Digest.{base64url}
use omp_relayd.Blob.Paths.{payload_path, temp_path, removable}

-- The answers of `create_private_dir_if_absent`, `File::create`, and then of `write_all` or `rename`.
pub record Io : Type 0 where
  pub dir_made : Bool
  pub file_made : Bool
  pub done : Bool

pub record Progress (A : Type 0) : Type 0 where
  pub result : Result A UploadError
  pub upload : Upload
  pub store : Store

-- `finish` consumes the upload. `unlinked` is what it removed itself.
pub record Finished : Type 0 where
  pub result : Result ℕ UploadError
  pub unlinked : List FilePath
  pub store : Store

unfoldable pub path-discrete : Discrete FilePath
path-discrete = hlevel text-discrete

instance abbrev pub path_eq : Eq FilePath
path_eq = record { dec = path-discrete }

-- The end of `write`, with a file open.
unfoldable pub write_chunk : Store → Upload → List ℕ → Io → Progress (Unit {0})
write_chunk s u chunk answer =
    if answer.done
    then record {
      result = ok tt;
      upload = record u { hasher = u.hasher ++ chunk; written = add64 u.written (length chunk) };
      store = s;
    }
    else record { result = err io; upload = u; store = s }

unfoldable pub drop_upload : Store → Upload → Store
drop_upload s u =
    let abandoned = abandon_upload s u.room u.digest u.serial in
    if u.settled
    then s
    else elim u.temp [ none ↦ abandoned | some path ↦ queue_removal abandoned (Removal.temp path) ]

module _ (sha256 : List ℕ → List ℕ) where
  -- The end of `write`; the flag says whether a file is open.
  unfoldable pub write_file : Bool → Store → Upload → List ℕ → Io → Progress (Unit {0})
  unfolding write_chunk temp_path
  write_file true s u chunk answer = write_chunk s u chunk answer
  write_file false s u chunk answer =
      let (path, s') = temp_path sha256 s u.room u.digest in
      if not answer.dir_made
      then record { result = err io; upload = u; store = s }
      else if not answer.file_made
      then record { result = err io; upload = u; store = s' }
      else write_chunk s' (record u { temp = some path; file = true }) chunk answer

  unfoldable pub write : Store → Upload → List ℕ → Io → Progress (Unit {0})
  unfolding write_file
  write s u chunk answer =
      let received = add64 u.written (length chunk) in
      if ltb u.declared received
      then record { result = err (length_mismatch u.declared received); upload = u; store = s }
      else write_file u.file s u chunk answer

  -- The end of `commit`: the file is closed, renamed, and the index settled.
  unfoldable pub publish : Store → Upload → FilePath → Io → ℕ → Progress ℕ
  publish s u path answer now =
      let closed : Upload = record u { temp = some path; file = false } in
      let (settled, s') = commit_upload s u.room u.digest u.serial u.written now in
      if not answer.done
      then record { result = err io; upload = closed; store = s }
      else elim settled [
        | ok _ ↦ record {
          result = ok u.written;
          upload = record closed { temp = none };
          store = s';
        }
        | err e ↦ record {
          result = err e;
          upload = record closed { temp = some (payload_path sha256 s u.room u.digest) };
          store = s';
        }
      ]

  -- `commit` after the hash has been checked: an upload of no bytes has no file yet.
  unfoldable pub publish_file : Store → Upload → Io → ℕ → Progress ℕ
  unfolding publish temp_path
  publish_file s u answer now =
      let (path, s') = temp_path sha256 s u.room u.digest in
      elim u.temp [
        | some held ↦ publish s u held answer now
        | none ↦
            if not answer.dir_made
            then record { result = err io; upload = u; store = s }
            else if not answer.file_made
            then record { result = err io; upload = u; store = s' }
            else publish s' u path answer now
      ]

  unfoldable pub commit : Store → Upload → Io → ℕ → Progress ℕ
  commit s u answer now =
      let computed = base64url (sha256 u.hasher) in
      let hashed : Upload = record u { hasher = [] } in
      if not (u.written == u.declared)
      then record { result = err (length_mismatch u.declared u.written); upload = u; store = s }
      else if not (equals computed u.digest)
      then record { result = err (digest_mismatch u.digest computed); upload = hashed; store = s }
      else publish_file s hashed answer now

  -- What a failed `finish` unlinks: the file that the upload still names, unless that is the
  -- address of a payload that the index owns.
  unfoldable pub leftover : Store → Upload → List FilePath
  leftover s u = elim u.temp [
    | none ↦ []
    | some path ↦
        if equals path (payload_path sha256 s u.room u.digest)
          && not (is_some (removable sha256 s (Removal.payload u.room u.digest)))
        then []
        else path ∷ []
  ]

  unfoldable pub finish : Store → Upload → Io → ℕ → Finished
  unfolding leftover drop_upload
  finish s u answer now =
      let p = commit s u answer now in
      elim p.result [
        | ok bytes ↦ record {
          result = ok bytes;
          unlinked = [];
          store = drop_upload p.store (record p.upload { settled = true });
        }
        | err e ↦ record {
          result = err e;
          unlinked = leftover p.store p.upload;
          store = drop_upload p.store (record p.upload { temp = none });
        }
      ]
