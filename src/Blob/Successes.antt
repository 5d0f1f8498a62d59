-- ===== src/Blob/Successes.antt =====
-- What holds of the disk after a call of server/src/blob.rs that succeeds.
use omp_relayd.Base.{
  ◌≡◌, inl, inr, refl, Option, none, some, Option-cases, Result, ok, err, text_eq,
}
use omp_relayd.Base.Map.{get}
use omp_relayd.Blob.Types.{FilePath}
use omp_relayd.Blob.Transfer.{path_eq}
use omp_relayd.Blob.Files.{
  Node, Disk, ErrorKind, not_found, Call, follow, recover, refusing, symlink_metadata,
}
use omp_relayd.Blob.Opening.{Refusals, verify_found}
use omp_relayd.Blob.Privacy.{refusing-cases, symlink_metadata-found, IsFailure}

-- What holds of the disk after a success.
abbrev pub OnOk : {A : Type 0} → (Disk → Type 0) → Result A ErrorKind × Disk → Type 0
OnOk P (ok a, disk) = P disk
OnOk P (err e, disk) = Unit {0}

OnOk-IsFailure :
    {A : Type 0} (P : Disk → Type 0) (disk : Disk) (outcome : Result A ErrorKind × Disk)
    → IsFailure disk outcome
    → OnOk P outcome
OnOk-IsFailure P disk outcome (e, failed) = rw (failed) tt

pub OnOk-refusing :
    {A : Type 0} (P : Disk → Type 0) (fault : Option ErrorKind) (call : Call A) (disk : Disk)
    → OnOk P (call disk)
    → OnOk P (refusing fault call disk)
OnOk-refusing P none call disk h = h
OnOk-refusing P (some e) call disk h = tt

symlink_metadata-absent :
    (path : FilePath) (disk : Disk)
    → get path disk ≡ none
    → symlink_metadata path disk ≡ (err not_found, disk)
unfolding symlink_metadata
symlink_metadata-absent path disk absent = rw (absent, symlink_metadata) refl

-- What follows a call that leaves the disk as it is when it succeeds.
pub symlink_metadata-OnOk :
    (refusals : Refusals) (path : FilePath) (disk : Disk) (P : Disk → Type 0)
    → ((node : Node)
        → get path disk ≡ some node
        → OnOk P (verify_found refusals path node.file_type disk))
    → OnOk P (
        follow
          (refusing refusals.metadata (symlink_metadata path) disk)
          (λ found. verify_found refusals path found.file_type))
symlink_metadata-OnOk refusals path disk P went =
    elim (refusing-cases refusals.metadata (symlink_metadata path) disk) [
      | inl (e, failed) ↦ rw (failed, follow) tt
      | inr same ↦ elim (Option-cases (get path disk)) [
        | inl absent ↦ rw (same, symlink_metadata-absent path disk absent, follow) tt
        | inr (node, held) ↦
            rw (same, symlink_metadata-found path disk node held, follow) (went node held)
      ]
    ]

pub OnOk-recover :
    {A : Type 0} (P : Disk → Type 0) (outcome : Result A ErrorKind × Disk)
    (handler : ErrorKind → Call A)
    → OnOk P outcome
    → ((e : ErrorKind) (disk : Disk) → OnOk P (handler e disk))
    → OnOk P (recover outcome handler)
OnOk-recover P (ok a, disk) handler h handled = h
OnOk-recover P (err e, disk) handler h handled = handled e disk

-- What holds of a disk after a success, from what holds after the first call.
pub follow-OnOk :
    {A B : Type 0} (outcome : Result A ErrorKind × Disk) (next : A → Call B) (P Q : Disk → Type 0)
    → OnOk P outcome
    → ((a : A) (disk : Disk) → P disk → OnOk Q (next a disk))
    → OnOk Q (follow outcome next)
follow-OnOk (ok a, disk) next P Q h went = went a disk h
follow-OnOk (err e, disk) next P Q h went = tt

pub OnOk-always :
    {A : Type 0} (P : Disk → Type 0) (outcome : Result A ErrorKind × Disk)
    → P outcome.1
    → OnOk P outcome
OnOk-always P (ok a, disk) h = h
OnOk-always P (err e, disk) h = tt

pub OnOk-both :
    {A : Type 0} (P Q : Disk → Type 0) (outcome : Result A ErrorKind × Disk)
    → OnOk P outcome
    → OnOk Q outcome
    → OnOk (λ disk. P disk × Q disk) outcome
OnOk-both P Q (ok a, disk) h k = (h, k)
OnOk-both P Q (err e, disk) h k = tt
