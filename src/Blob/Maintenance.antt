-- ===== src/Blob/Maintenance.antt =====
-- `Maintenance` of server/src/blob.rs: the removals on the disk, the queue's drain, and the task.
use omp_relayd.Base.{ℕ, zero, suc, List, [], ◌∷◌, length, Option, none, some, Result, ok, err}
use omp_relayd.Blob.Types.{Store, FilePath, Removal}
use omp_relayd.Blob.Expiry.{sweep}
use omp_relayd.Blob.Paths.{removable}
use omp_relayd.Blob.System.{receive_removal}
use omp_relayd.Blob.Files.{Disk, ErrorKind, not_found, refusing, remove_file, remove_dir_all}

-- What the system may refuse of the two calls of `remove_path`.
pub record RemoveRefusals : Type 0 where
  pub file : Option ErrorKind
  pub tree : Option ErrorKind

-- `remove_path` once the removal of a file has answered.
unfoldable pub remove_other : RemoveRefusals → FilePath → Result (Unit {0}) ErrorKind × Disk → Disk
remove_other refusals path (ok _, disk) = disk
remove_other refusals path (err not_found, disk) = disk
remove_other refusals path (err e, disk) = (refusing refusals.tree (remove_dir_all path) disk).1

-- A file, or else a tree; what fails is logged.
unfoldable pub remove_path : RemoveRefusals → FilePath → Disk → Disk
unfolding remove_other
remove_path refusals path disk =
    remove_other refusals path (refusing refusals.file (remove_file path) disk)

module _ (sha256 : List ℕ → List ℕ) (refusals : RemoveRefusals) where
  -- `Maintenance::remove`
  unfoldable pub perform_removal : Store → Removal → Disk → Disk
  unfolding remove_path
  perform_removal s removal disk = elim (removable sha256 s removal) [
    | none ↦ disk
    | some path ↦ remove_path refusals path disk
  ]

  -- The loop of `drain`, on fuel.
  unfoldable pub drain : ℕ → Store → Disk → Store × Disk
  unfolding receive_removal perform_removal
  drain zero s disk = (s, disk)
  drain (suc fuel) s disk =
      let (received, s') = receive_removal s in
      elim received [
        | none ↦ (s', disk)
        | some removal ↦ drain fuel s' (perform_removal s' removal disk)
      ]

  -- What wakes the task, and what other tasks have made of the store and the disk meanwhile.
  pub data Wake : Type 0 where
    shutdown_signalled queued : Wake
    ticked : ℕ → Wake
    changed : Store → Disk → Wake

  -- `Maintenance::run`: `none` for a task that still waits.
  unfoldable pub run_maintenance : Store → Disk → List Wake → Option (Store × Disk)
  unfolding drain
  run_maintenance s disk [] = none
  run_maintenance s disk (shutdown_signalled ∷ later) =
      let (s', disk') = drain (length s.removals) s disk in
      some (s', (remove_dir_all s.root disk').1)
  run_maintenance s disk (ticked now ∷ later) = run_maintenance (sweep s now).1 disk later
  run_maintenance s disk (queued ∷ later) =
      let (s', disk') = drain 1 s disk in run_maintenance s' disk' later
  run_maintenance s disk (changed s' disk' ∷ later) = run_maintenance s' disk' later
