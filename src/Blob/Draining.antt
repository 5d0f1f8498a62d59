-- ===== src/Blob/Draining.antt =====
-- The drain of server/src/blob.rs ends, and has performed every removal.
use omp_relayd.Base.{ℕ, zero, suc, ◌≤◌, ◌≡◌, refl, List, [], ◌∷◌, length, arith}
use omp_relayd.Blob.Types.{Store, Removal}
use omp_relayd.Blob.Paths.{removable, payload_path, room_dir}
use omp_relayd.Blob.System.{receive_removal}
use omp_relayd.Blob.Files.{Disk}
use omp_relayd.Blob.Maintenance.{RemoveRefusals, perform_removal, drain}

module _ (sha256 : List ℕ → List ℕ) (refusals : RemoveRefusals) where
  -- The removals one after the other, each as the index of the store has it.
  abbrev pub in_order : Store → List Removal → Disk → Disk
  in_order s [] disk = disk
  in_order s (removal ∷ removals) disk =
      in_order s removals (perform_removal sha256 refusals s removal disk)

  removable-queue :
      (s : Store) (queue : List Removal) (removal : Removal)
      → removable sha256 (record s { removals = queue }) removal ≡ removable sha256 s removal
  unfolding removable payload_path room_dir
  removable-queue s queue (Removal.payload r digest) = refl
  removable-queue s queue (Removal.room r) = refl
  removable-queue s queue (Removal.temp path) = refl

  perform_removal-queue :
      (s : Store) (queue : List Removal) (removal : Removal) (disk : Disk)
      → perform_removal sha256 refusals (record s { removals = queue }) removal disk
        ≡ perform_removal sha256 refusals s removal disk
  unfolding perform_removal
  perform_removal-queue s queue removal disk =
      rw (removable-queue s queue removal, perform_removal) refl

  drain-list :
      (removals : List Removal) (fuel : ℕ) (s : Store) (disk : Disk)
      → length removals ≤ fuel
      → drain sha256 refusals fuel (record s { removals = removals }) disk
        ≡ (record s { removals = [] }, in_order s removals disk)
  unfolding drain receive_removal
  drain-list [] zero s disk enough = refl
  drain-list [] (suc fuel) s disk enough = refl
  drain-list (removal ∷ removals) zero s disk enough = absurd (omega arith)
  drain-list (removal ∷ removals) (suc fuel) s disk enough =
      rw (perform_removal-queue s removals removal disk)
        (drain-list removals fuel s (perform_removal sha256 refusals s removal disk) (omega arith))

  -- The drain of a queue ends once it has turned as often as there are removals, with a queue that
  -- is empty and a store that is otherwise the same.
  pub drain-in_order :
      (fuel : ℕ) (s : Store) (disk : Disk)
      → length s.removals ≤ fuel
      → drain sha256 refusals fuel s disk ≡ (record s { removals = [] }, in_order s s.removals disk)
  drain-in_order fuel s disk enough = drain-list s.removals fuel s disk enough
