-- ===== src/Blob/Drained.antt =====
-- What the drain of server/src/blob.rs leaves on the disk.
use omp_relayd.Base.{
  ℕ, ◌≤◌, ◌≡◌, inl, inr, refl, ap, subst, ◌∙◌, false, List, [], ◌∷◌, All, length, Option, none,
  some, Option-cases, text_eq,
}
use omp_relayd.Base.Map.{get}
use omp_relayd.Blob.Types.{Store, FilePath, Removal}
use omp_relayd.Blob.Paths.{removable}
use omp_relayd.Blob.Transfer.{path_eq}
use omp_relayd.Blob.Files.{Disk, is_prefix}
use omp_relayd.Blob.Maintenance.{RemoveRefusals, perform_removal, drain}
use omp_relayd.Blob.Draining.{in_order, drain-in_order}
use omp_relayd.Blob.Cuts.{IsCut-keeps, remove_path-IsCut}

-- The path is neither what a removal names nor below it.
abbrev pub IsApart : FilePath → Option FilePath → Type 0
IsApart path none = Unit {0}
IsApart path (some target) = is_prefix target path ≡ false

-- What a removal names is not on the disk.
abbrev pub IsGone : Disk → Option FilePath → Type 0
IsGone disk none = Unit {0}
IsGone disk (some target) = get target disk ≡ none

module _ (sha256 : List ℕ → List ℕ) where
  perform_removal-keeps :
      (refusals : RemoveRefusals) (s : Store) (removal : Removal) (path : FilePath) (disk : Disk)
      → IsApart path (removable sha256 s removal)
      → get path (perform_removal sha256 refusals s removal disk) ≡ get path disk
  unfolding perform_removal
  perform_removal-keeps refusals s removal path disk apart =
      elim (Option-cases (removable sha256 s removal)) [
        | inl e ↦ rw (e, perform_removal) refl
        | inr (target, e) ↦
            rw (e, perform_removal)
              (IsCut-keeps target path disk _ (remove_path-IsCut refusals target disk)
                (subst (IsApart path) e apart))
      ]

  in_order-keeps :
      (refusals : RemoveRefusals) (s : Store) (path : FilePath) (removals : List Removal)
      (disk : Disk)
      → All (λ removal. IsApart path (removable sha256 s removal)) removals
      → get path (in_order sha256 refusals s removals disk) ≡ get path disk
  in_order-keeps refusals s path [] disk apart = refl
  in_order-keeps refusals s path (removal ∷ removals) disk apart =
      in_order-keeps refusals s path removals (perform_removal sha256 refusals s removal disk)
        apart.1
      ∙ perform_removal-keeps refusals s removal path disk apart.0

  -- Whatever the system refuses, a drain changes nothing at a path that no removal of its queue
  -- that may still be performed names or names a parent of.
  pub drain-keeps :
      (refusals : RemoveRefusals) (fuel : ℕ) (s : Store) (path : FilePath) (disk : Disk)
      → length s.removals ≤ fuel
      → All (λ removal. IsApart path (removable sha256 s removal)) s.removals
      → get path (drain sha256 refusals fuel s disk).1 ≡ get path disk
  drain-keeps refusals fuel s path disk enough apart =
      ap (λ x. get path x.1) (drain-in_order sha256 refusals fuel s disk enough)
      ∙ in_order-keeps refusals s path s.removals disk apart
