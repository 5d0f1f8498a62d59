-- ===== src/Blob/Cuts.antt =====
-- What the removal of a path by server/src/blob.rs makes of the disk.
use omp_relayd.Base.{
  ◌≡◌, ◌≢◌, ◌⊎◌, inl, inr, refl, sym, ap, subst, ◌∙◌, true, false, Bool-cases, [], Option, none,
  some, Option-cases, Result, ok, err, text_eq, arith,
}
use mathlib.Core.List.{append-nil}
use mathlib.Core.Bool.{true≢false}
use omp_relayd.Base.Map.{get, remove, get-remove, get-remove_self}
use omp_relayd.Blob.Types.{FilePath}
use omp_relayd.Blob.Transfer.{path_eq}
use omp_relayd.Blob.Files.{
  Node, FileType, directory, symlink, regular, Disk, ErrorKind, not_found, already_exists,
  not_a_directory, is_a_directory, permission_denied, other_error, refusing, remove_file,
  remove_dir_all, remove_tree, is_prefix, prune,
}
use omp_relayd.Blob.Maintenance.{RemoveRefusals, remove_path, remove_other}
use omp_relayd.Blob.Privacy.{
  is_prefix-below, get-prune_below, get-prune_beside, remove_dir_all-found,
}

is_prefix_refl : (path : FilePath) → is_prefix path path ≡ true
is_prefix_refl path =
    subst (λ p. is_prefix path p ≡ true) (append-nil path) (is_prefix-below path [])

-- What a removal makes of a disk: nothing, or what stood at the path, or that and all below it.
abbrev pub IsCut : FilePath → Disk → Disk → Type 0
IsCut target disk after =
    (after ≡ disk) ⊎ ((after ≡ remove target disk) ⊎ (after ≡ prune target disk))

remove_tree-IsCut :
    (target : FilePath) (type : FileType) (disk : Disk)
    → IsCut target disk (remove_tree target type disk).1
unfolding remove_tree
remove_tree-IsCut target directory disk = inr (inr refl)
remove_tree-IsCut target symlink disk = inr (inl refl)
remove_tree-IsCut target (regular bytes) disk = inl refl

remove_dir_all-IsCut :
    (target : FilePath) (fault : Option ErrorKind) (disk : Disk)
    → IsCut target disk (refusing fault (remove_dir_all target) disk).1
unfolding remove_dir_all
remove_dir_all-IsCut target (some e) disk = inl refl
remove_dir_all-IsCut target none disk = elim (Option-cases (get target disk)) [
  | inl e ↦ rw (e, remove_dir_all) (inl refl)
  | inr (node, e) ↦ rw (e, remove_dir_all) (remove_tree-IsCut target node.file_type disk)
]

-- The removal of a file removes it, or fails and leaves the disk.
abbrev IsUnlinked : FilePath → Disk → Result (Unit {0}) ErrorKind × Disk → Type 0
IsUnlinked target disk outcome =
    (outcome ≡ (ok tt, remove target disk)) ⊎ ((e : ErrorKind) × (outcome ≡ (err e, disk)))

remove_file-found :
    (target : FilePath) (disk : Disk) (node : Node) (type : FileType)
    → get target disk ≡ some node
    → node.file_type ≡ type
    → IsUnlinked target disk (remove_file target disk)
unfolding remove_file
remove_file-found target disk node directory e kind =
    inr (is_a_directory, rw (e, remove_file) (rw (kind) refl))
remove_file-found target disk node symlink e kind = inl (rw (e, remove_file) (rw (kind) refl))
remove_file-found target disk node (regular bytes) e kind =
    inl (rw (e, remove_file) (rw (kind) refl))

remove_file-absent :
    (target : FilePath) (disk : Disk)
    → get target disk ≡ none
    → remove_file target disk ≡ (err not_found, disk)
unfolding remove_file
remove_file-absent target disk e = rw (e, remove_file) refl

remove_file-IsUnlinked :
    (target : FilePath) (fault : Option ErrorKind) (disk : Disk)
    → IsUnlinked target disk (refusing fault (remove_file target) disk)
remove_file-IsUnlinked target (some e) disk = inr (e, refl)
remove_file-IsUnlinked target none disk = elim (Option-cases (get target disk)) [
  | inl e ↦ inr (not_found, remove_file-absent target disk e)
  | inr (node, e) ↦ remove_file-found target disk node node.file_type e refl
]

remove_other-IsCut :
    (refusals : RemoveRefusals) (target : FilePath) (disk : Disk) (e : ErrorKind)
    → IsCut target disk (remove_other refusals target (err e, disk))
unfolding remove_other
remove_other-IsCut r target disk not_found = inl refl
remove_other-IsCut r target disk already_exists = remove_dir_all-IsCut target r.tree disk
remove_other-IsCut r target disk not_a_directory = remove_dir_all-IsCut target r.tree disk
remove_other-IsCut r target disk is_a_directory = remove_dir_all-IsCut target r.tree disk
remove_other-IsCut r target disk permission_denied = remove_dir_all-IsCut target r.tree disk
remove_other-IsCut r target disk other_error = remove_dir_all-IsCut target r.tree disk

pub remove_path-IsCut :
    (refusals : RemoveRefusals) (target : FilePath) (disk : Disk)
    → IsCut target disk (remove_path refusals target disk)
unfolding remove_path
remove_path-IsCut r target disk = elim (remove_file-IsUnlinked target r.file disk) [
  | inl e ↦ rw (e) (unfold remove_other in inr (inl refl))
  | inr (x, e) ↦ rw (e) (remove_other-IsCut r target disk x)
]

-- Neither the path nor what it is below.
same_prefix : (target path : FilePath) → is_prefix target path ≡ false → target ≢ path
same_prefix target path apart same =
    let e = is_prefix_refl path in
    let f : is_prefix path path ≡ false = subst (λ t. is_prefix t path ≡ false) same apart in
    true≢false (sym e ∙ f)

pub IsCut-keeps :
    (target path : FilePath) (disk after : Disk)
    → IsCut target disk after
    → is_prefix target path ≡ false
    → get path after ≡ get path disk
IsCut-keeps target path disk after (inl e) apart = ap (get path) e
IsCut-keeps target path disk after (inr (inl e)) apart =
    ap (get path) e ∙ ground (arith, same_prefix target path apart, get-remove path target disk)
IsCut-keeps target path disk after (inr (inr e)) apart =
    ap (get path) e ∙ get-prune_beside path target disk apart

pub IsCut-gone :
    (target path : FilePath) (disk after : Disk)
    → IsCut target disk after
    → get path disk ≡ none
    → get path after ≡ none
IsCut-gone target path disk after (inl e) gone = ap (get path) e ∙ gone
IsCut-gone target path disk after (inr (inl e)) gone =
    ap (get path) e ∙ ground (arith, gone, get-remove path target disk)
IsCut-gone target path disk after (inr (inr e)) gone = elim (Bool-cases (is_prefix target path)) [
  | inl below ↦ ap (get path) e ∙ get-prune_below path target disk below
  | inr apart ↦ ap (get path) e ∙ get-prune_beside path target disk apart ∙ gone
]

abbrev pub unrefused : RemoveRefusals
unrefused = record { file = none; tree = none }

remove_tree-directory :
    (target : FilePath) (disk : Disk) (node : Node)
    → get target disk ≡ some node
    → node.file_type ≡ directory
    → get target (remove_other unrefused target (err is_a_directory, disk)) ≡ none
unfolding remove_other remove_tree
remove_tree-directory target disk node e kind =
    rw (remove_other, remove_dir_all-found target disk node e)
      (rw (kind, remove_tree) (get-prune_below target target disk (is_prefix_refl target)))

remove_path-found :
    (target : FilePath) (disk : Disk) (node : Node) (type : FileType)
    → get target disk ≡ some node
    → node.file_type ≡ type
    → get target (remove_path unrefused target disk) ≡ none
unfolding remove_path remove_file remove_other
remove_path-found target disk node directory e kind =
    rw (e, remove_file) (rw (kind) (remove_tree-directory target disk node e kind))
remove_path-found target disk node symlink e kind =
    rw (e, remove_file) (rw (kind) (get-remove_self target disk))
remove_path-found target disk node (regular bytes) e kind =
    rw (e, remove_file) (rw (kind) (get-remove_self target disk))

pub remove_path-gone :
    (target : FilePath) (disk : Disk) → get target (remove_path unrefused target disk) ≡ none
remove_path-gone target disk = elim (Option-cases (get target disk)) [
  | inl e ↦ IsCut-gone target target disk _ (remove_path-IsCut unrefused target disk) e
  | inr (node, e) ↦ remove_path-found target disk node node.file_type e refl
]
