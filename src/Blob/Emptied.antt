-- ===== src/Blob/Emptied.antt =====
-- A store of server/src/blob.rs that opens adopts nothing: its directory is empty.
use omp_relayd.Base.{
  ap, ℕ, ◌<◌, ◌≡◌, ◌≢◌, refl, subst, ◌∙◌, inl, inr, List, [], ◌∷◌, ◌++◌, length, length-append,
  Option, none, some, Option-cases, ok, text_eq, arith,
}
use omp_relayd.Base.Map.{get, get-remove}
use omp_relayd.Protocol.Limits.{Text}
use omp_relayd.Blob.Types.{Store, FilePath}
use omp_relayd.Blob.Transfer.{path_eq}
use omp_relayd.Blob.Files.{
  Node, directory, symlink, regular, FileType, Disk, ErrorKind, not_found, already_exists,
  not_a_directory, is_a_directory, permission_denied, other_error, recover, refusing,
  remove_dir_all, remove_tree, prune,
}
use omp_relayd.Blob.Opening.{
  private_mode, Refusals, create_private_dir, create_private_dir_if_absent, forgive,
  remove_predecessor, make_parents, instance_dir_name, open_disk,
}
use omp_relayd.Blob.Privacy.{is_prefix-below, get-prune_below}
use omp_relayd.Blob.Untouched.{
  IsDeepSame, create_dir-IsDeepSame, make_parents-IsDeepSame,
  create_private_dir_if_absent-IsDeepSame,
}
use omp_relayd.Blob.Successes.{OnOk, OnOk-always, OnOk-refusing, follow-OnOk}

-- Nothing stands below the path.
abbrev pub IsEmptyBelow : FilePath → Disk → Type 0
IsEmptyBelow root disk = (c : Text) (rest : FilePath) → get (root ++ c ∷ rest) disk ≡ none

longer :
    (base : FilePath) (name c : Text) (rest : FilePath)
    → length base < length ((base ++ name ∷ []) ++ c ∷ rest)
longer base name c rest =
    omega (arith, length-append (base ++ name ∷ []) (c ∷ rest), length-append base (name ∷ []))

pub root_longer : (base : FilePath) (name : Text) → length base < length (base ++ name ∷ [])
root_longer base name = omega (arith, length-append base (name ∷ []))

abbrev IsSymlink : FileType → Type 0
IsSymlink symlink = Unit {0}
IsSymlink _ = ⊥

symlink≢directory : symlink ≢ directory
symlink≢directory e = subst (λ t. IsSymlink t) e tt

prune-IsEmptyBelow : (root : FilePath) (disk : Disk) → IsEmptyBelow root (prune root disk)
prune-IsEmptyBelow root disk c rest =
    get-prune_below (root ++ c ∷ rest) root disk (is_prefix-below root (c ∷ rest))

-- What is no directory.
abbrev pub IsLeaf : Option Node → Type 0
IsLeaf none = Unit {0}
IsLeaf (some node) = node.file_type ≢ directory

-- Nothing stands below the path unless it is a directory, as on every disk.
abbrev pub IsClosed : FilePath → Disk → Type 0
IsClosed root disk = IsLeaf (get root disk) → IsEmptyBelow root disk

below_other : (root : FilePath) (c : Text) (rest : FilePath) → root ++ c ∷ rest ≢ root
below_other root c rest e =
    let longer = ap length e in
    let sum = length-append root (c ∷ rest) in omega (arith, longer, sum)

remove_tree-IsEmptyBelow :
    (root : FilePath) (disk : Disk) (type : FileType)
    → (type ≢ directory → IsEmptyBelow root disk)
    → OnOk (IsEmptyBelow root) (recover (remove_tree root type disk) forgive)
unfolding remove_tree forgive
remove_tree-IsEmptyBelow root disk directory closed = prune-IsEmptyBelow root disk
remove_tree-IsEmptyBelow root disk symlink closed = λ c rest.
    let empty = closed symlink≢directory c rest in
    ground (arith, empty, get-remove (root ++ c ∷ rest) root disk)
remove_tree-IsEmptyBelow root disk (regular bytes) closed = tt

removed-IsEmptyBelow :
    (fault : Option ErrorKind) (root : FilePath) (disk : Disk)
    → fault ≢ some not_found
    → IsClosed root disk
    → OnOk (IsEmptyBelow root) (recover (refusing fault (remove_dir_all root) disk) forgive)
unfolding remove_dir_all forgive
removed-IsEmptyBelow none root disk honest closed = elim (Option-cases (get root disk)) [
  | inl e ↦ rw (e, remove_dir_all) (closed (rw (e) tt))
  | inr (node, e) ↦
      rw (e, remove_dir_all)
        (remove_tree-IsEmptyBelow root disk node.file_type (λ leaf. closed (rw (e) leaf)))
]
removed-IsEmptyBelow (some not_found) root disk honest closed = absurd (honest refl)
removed-IsEmptyBelow (some already_exists) root disk honest closed = tt
removed-IsEmptyBelow (some not_a_directory) root disk honest closed = tt
removed-IsEmptyBelow (some is_a_directory) root disk honest closed = tt
removed-IsEmptyBelow (some permission_denied) root disk honest closed = tt
removed-IsEmptyBelow (some other_error) root disk honest closed = tt

create_dir-IsEmptyBelow :
    (root : FilePath) (disk : Disk)
    → IsEmptyBelow root disk
    → IsEmptyBelow root (create_private_dir root disk).1
unfolding create_private_dir
create_dir-IsEmptyBelow root disk empty c rest =
    create_dir-IsDeepSame private_mode (length root) root disk (omega arith) (root ++ c ∷ rest)
      (omega (arith, length-append root (c ∷ rest)))
    ∙ empty c rest

emptied :
    (sha256 : List ℕ → List ℕ) (refusals : Refusals) (base : FilePath) (name : Text) (disk : Disk)
    → refusals.remove ≢ some not_found
    → IsClosed (base ++ instance_dir_name sha256 name ∷ []) disk
    → OnOk
        (IsEmptyBelow (base ++ instance_dir_name sha256 name ∷ []))
        (open_disk sha256 refusals base name disk)
unfolding open_disk remove_predecessor
emptied sha256 refusals base name disk honest closed =
    let n = length base in
    let own = instance_dir_name sha256 name in
    let root = base ++ own ∷ [] in
    let Deep : Disk → Type 0 = IsDeepSame n disk in
    let E : Disk → Type 0 = IsEmptyBelow root in
    follow-OnOk (make_parents refusals base disk) _ Deep E
      (OnOk-always Deep (make_parents refusals base disk)
        (make_parents-IsDeepSame refusals base disk))
      (λ a d same.
        follow-OnOk (create_private_dir_if_absent refusals base d) _ Deep E
          (OnOk-always Deep (create_private_dir_if_absent refusals base d) (λ path long.
            create_private_dir_if_absent-IsDeepSame refusals n base d (omega arith) path long
            ∙ same path long))
          (λ a d same.
            follow-OnOk (recover (refusing refusals.remove (remove_dir_all root) d) forgive) _ E E
              (removed-IsEmptyBelow refusals.remove root d honest (λ leaf c rest.
                same (root ++ c ∷ rest) (longer base own c rest)
                ∙ closed (subst IsLeaf (same root (root_longer base own)) leaf) c rest))
              (λ a d empty.
                follow-OnOk (refusing refusals.root (create_private_dir root) d) _ E E
                  (OnOk-refusing E refusals.root (create_private_dir root) d (
                    OnOk-always E (create_private_dir root d)
                      (create_dir-IsEmptyBelow root d empty)))
                  (λ a d empty. empty))))

-- When `Store::open` succeeds, nothing stands below the store's own directory, whatever a
-- predecessor left there; it is given that the system does not deny what exists when it removes the
-- tree, and that at first nothing stands below that directory unless it is one.
pub open_disk-IsEmptyBelow :
    (sha256 : List ℕ → List ℕ) (refusals : Refusals) (base : FilePath) (name : Text)
    (disk after : Disk) (store : Store)
    → refusals.remove ≢ some not_found
    → IsClosed (base ++ instance_dir_name sha256 name ∷ []) disk
    → open_disk sha256 refusals base name disk ≡ (ok store, after)
    → IsEmptyBelow (base ++ instance_dir_name sha256 name ∷ []) after
open_disk-IsEmptyBelow sha256 refusals base name disk after store honest closed opened =
    subst (OnOk (IsEmptyBelow (base ++ instance_dir_name sha256 name ∷ []))) opened
      (emptied sha256 refusals base name disk honest closed)
