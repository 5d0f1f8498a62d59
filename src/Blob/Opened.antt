-- ===== src/Blob/Opened.antt =====
-- What `Store::open` of server/src/blob.rs leaves on the disk when it succeeds.
use omp_relayd.Base.{
  length, length-append, ap, Bool, false, ◌≢◌, subst, ℕ, ◌≡◌, inl, inr, refl, ◌∙◌, true, Bool-cases,
  List, [], ◌∷◌, ◌++◌, Option, none, some, Option-cases, Result, ok, err, text_eq, arith,
}
use omp_relayd.Base.Map.{get, get-insert, get-insert_self, get-remove}
use omp_relayd.Protocol.Limits.{Text}
use omp_relayd.Blob.Types.{Store, FilePath}
use omp_relayd.Blob.Transfer.{path_eq}
use omp_relayd.Blob.Files.{
  FileType, directory, symlink, regular, Node, Disk, ErrorKind, not_found, already_exists,
  not_a_directory, is_a_directory, permission_denied, other_error, recover, refusing, remove_tree,
  create_dir, set_permissions, remove_dir_all,
}
use omp_relayd.Blob.Opening.{
  private_mode, Refusals, existing, forgive, verify_found, create_private_dir, set_private,
  verify_private_dir, create_private_dir_if_absent, remove_predecessor, open_disk, make_parents,
  instance_dir_name,
}
use omp_relayd.Blob.Privacy.{is_prefix-above, get-prune_beside}
use omp_relayd.Blob.Successes.{
  OnOk, OnOk-refusing, symlink_metadata-OnOk, OnOk-recover, follow-OnOk, OnOk-always, OnOk-both,
}

-- A directory of the user, which only the user may enter, stands at the path.
abbrev pub IsPrivate : FilePath → Disk → Type 0
IsPrivate path disk =
    get path disk ≡ some (record { file_type = directory; owned = true; mode = private_mode })

create_private_dir-IsPrivate :
    (path : FilePath) (disk : Disk) → OnOk (IsPrivate path) (create_private_dir path disk)
unfolding create_private_dir create_dir
create_private_dir-IsPrivate path disk = elim (Option-cases (get path disk)) [
  | inl e ↦ rw (e, create_dir) (get-insert_self path _ disk)
  | inr (node, e) ↦ rw (e, create_dir) tt
]

set_private-IsPrivate :
    (privileged : Bool) (path : FilePath) (disk : Disk) (node : Node)
    → privileged ≡ false
    → get path disk ≡ some node
    → node.file_type ≡ directory
    → OnOk (IsPrivate path) (set_private privileged path disk)
unfolding set_private set_permissions
set_private-IsPrivate privileged path disk node plain held is_dir = elim (Bool-cases node.owned) [
  | inl e ↦ rw (held, e, set_permissions) (rw (is_dir) (get-insert_self path _ disk))
  | inr e ↦ rw (held, e, plain, set_permissions) tt
]

verify_found-IsPrivate :
    (refusals : Refusals) (path : FilePath) (disk : Disk) (node : Node) (type : FileType)
    → refusals.privileged ≡ false
    → get path disk ≡ some node
    → node.file_type ≡ type
    → OnOk (IsPrivate path) (verify_found refusals path type disk)
unfolding verify_found
verify_found-IsPrivate refusals path disk node directory plain held e =
    OnOk-refusing (IsPrivate path) refusals.permissions (set_private refusals.privileged path) disk
      (set_private-IsPrivate refusals.privileged path disk node plain held e)
verify_found-IsPrivate refusals path disk node symlink plain held e = tt
verify_found-IsPrivate refusals path disk node (regular bytes) plain held e = tt

verify_private_dir-IsPrivate :
    (refusals : Refusals) (path : FilePath) (disk : Disk)
    → refusals.privileged ≡ false
    → OnOk (IsPrivate path) (verify_private_dir refusals path disk)
unfolding verify_private_dir
verify_private_dir-IsPrivate refusals path disk plain =
    symlink_metadata-OnOk refusals path disk (IsPrivate path)
      (λ node held. verify_found-IsPrivate refusals path disk node node.file_type plain held refl)

existing-IsPrivate :
    (refusals : Refusals) (path : FilePath)
    → refusals.privileged ≡ false
    → (e : ErrorKind) (disk : Disk) → OnOk (IsPrivate path) (existing refusals path e disk)
unfolding existing
existing-IsPrivate refusals path plain already_exists disk =
    verify_private_dir-IsPrivate refusals path disk plain
existing-IsPrivate refusals path plain not_found disk = tt
existing-IsPrivate refusals path plain not_a_directory disk = tt
existing-IsPrivate refusals path plain is_a_directory disk = tt
existing-IsPrivate refusals path plain permission_denied disk = tt
existing-IsPrivate refusals path plain other_error disk = tt

create_private_dir_if_absent-IsPrivate :
    (refusals : Refusals) (path : FilePath) (disk : Disk)
    → refusals.privileged ≡ false
    → OnOk (IsPrivate path) (create_private_dir_if_absent refusals path disk)
unfolding create_private_dir_if_absent
create_private_dir_if_absent-IsPrivate refusals path disk plain =
    OnOk-recover (IsPrivate path) (refusing refusals.base (create_private_dir path) disk)
      (existing refusals path)
      (OnOk-refusing (IsPrivate path) refusals.base (create_private_dir path) disk
        (create_private_dir-IsPrivate path disk))
      (existing-IsPrivate refusals path plain)

child_other : (base : FilePath) (c : Text) → base ++ c ∷ [] ≢ base
child_other base c e =
    let longer = ap length e in let sum = length-append base (c ∷ []) in omega (arith, longer, sum)

-- The removal of the root leaves the base.
remove_tree-above :
    (base : FilePath) (c : Text) (disk : Disk) (type : FileType)
    → IsPrivate base disk
    → IsPrivate base (remove_tree (base ++ c ∷ []) type disk).1
unfolding remove_tree
remove_tree-above base c disk directory held =
    get-prune_beside base (base ++ c ∷ []) disk (is_prefix-above base c) ∙ held
remove_tree-above base c disk symlink held =
    ground (arith, held, get-remove base (base ++ c ∷ []) disk, child_other base c)
remove_tree-above base c disk (regular bytes) held = held

remove_dir_all-above :
    (base : FilePath) (c : Text) (disk : Disk)
    → IsPrivate base disk
    → IsPrivate base (remove_dir_all (base ++ c ∷ []) disk).1
unfolding remove_dir_all
remove_dir_all-above base c disk held = elim (Option-cases (get (base ++ c ∷ []) disk)) [
  | inl e ↦ rw (e, remove_dir_all) held
  | inr (node, e) ↦ rw (e, remove_dir_all) (remove_tree-above base c disk node.file_type held)
]

recover-forgive :
    (outcome : Result (Unit {0}) ErrorKind × Disk) → (recover outcome forgive).1 ≡ outcome.1
unfolding forgive
recover-forgive (ok a, disk) = refl
recover-forgive (err not_found, disk) = refl
recover-forgive (err already_exists, disk) = refl
recover-forgive (err not_a_directory, disk) = refl
recover-forgive (err is_a_directory, disk) = refl
recover-forgive (err permission_denied, disk) = refl
recover-forgive (err other_error, disk) = refl

refusing-above :
    (fault : Option ErrorKind) (base : FilePath) (c : Text) (disk : Disk)
    → IsPrivate base disk
    → IsPrivate base (refusing fault (remove_dir_all (base ++ c ∷ [])) disk).1
refusing-above none base c disk held = remove_dir_all-above base c disk held
refusing-above (some e) base c disk held = held

remove_predecessor-above :
    (refusals : Refusals) (base : FilePath) (c : Text) (disk : Disk)
    → IsPrivate base disk
    → IsPrivate base (remove_predecessor refusals (base ++ c ∷ []) disk).1
unfolding remove_predecessor
remove_predecessor-above refusals base c disk held =
    rw (recover-forgive (refusing refusals.remove (remove_dir_all (base ++ c ∷ [])) disk))
      (refusing-above refusals.remove base c disk held)

create_private_dir-keeps :
    (path other : FilePath) (disk : Disk)
    → IsPrivate other disk
    → IsPrivate other (create_private_dir path disk).1
unfolding create_private_dir create_dir
create_private_dir-keeps path other disk held = elim (Option-cases (get path disk)) [
  | inl e ↦
      rw (e, create_dir)
        (ground (
          arith,
          held,
          e,
          get-insert other path
              (record { file_type = directory; owned = true; mode = private_mode }) disk,
        ))
  | inr (node, e) ↦ rw (e, create_dir) held
]

open_disk-OnOk :
    (sha256 : List ℕ → List ℕ) (refusals : Refusals) (base : FilePath) (name : Text) (disk : Disk)
    → refusals.privileged ≡ false
    → OnOk
        (λ after.
          IsPrivate base after × IsPrivate (base ++ instance_dir_name sha256 name ∷ []) after)
        (open_disk sha256 refusals base name disk)
unfolding open_disk
open_disk-OnOk sha256 refusals base name disk plain =
    let root = base ++ instance_dir_name sha256 name ∷ [] in
    let Both : Disk → Type 0 = λ after. IsPrivate base after × IsPrivate root after in
    follow-OnOk (make_parents refusals base disk) _ (λ d. Unit {0}) Both
      (OnOk-always _ (make_parents refusals base disk) tt)
      (λ a d _.
        follow-OnOk (create_private_dir_if_absent refusals base d) _ (IsPrivate base) Both
          (create_private_dir_if_absent-IsPrivate refusals base d plain)
          (λ a d held.
            follow-OnOk (remove_predecessor refusals root d) _ (IsPrivate base) Both
              (OnOk-always (IsPrivate base) (remove_predecessor refusals root d)
                (remove_predecessor-above refusals base (instance_dir_name sha256 name) d held))
              (λ a d held.
                follow-OnOk (refusing refusals.root (create_private_dir root) d) _ Both Both
                  (OnOk-refusing Both refusals.root (create_private_dir root) d (
                    OnOk-both (IsPrivate base) (IsPrivate root) (create_private_dir root d)
                      (OnOk-always (IsPrivate base) (create_private_dir root d)
                        (create_private_dir-keeps root base d held))
                      (create_private_dir-IsPrivate root d)))
                  (λ a d both. both))))

-- When `Store::open` succeeds in a process that is not privileged, the base and the store's own
-- directory beneath it are directories of the user that only the user may enter, whatever stood on
-- the disk and whatever the system refused.
pub open_disk-IsPrivate :
    (sha256 : List ℕ → List ℕ) (refusals : Refusals) (base : FilePath) (name : Text) (disk : Disk)
    (store : Store) (after : Disk)
    → refusals.privileged ≡ false
    → open_disk sha256 refusals base name disk ≡ (ok store, after)
    → IsPrivate base after × IsPrivate (base ++ instance_dir_name sha256 name ∷ []) after
open_disk-IsPrivate sha256 refusals base name disk store after plain opened =
    subst (OnOk (λ d. IsPrivate base d × IsPrivate (base ++ instance_dir_name sha256 name ∷ []) d))
      opened (open_disk-OnOk sha256 refusals base name disk plain)
