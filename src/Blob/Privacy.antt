-- ===== src/Blob/Privacy.antt =====
-- What `Store::open` of server/src/blob.rs leaves on the disk, and what it refuses to touch.
use omp_relayd.Base.{
  Bool, ℕ, ◌≡◌, ◌≢◌, ◌⊎◌, inl, inr, refl, sym, subst, ◌∙◌, true, false, List, [], ◌∷◌, ◌++◌, Option,
  none, some, Option-cases, Result, ok, err, is_ok, equals_refl, text_eq, arith,
}
use omp_relayd.Base.Map.{get, get-insert}
use omp_relayd.Protocol.Limits.{Text}
use omp_relayd.Blob.Types.{FilePath}
use omp_relayd.Blob.Transfer.{path_eq}
use omp_relayd.Blob.Files.{
  FileType, directory, symlink, regular, Node, Disk, ErrorKind, not_found, already_exists,
  not_a_directory, is_a_directory, permission_denied, other_error, Call, ◌>>=◌, follow, recover,
  refusing, symlink_metadata, create_dir, set_permissions, create_dir_all, create_below, is_prefix,
  prune, remove_dir_all, remove_tree,
}
use omp_relayd.Blob.Opening.{
  private_mode, Refusals, existing, verify_found, create_private_dir, set_private,
  verify_private_dir, create_private_dir_if_absent, open_disk, parent_of, make_parents,
}

pub is_prefix-below : (root rest : FilePath) → is_prefix root (root ++ rest) ≡ true
unfolding is_prefix
is_prefix-below [] rest = refl
is_prefix-below (c ∷ root) rest = rw (equals_refl c, is_prefix-below root rest) refl

pub is_prefix-above : (base : FilePath) (c : Text) → is_prefix (base ++ c ∷ []) base ≡ false
unfolding is_prefix
is_prefix-above [] c = refl
is_prefix-above (d ∷ base) c = rw (equals_refl d, is_prefix-above base c) refl

same_prefix :
    (root other path : FilePath)
    → is_prefix root path ≡ true
    → is_prefix root other ≡ false
    → other ≢ path
same_prefix root other path h e same = cc

pub get-prune_below :
    (path root : FilePath) (disk : Disk)
    → is_prefix root path ≡ true
    → get path (prune root disk) ≡ none
unfolding get prune
get-prune_below path root [] h = refl
get-prune_below path root ((other, node) ∷ disk) h =
    ground (arith, get-prune_below path root disk h, same_prefix root other path h)

pub get-prune_beside :
    (path root : FilePath) (disk : Disk)
    → is_prefix root path ≡ false
    → get path (prune root disk) ≡ get path disk
unfolding get prune
get-prune_beside path root [] h = refl
get-prune_beside path root ((other, node) ∷ disk) h =
    ground (arith, get-prune_beside path root disk h)

-- A node that no process may take for its own directory, or that this one may not: a file, a
-- symbolic link, or, unless the process is privileged, somebody else's directory.
abbrev pub IsForeign : Refusals → Node → Type 0
IsForeign refusals node =
    (node.file_type ≢ directory) ⊎ ((node.owned ≡ false) × (refusals.privileged ≡ false))

-- A call that fails and leaves the disk as it was.
abbrev pub IsFailure : {A : Type 0} → Disk → Result A ErrorKind × Disk → Type 0
IsFailure disk outcome = (e : ErrorKind) × (outcome ≡ (err e, disk))

-- How a sequence goes on, by the outcome of its first call.
module _ {A B : Type 0} (call : Call A) (next : A → Call B) (disk : Disk) where
  bind-IsFailure : IsFailure disk (call disk) → IsFailure disk ((call >>= next) disk)
  bind-IsFailure (e, failed) = rw (failed, follow) (e, refl)

  bind-ok : (a : A) (after : Disk) → call disk ≡ (ok a, after) → (call >>= next) disk ≡ next a after
  bind-ok a after done = rw (done, follow) refl

pub refusing-cases :
    {A : Type 0} (fault : Option ErrorKind) (call : Call A) (disk : Disk)
    → IsFailure disk (refusing fault call disk) ⊎ (refusing fault call disk ≡ call disk)
refusing-cases none call disk = inr refl
refusing-cases (some e) call disk = inl (e, refl)

refusing-IsFailure :
    {A : Type 0} (fault : Option ErrorKind) (call : Call A) (disk : Disk)
    → IsFailure disk (call disk)
    → IsFailure disk (refusing fault call disk)
refusing-IsFailure none call disk failed = failed
refusing-IsFailure (some e) call disk failed = (e, refl)

set_permissions-foreign :
    (privileged : Bool) (mode : ℕ) (path : FilePath) (disk : Disk) (node : Node)
    → get path disk ≡ some node
    → node.owned ≡ false
    → privileged ≡ false
    → IsFailure disk (set_permissions privileged mode path disk)
unfolding set_permissions
set_permissions-foreign privileged mode path disk node e foreign plain =
    (permission_denied, rw (e, foreign, plain, set_permissions) refl)

verify_found-foreign :
    (refusals : Refusals) (path : FilePath) (disk : Disk) (node : Node) (type : FileType)
    → get path disk ≡ some node
    → node.file_type ≡ type
    → IsForeign refusals node
    → IsFailure disk (verify_found refusals path type disk)
unfolding verify_found set_private
verify_found-foreign refusals path disk node directory held e (inl other) = absurd (other e)
verify_found-foreign refusals path disk node directory held e (inr (foreign, plain)) =
    refusing-IsFailure refusals.permissions _ disk
      (set_permissions-foreign refusals.privileged private_mode path disk node held foreign plain)
verify_found-foreign refusals path disk node symlink held e foreign = (already_exists, refl)
verify_found-foreign refusals path disk node (regular bytes) held e foreign = (already_exists, refl)

pub symlink_metadata-found :
    (path : FilePath) (disk : Disk) (node : Node)
    → get path disk ≡ some node
    → symlink_metadata path disk ≡ (ok node, disk)
unfolding symlink_metadata
symlink_metadata-found path disk node held = rw (held, symlink_metadata) refl

pub remove_dir_all-found :
    (root : FilePath) (disk : Disk) (node : Node)
    → get root disk ≡ some node
    → remove_dir_all root disk ≡ remove_tree root node.file_type disk
unfolding remove_dir_all
remove_dir_all-found root disk node e = rw (e, remove_dir_all) refl

module _ (refusals : Refusals) (path : FilePath) (disk : Disk) (node : Node)
    (held : get path disk ≡ some node) (foreign : IsForeign refusals node) where
  verify_private_dir-foreign : IsFailure disk (verify_private_dir refusals path disk)
  unfolding verify_private_dir
  verify_private_dir-foreign =
      let next = λ (found : Node). verify_found refusals path found.file_type in
      elim (refusing-cases refusals.metadata (symlink_metadata path) disk) [
        | inl failed ↦
            bind-IsFailure (refusing refusals.metadata (symlink_metadata path)) next disk failed
        | inr same ↦
            subst (IsFailure disk)
              (sym (
                bind-ok (refusing refusals.metadata (symlink_metadata path)) next disk node disk
                  (same ∙ symlink_metadata-found path disk node held)))
              (verify_found-foreign refusals path disk node node.file_type held refl foreign)
      ]

  existing-foreign : (e : ErrorKind) → IsFailure disk (existing refusals path e disk)
  unfolding existing
  existing-foreign already_exists = verify_private_dir-foreign
  existing-foreign not_found = (not_found, refl)
  existing-foreign not_a_directory = (not_a_directory, refl)
  existing-foreign is_a_directory = (is_a_directory, refl)
  existing-foreign permission_denied = (permission_denied, refl)
  existing-foreign other_error = (other_error, refl)

  create_private_dir-held : IsFailure disk (create_private_dir path disk)
  unfolding create_private_dir create_dir
  create_private_dir-held = (already_exists, rw (held, create_dir) refl)

  create_private_dir_if_absent-foreign :
      IsFailure disk (create_private_dir_if_absent refusals path disk)
  unfolding create_private_dir_if_absent
  create_private_dir_if_absent-foreign =
      let (e, failed) =
        refusing-IsFailure refusals.base (create_private_dir path) disk create_private_dir-held in
      rw (failed, recover) (existing-foreign e)

create_below-keeps :
    (made rest path : FilePath) (disk : Disk) (node : Node)
    → get path disk ≡ some node
    → get path (create_below made rest disk) ≡ some node
unfolding create_below
create_below-keeps made [] path disk node held = held
create_below-keeps made (c ∷ rest) path disk node held =
    elim (Option-cases (get (made ++ c ∷ []) disk)) [
      | inr (other, e) ↦
          rw (e, create_below) (create_below-keeps (made ++ c ∷ []) rest path disk node held)
      | inl e ↦
          rw (e, create_below)
            (create_below-keeps (made ++ c ∷ []) rest path _ node (
              ground (
                arith,
                held,
                e,
                get-insert path (made ++ c ∷ [])
                    (record { file_type = directory; owned = true; mode = 493 }) disk,
              )))
    ]

-- The first call of `open_disk`, which makes the parents of the base.
pub make_parents-keeps :
    (refusals : Refusals) (base path : FilePath) (disk : Disk) (node : Node)
    → get path disk ≡ some node
    → get path (make_parents refusals base disk).1 ≡ some node
unfolding make_parents create_dir_all
make_parents-keeps refusals base path disk node held = elim (Option-cases (parent_of base)) [
  | inl top ↦ rw (top, make_parents) held
  | inr (parent, e) ↦
      rw (e, make_parents)
        (elim (refusing-cases refusals.parent (create_dir_all parent) disk) [
          | inl (f, failed) ↦ rw (failed) held
          | inr same ↦ rw (same) (create_below-keeps [] parent path disk node held)
        ])
]

-- What follows a call keeps what the call keeps, on both ends.
pub follow-rule :
    {A B : Type 0} (outcome : Result A ErrorKind × Disk) (next : A → Call B) (P : Disk → Type 0)
    (Q : Result B ErrorKind × Disk → Type 0)
    → P outcome.1
    → ((e : ErrorKind) (after : Disk) → P after → Q (err e, after))
    → ((a : A) (after : Disk) → outcome ≡ (ok a, after) → P after → Q (next a after))
    → Q (follow outcome next)
follow-rule (ok a, after) next P Q p failed went = went a after refl p
follow-rule (err e, after) next P Q p failed went = failed e after p

-- A base that is a file or a symbolic link, or another user's directory when the process is not
-- privileged, is refused, whatever else the system refuses, and then nothing that stood on the disk has been removed or changed.
pub open_disk-foreign :
    (sha256 : List ℕ → List ℕ) (refusals : Refusals) (base : FilePath) (name : Text) (disk : Disk)
    (foreign : Node) (path : FilePath) (node : Node)
    → get base disk ≡ some foreign
    → IsForeign refusals foreign
    → get path disk ≡ some node
    → (is_ok (open_disk sha256 refusals base name disk).0 ≡ false)
      × (get path (open_disk sha256 refusals base name disk).1 ≡ some node)
unfolding open_disk
open_disk-foreign sha256 refusals base name disk foreign path node standing strange held =
    follow-rule (make_parents refusals base disk) _
      (λ d. (get base d ≡ some foreign) × (get path d ≡ some node))
      (λ o. (is_ok o.0 ≡ false) × (get path o.1 ≡ some node))
      (
        make_parents-keeps refusals base base disk foreign standing,
        make_parents-keeps refusals base path disk node held,
      )
      (λ e after p. (refl, p.1))
      (λ a after _ p.
        let (e, failed) =
          create_private_dir_if_absent-foreign refusals base after foreign p.0 strange in
        rw (failed, follow) (refl, p.1))
