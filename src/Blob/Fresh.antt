-- ===== src/Blob/Fresh.antt =====
-- A store of server/src/blob.rs that the system does not hinder opens, and adopts nothing.
use omp_relayd.Base.{
  ℕ, Bool, ◌≡◌, ◌⊎◌, inl, inr, refl, sym, subst, ◌∙◌, ap, true, List, [], ◌∷◌, ◌++◌, length, Option,
  none, some, Option-cases, Result, ok, err, text_eq, arith,
}
use omp_relayd.Base.Map.{get, insert, get-remove_self}
use omp_relayd.Protocol.Limits.{Text}
use omp_relayd.Blob.Types.{FilePath, default_index}
use mathlib.Core.List.{append-nil}
use omp_relayd.Blob.Transfer.{path_eq}
use omp_relayd.Blob.Files.{
  directory, symlink, regular, FileType, Node, Disk, ErrorKind, not_found, already_exists, recover,
  follow, create_dir, set_permissions, create_dir_all, remove_dir_all, remove_tree, prune,
  is_prefix,
}
use omp_relayd.Blob.Opening.{
  private_mode, Refusals, create_private_dir, set_private, verify_found, verify_private_dir,
  existing, create_private_dir_if_absent, forgive, remove_predecessor, make_parents, parent_of,
  instance_dir_name, open_disk,
}
use omp_relayd.Blob.Privacy.{
  is_prefix-below, get-prune_below, make_parents-keeps, symlink_metadata-found,
  remove_dir_all-found,
}
use omp_relayd.Blob.Untouched.{make_parents-IsDeepSame, create_private_dir_if_absent-IsDeepSame}
use omp_relayd.Blob.Emptied.{IsEmptyBelow, IsClosed, root_longer, open_disk-IsEmptyBelow}

-- A system that refuses nothing.
abbrev pub unhindered : Bool → Refusals
unhindered privileged = record {
  privileged = privileged;
  parent = none;
  base = none;
  metadata = none;
  permissions = none;
  remove = none;
  root = none;
}

-- What `remove_dir_all` removes, or what is not there.
abbrev pub IsRemovable : Option Node → Type 0
IsRemovable none = Unit {0}
IsRemovable (some node) = (node.file_type ≡ directory) ⊎ (node.file_type ≡ symlink)

abbrev IsRegular : FileType → Type 0
IsRegular (regular bytes) = Unit {0}
IsRegular _ = ⊥

module _ (privileged : Bool) where
  make_parents-ok :
      (base : FilePath) (disk : Disk)
      → make_parents (unhindered privileged) base disk
        ≡ (ok tt, (make_parents (unhindered privileged) base disk).1)
  unfolding make_parents create_dir_all
  make_parents-ok base disk = elim (Option-cases (parent_of base)) [
    | inl top ↦ rw (top, make_parents) refl
    | inr (parent, e) ↦ rw (e, make_parents) refl
  ]

  settled :
      (outcome : Result (Unit {0}) ErrorKind × Disk) (after : Disk)
      → outcome ≡ (ok tt, after)
      → outcome ≡ (ok tt, outcome.1)
  settled outcome after e = e ∙ ap (λ d. (ok tt, d)) (sym (ap (λ o. o.1) e))

  set_private-ok :
      (base : FilePath) (disk : Disk) (node : Node)
      → get base disk ≡ some node
      → node.owned ≡ true
      → set_private privileged base disk
        ≡ (ok tt, insert base (record node { mode = private_mode }) disk)
  unfolding set_private set_permissions
  set_private-ok base disk node held mine = rw (held, mine, set_permissions) refl

  verify_found-directory :
      (base : FilePath) (disk : Disk) (type : FileType)
      → type ≡ directory
      → verify_found (unhindered privileged) base type disk ≡ set_private privileged base disk
  unfolding verify_found
  verify_found-directory base disk type e = rw (e) refl

  create_private_dir-found :
      (base : FilePath) (disk : Disk) (node : Node)
      → get base disk ≡ some node
      → create_private_dir base disk ≡ (err already_exists, disk)
  unfolding create_private_dir create_dir
  create_private_dir-found base disk node held = rw (held, create_dir) refl

  create_private_dir_if_absent-found :
      (base : FilePath) (disk : Disk) (node : Node)
      → get base disk ≡ some node
      → node.file_type ≡ directory
      → node.owned ≡ true
      → create_private_dir_if_absent (unhindered privileged) base disk
        ≡ (ok tt, insert base (record node { mode = private_mode }) disk)
  unfolding create_private_dir_if_absent existing verify_private_dir verify_found
  create_private_dir_if_absent-found base disk node held is_dir mine =
      rw (create_private_dir-found base disk node held, recover)
        (rw (symlink_metadata-found base disk node held, follow)
          (verify_found-directory base disk node.file_type is_dir
            ∙ set_private-ok base disk node held mine))

  remove_tree-ok :
      (root : FilePath) (disk : Disk) (type : FileType)
      → (type ≡ directory) ⊎ (type ≡ symlink)
      → (after : Disk) × (remove_tree root type disk ≡ (ok tt, after)) × (get root after ≡ none)
  unfolding remove_tree
  remove_tree-ok root disk directory kind = (
    prune root disk,
    refl,
    get-prune_below root root disk
        (subst (λ p. is_prefix root p ≡ true) (append-nil root) (is_prefix-below root [])),
  )
  remove_tree-ok root disk symlink kind = (_, refl, get-remove_self root disk)
  remove_tree-ok root disk (regular bytes) (inl e) = absurd (subst (λ t. IsRegular t) e tt)
  remove_tree-ok root disk (regular bytes) (inr e) = absurd (subst (λ t. IsRegular t) e tt)

  remove_dir_all-absent :
      (root : FilePath) (disk : Disk)
      → get root disk ≡ none
      → remove_dir_all root disk ≡ (err not_found, disk)
  unfolding remove_dir_all
  remove_dir_all-absent root disk e = rw (e, remove_dir_all) refl

  remove_predecessor-ok :
      (root : FilePath) (disk : Disk)
      → IsRemovable (get root disk)
      → (after : Disk) × (remove_predecessor (unhindered privileged) root disk ≡ (ok tt, after))
        × (get root after ≡ none)
  unfolding remove_predecessor forgive
  remove_predecessor-ok root disk fit = elim (Option-cases (get root disk)) [
    | inl e ↦ (disk, rw (remove_dir_all-absent root disk e, recover) refl, e)
    | inr (node, e) ↦
        let (after, done, gone) =
          remove_tree-ok root disk node.file_type (subst IsRemovable e fit) in
        (after, rw (remove_dir_all-found root disk node e, done, recover) refl, gone)
  ]

  create_private_dir-ok :
      (root : FilePath) (disk : Disk)
      → get root disk ≡ none
      → create_private_dir root disk ≡ (ok tt, (create_private_dir root disk).1)
  unfolding create_private_dir create_dir
  create_private_dir-ok root disk gone = rw (gone, create_dir) refl

module _ (sha256 : List ℕ → List ℕ) (privileged : Bool) (base : FilePath) (name : Text)
    (disk : Disk) where
  abbrev pub own_root : FilePath
  own_root = base ++ instance_dir_name sha256 name ∷ []

  open_disk-ok :
      (node : Node)
      → get base disk ≡ some node
      → node.file_type ≡ directory
      → node.owned ≡ true
      → IsRemovable (get own_root disk)
      → (after : Disk) × (open_disk sha256 (unhindered privileged) base name disk ≡ (
        ok (record { root = own_root; index = default_index; removals = []; next_serial = 0 }),
        after,
      ))
  unfolding open_disk
  open_disk-ok node held is_dir mine fit =
      let r = unhindered privileged in
      let d1 = (make_parents r base disk).1 in
      let d2 = (create_private_dir_if_absent r base d1).1 in
      let long = root_longer base (instance_dir_name sha256 name) in
      let same : get own_root d2 ≡ get own_root disk =
        create_private_dir_if_absent-IsDeepSame r (length base) base d1 (omega arith) own_root long
        ∙ make_parents-IsDeepSame r base disk own_root long in
      let (d3, removed, gone) =
        remove_predecessor-ok privileged own_root d2 (subst IsRemovable (sym same) fit) in
      (
        (create_private_dir own_root d3).1,
        rw
            (
              make_parents-ok privileged base disk,
              settled privileged (create_private_dir_if_absent r base d1) _ (
                  create_private_dir_if_absent-found privileged base d1 node
                    (make_parents-keeps r base base disk node held) is_dir mine),
              removed,
              create_private_dir-ok privileged own_root d3 gone,
            )
            refl,
      )

  -- When the base is a directory of the user, what stands at the store's own path is a directory, a
  -- symbolic link or nothing, nothing stands below that path unless it is a directory, and the
  -- system refuses nothing, `Store::open` succeeds with an empty index and no removal queued, and
  -- then nothing stands below the store's directory, whatever a predecessor left there.
  pub open_disk-fresh :
      (node : Node)
      → get base disk ≡ some node
      → node.file_type ≡ directory
      → node.owned ≡ true
      → IsRemovable (get own_root disk)
      → IsClosed own_root disk
      → (after : Disk) × (open_disk sha256 (unhindered privileged) base name disk ≡ (
        ok (record { root = own_root; index = default_index; removals = []; next_serial = 0 }),
        after,
      ))
        × IsEmptyBelow own_root after
  open_disk-fresh node held is_dir mine fit closed =
      let (after, opened) = open_disk-ok node held is_dir mine fit in
      (
        after,
        opened,
        open_disk-IsEmptyBelow sha256 (unhindered privileged) base name disk after _ (λ e. cc)
            closed opened,
      )
