-- ===== src/Blob/Files.antt =====
-- The file system as server/src/blob.rs uses it: what stands at each path, and the calls.
use omp_relayd.Base.{
  ℕ, Bool, true, false, ◌&&◌, ◌||◌, if◌then◌else◌, List, [], ◌∷◌, ◌++◌, Option, none, some, Result,
  ok, err, equals, text_eq,
}
use omp_relayd.Base.Map.{Map, get, insert, remove}
use omp_relayd.Blob.Types.{FilePath}
use omp_relayd.Blob.Transfer.{path_eq}

pub data FileType : Type 0 where
  directory symlink : FileType
  regular : List ℕ → FileType

-- `owned`: the user of the process owns it.
pub record Node : Type 0 where
  pub file_type : FileType
  pub owned : Bool
  pub mode : ℕ

abbrev pub Disk : Type 0
Disk = Map FilePath Node

pub data ErrorKind : Type 0 where
  not_found already_exists not_a_directory is_a_directory permission_denied other_error : ErrorKind

-- A call of the file system, which gives a result and leaves a disk.
abbrev pub Call : Type 0 → Type 0
Call A = Disk → Result A ErrorKind × Disk

-- What follows a result, and what follows an error.
abbrev pub follow :
    {A B : Type 0} → Result A ErrorKind × Disk → (A → Call B) → Result B ErrorKind × Disk
follow (ok a, disk) next = next a disk
follow (err e, disk) next = (err e, disk)

abbrev pub recover :
    {A : Type 0} → Result A ErrorKind × Disk → (ErrorKind → Call A) → Result A ErrorKind × Disk
recover (ok a, disk) handler = (ok a, disk)
recover (err e, disk) handler = handler e disk

infixl 5 ◌>>=◌
abbrev pub ◌>>=◌ : {A B : Type 0} → Call A → (A → Call B) → Call B
(call >>= next) disk = follow (call disk) next

abbrev pub catch : {A : Type 0} → Call A → (ErrorKind → Call A) → Call A
catch call handler disk = recover (call disk) handler

abbrev pub return : {A : Type 0} → A → Call A
return a disk = (ok a, disk)

abbrev pub fail : {A : Type 0} → ErrorKind → Call A
fail e disk = (err e, disk)

-- A call that the system refuses for a reason of its own, if it has one, without effect.
abbrev pub refusing : {A : Type 0} → Option ErrorKind → Call A → Call A
refusing none call = call
refusing (some e) call = fail e

-- `Path::starts_with`, by components.
unfoldable pub is_prefix : FilePath → FilePath → Bool
is_prefix [] path = true
is_prefix (c ∷ cs) [] = false
is_prefix (c ∷ cs) (d ∷ ds) = equals c d && is_prefix cs ds

-- The disk without what stands at a path and below it.
unfoldable pub prune : FilePath → Disk → Disk
unfolding is_prefix
prune root [] = []
prune root ((path, node) ∷ disk) =
    let rest = prune root disk in if is_prefix root path then rest else (path, node) ∷ rest

unfoldable pub symlink_metadata : FilePath → Call Node
symlink_metadata path disk = elim (get path disk) [
  | none ↦ (err not_found, disk)
  | some node ↦ (ok node, disk)
]

-- `DirBuilder::create` with a mode.
unfoldable pub create_dir : ℕ → FilePath → Call (Unit {0})
create_dir mode path disk = elim (get path disk) [
  | some node ↦ (err already_exists, disk)
  | none ↦ (ok tt, insert path (record { file_type = directory; owned = true; mode = mode }) disk)
]

-- `chmod` is for the owner, and for a process that is privileged.
unfoldable pub set_permissions : Bool → ℕ → FilePath → Call (Unit {0})
set_permissions privileged mode path disk = elim (get path disk) [
  | none ↦ (err not_found, disk)
  | some node ↦
      if node.owned || privileged
      then (ok tt, insert path (record node { mode = mode }) disk)
      else (err permission_denied, disk)
]

unfoldable pub remove_file : FilePath → Call (Unit {0})
remove_file path disk = elim (get path disk) [
  | none ↦ (err not_found, disk)
  | some node ↦ elim node.file_type [
    | directory ↦ (err is_a_directory, disk)
    | symlink ↦ (ok tt, remove path disk)
    | regular bytes ↦ (ok tt, remove path disk)
  ]
]

-- `remove_dir_all` does not follow a symbolic link at the path itself: it removes the link.
unfoldable pub remove_tree : FilePath → FileType → Call (Unit {0})
unfolding prune
remove_tree path directory disk = (ok tt, prune path disk)
remove_tree path symlink disk = (ok tt, remove path disk)
remove_tree path (regular bytes) disk = (err not_a_directory, disk)

unfoldable pub remove_dir_all : FilePath → Call (Unit {0})
unfolding remove_tree
remove_dir_all path disk = elim (get path disk) [
  | none ↦ (err not_found, disk)
  | some node ↦ remove_tree path node.file_type disk
]

-- `create_dir_all`: each missing directory on the way from `made` through the components.
unfoldable pub create_below : FilePath → FilePath → Disk → Disk
create_below made [] disk = disk
create_below made (c ∷ cs) disk =
    let path = made ++ (c ∷ []) in
    elim (get path disk) [
      | some node ↦ create_below path cs disk
      | none ↦
          create_below path cs
            (insert path (record { file_type = directory; owned = true; mode = 493 }) disk)
    ]

unfoldable pub create_dir_all : FilePath → Call (Unit {0})
unfolding create_below
create_dir_all path disk = (ok tt, create_below [] path disk)
