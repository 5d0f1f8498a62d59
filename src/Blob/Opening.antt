-- ===== src/Blob/Opening.antt =====
-- `Store::open` of server/src/blob.rs, and the private directories.
use omp_relayd.Base.{ℕ, Bool, zero, suc, List, [], ◌∷◌, ◌++◌, Option, none, some, text_eq}
use omp_relayd.Base.Text.{codes, encode_utf8}
use omp_relayd.Protocol.Limits.{Text}
use omp_relayd.Blob.Types.{Store, FilePath, default_index}
use omp_relayd.Blob.Digest.{digest}
use omp_relayd.Blob.Files.{
  FileType, directory, symlink, regular, ErrorKind, not_found, already_exists, Call, ◌>>=◌, catch,
  return, fail, refusing, symlink_metadata, create_dir, set_permissions, remove_dir_all,
  create_dir_all,
}

-- 0o700
abbrev pub private_mode : ℕ
private_mode = 448

-- What the system may refuse on the way, call by call, and whether the process may change the mode
-- of a directory that is not its user's: one that runs as root, or with `CAP_DAC_OVERRIDE`.
pub record Refusals : Type 0 where
  pub privileged : Bool
  pub parent : Option ErrorKind
  pub base : Option ErrorKind
  pub metadata : Option ErrorKind
  pub permissions : Option ErrorKind
  pub remove : Option ErrorKind
  pub root : Option ErrorKind

unfoldable pub create_private_dir : FilePath → Call (Unit {0})
create_private_dir path = create_dir private_mode path

unfoldable pub set_private : Bool → FilePath → Call (Unit {0})
set_private privileged path = set_permissions privileged private_mode path

-- `verify_private_dir` once it knows what stands at the path.
unfoldable pub verify_found : Refusals → FilePath → FileType → Call (Unit {0})
unfolding set_private
verify_found refusals path directory =
    refusing refusals.permissions (set_private refusals.privileged path)
verify_found refusals path symlink = fail already_exists
verify_found refusals path (regular bytes) = fail already_exists

unfoldable pub verify_private_dir : Refusals → FilePath → Call (Unit {0})
unfolding verify_found
verify_private_dir refusals path = do
  found ← refusing refusals.metadata (symlink_metadata path)
  verify_found refusals path found.file_type

unfoldable pub existing : Refusals → FilePath → ErrorKind → Call (Unit {0})
unfolding verify_private_dir
existing refusals path already_exists = verify_private_dir refusals path
existing refusals path e = fail e

unfoldable pub create_private_dir_if_absent : Refusals → FilePath → Call (Unit {0})
unfolding create_private_dir existing
create_private_dir_if_absent refusals path =
    catch (refusing refusals.base (create_private_dir path)) (existing refusals path)

-- A missing path is not an error of its removal.
unfoldable pub forgive : ErrorKind → Call (Unit {0})
forgive not_found = return tt
forgive e = fail e

-- The removal of a predecessor's tree.
unfoldable pub remove_predecessor : Refusals → FilePath → Call (Unit {0})
unfolding forgive
remove_predecessor refusals root = catch (refusing refusals.remove (remove_dir_all root)) forgive

-- `Path::parent`
unfoldable pub parent_of : FilePath → Option FilePath
parent_of [] = none
parent_of (c ∷ []) = some []
parent_of (c ∷ d ∷ cs) = elim (parent_of (d ∷ cs)) [
  | none ↦ some (c ∷ [])
  | some path ↦ some (c ∷ path)
]

unfoldable pub make_parents : Refusals → FilePath → Call (Unit {0})
unfolding parent_of
make_parents refusals base = elim (parent_of base) [
  | none ↦ return tt
  | some parent ↦ refusing refusals.parent (create_dir_all parent)
]

-- `[..16]` of a text of single bytes.
unfoldable pub first_of : ℕ → Text → Text
first_of zero s = []
first_of (suc n) [] = []
first_of (suc n) (c ∷ s) = c ∷ first_of n s

module _ (sha256 : List ℕ → List ℕ) where
  unfoldable pub instance_dir_name : Text → Text
  unfolding first_of
  instance_dir_name name = codes "blobs-" ++ first_of 16 (digest sha256 (encode_utf8 name))

  unfoldable pub open_disk : Refusals → FilePath → Text → Call Store
  open_disk refusals base name = do
    let root = base ++ (instance_dir_name name ∷ [])
    _ ← make_parents refusals base
    _ ← create_private_dir_if_absent refusals base
    _ ← remove_predecessor refusals root
    _ ← refusing refusals.root (create_private_dir root)
    return (record { root = root; index = default_index; removals = []; next_serial = 0 })
