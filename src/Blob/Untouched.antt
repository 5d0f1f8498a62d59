-- ===== src/Blob/Untouched.antt =====
-- The first calls of `Store::open` in server/src/blob.rs change nothing below the base.
use omp_relayd.Base.{
  Bool, ◌||◌, ℕ, ◌+◌, ◌<◌, ◌≤◌, ◌≡◌, refl, ap, sym, subst, ◌∙◌, inl, inr, true, Bool-cases, [], ◌∷◌,
  ◌++◌, length, length-append, Option, none, some, Option-cases, Result, ok, err, text_eq, arith,
}
use omp_relayd.Base.Map.{get, insert, get-insert}
use omp_relayd.Blob.Types.{FilePath}
use omp_relayd.Blob.Transfer.{path_eq}
use omp_relayd.Blob.Files.{
  Node, directory, symlink, regular, FileType, Disk, ErrorKind, not_found, already_exists,
  not_a_directory, is_a_directory, permission_denied, other_error, Call, follow, recover, refusing,
  symlink_metadata, create_dir, set_permissions, create_dir_all, create_below,
}
use omp_relayd.Blob.Opening.{
  private_mode, Refusals, create_private_dir, set_private, verify_found, verify_private_dir,
  existing, create_private_dir_if_absent, parent_of, make_parents,
}

-- The second disk is as the first one at every path longer than so many components.
abbrev pub IsDeepSame : ℕ → Disk → Disk → Type 0
IsDeepSame n disk after = (path : FilePath) → n < length path → get path after ≡ get path disk

insert-IsDeepSame :
    (n : ℕ) (at : FilePath) (node : Node) (disk : Disk)
    → length at ≤ n
    → IsDeepSame n disk (insert at node disk)
insert-IsDeepSame n at node disk short path long = elim (path_eq.dec at path) [
  | yes same ↦ absurd (let equal = ap length same in omega (arith, equal))
  | no other ↦ ground (arith, get-insert path at node disk)
]

create_below-IsDeepSame :
    (n : ℕ) (made rest : FilePath) (disk : Disk)
    → length made + length rest ≤ n
    → IsDeepSame n disk (create_below made rest disk)
unfolding create_below
create_below-IsDeepSame n made [] disk short path long = refl
create_below-IsDeepSame n made (c ∷ rest) disk short path long =
    let next : length (made ++ c ∷ []) ≡ length made + 1 = length-append made (c ∷ []) in
    elim (Option-cases (get (made ++ c ∷ []) disk)) [
      | inr (other, e) ↦
          rw (e, create_below)
            (create_below-IsDeepSame n (made ++ c ∷ []) rest disk (omega (arith, next)) path long)
      | inl e ↦
          rw (e, create_below)
            (create_below-IsDeepSame n (made ++ c ∷ []) rest _ (omega (arith, next)) path long
              ∙ insert-IsDeepSame n (made ++ c ∷ [])
                  (record { file_type = directory; owned = true; mode = 493 }) disk
                  (omega (arith, next)) path long)
    ]

parent_of-length :
    (base parent : FilePath) → parent_of base ≡ some parent → length parent ≤ length base
unfolding parent_of
parent_of-length [] parent e = absurd (ground (arith, e))
parent_of-length (c ∷ []) [] e = omega arith
parent_of-length (c ∷ []) (d ∷ parent) e = absurd (ground (arith, e))
parent_of-length (c ∷ d ∷ cs) [] e = omega arith
parent_of-length (c ∷ d ∷ cs) (x ∷ parent) e = elim (Option-cases (parent_of (d ∷ cs))) [
  | inl top ↦ ground (arith, e, top)
  | inr (inner, f) ↦ ground (arith, e, f, parent_of-length (d ∷ cs) inner f)
]

made-IsDeepSame :
    (n : ℕ) (fault : Option ErrorKind) (parent : FilePath) (disk : Disk)
    → length parent ≤ n
    → IsDeepSame n disk (refusing fault (create_dir_all parent) disk).1
unfolding create_dir_all
made-IsDeepSame n none parent disk short = create_below-IsDeepSame n [] parent disk (omega arith)
made-IsDeepSame n (some e) parent disk short = λ path long. refl

pub make_parents-IsDeepSame :
    (refusals : Refusals) (base : FilePath) (disk : Disk)
    → IsDeepSame (length base) disk (make_parents refusals base disk).1
unfolding make_parents
make_parents-IsDeepSame refusals base disk path long = elim (Option-cases (parent_of base)) [
  | inl top ↦ rw (top, make_parents) refl
  | inr (parent, e) ↦
      rw (e, make_parents)
        (made-IsDeepSame (length base) refusals.parent parent disk (parent_of-length base parent e)
          path long)
]

IsDeepSame-refl : (n : ℕ) (disk : Disk) → IsDeepSame n disk disk
IsDeepSame-refl n disk path long = refl

pub create_dir-IsDeepSame :
    (mode n : ℕ) (at : FilePath) (disk : Disk)
    → length at ≤ n
    → IsDeepSame n disk (create_dir mode at disk).1
unfolding create_dir
create_dir-IsDeepSame mode n at disk short = elim (Option-cases (get at disk)) [
  | inl e ↦ λ path long.
      rw (e, create_dir)
        (insert-IsDeepSame n at (record { file_type = directory; owned = true; mode = mode }) disk
          short path long)
  | inr (node, e) ↦ λ path long. rw (e, create_dir) refl
]

set_permissions-IsDeepSame :
    (privileged : Bool) (mode n : ℕ) (at : FilePath) (disk : Disk)
    → length at ≤ n
    → IsDeepSame n disk (set_permissions privileged mode at disk).1
unfolding set_permissions
set_permissions-IsDeepSame privileged mode n at disk short = elim (Option-cases (get at disk)) [
  | inl e ↦ λ path long. rw (e, set_permissions) refl
  | inr (node, e) ↦ elim (Bool-cases (node.owned || privileged)) [
    | inl f ↦ λ path long.
        rw (e, f, set_permissions)
          (insert-IsDeepSame n at
            (record { file_type = node.file_type; owned = node.owned; mode = mode }) disk short path
            long)
    | inr f ↦ λ path long. rw (e, f, set_permissions) refl
  ]
]

refusing-IsDeepSame :
    {A : Type 0} (n : ℕ) (fault : Option ErrorKind) (call : Call A) (disk : Disk)
    → IsDeepSame n disk (call disk).1
    → IsDeepSame n disk (refusing fault call disk).1
refusing-IsDeepSame n none call disk same = same
refusing-IsDeepSame n (some e) call disk same = IsDeepSame-refl n disk

verify_found-IsDeepSame :
    (refusals : Refusals) (n : ℕ) (at : FilePath) (type : FileType) (disk : Disk)
    → length at ≤ n
    → IsDeepSame n disk (verify_found refusals at type disk).1
unfolding verify_found set_private
verify_found-IsDeepSame refusals n at directory disk short =
    refusing-IsDeepSame n refusals.permissions _ disk
      (set_permissions-IsDeepSame refusals.privileged private_mode n at disk short)
verify_found-IsDeepSame refusals n at symlink disk short = IsDeepSame-refl n disk
verify_found-IsDeepSame refusals n at (regular bytes) disk short = IsDeepSame-refl n disk

-- What follows calls that keep the deep part of the disk keeps it.
follow-IsDeepSame :
    {A B : Type 0} (n : ℕ) (outcome : Result A ErrorKind × Disk) (next : A → Call B) (disk : Disk)
    → IsDeepSame n disk outcome.1
    → ((a : A) (d : Disk) → IsDeepSame n d (next a d).1)
    → IsDeepSame n disk (follow outcome next).1
follow-IsDeepSame n (ok a, d) next disk same went = λ path long. went a d path long ∙ same path long
follow-IsDeepSame n (err e, d) next disk same went = same

recover-IsDeepSame :
    {A : Type 0} (n : ℕ) (outcome : Result A ErrorKind × Disk) (handler : ErrorKind → Call A)
    (disk : Disk)
    → IsDeepSame n disk outcome.1
    → ((e : ErrorKind) (d : Disk) → IsDeepSame n d (handler e d).1)
    → IsDeepSame n disk (recover outcome handler).1
recover-IsDeepSame n (ok a, d) handler disk same handled = same
recover-IsDeepSame n (err e, d) handler disk same handled =
    λ path long. handled e d path long ∙ same path long

symlink_metadata-disk : (at : FilePath) (disk : Disk) → (symlink_metadata at disk).1 ≡ disk
unfolding symlink_metadata
symlink_metadata-disk at disk = elim (Option-cases (get at disk)) [
  | inl e ↦ rw (e, symlink_metadata) refl
  | inr (node, e) ↦ rw (e, symlink_metadata) refl
]

verify_private_dir-IsDeepSame :
    (refusals : Refusals) (n : ℕ) (at : FilePath) (disk : Disk)
    → length at ≤ n
    → IsDeepSame n disk (verify_private_dir refusals at disk).1
unfolding verify_private_dir
verify_private_dir-IsDeepSame refusals n at disk short =
    follow-IsDeepSame n (refusing refusals.metadata (symlink_metadata at) disk)
      (λ found. verify_found refusals at found.file_type) disk
      (refusing-IsDeepSame n refusals.metadata (symlink_metadata at) disk
        (subst (IsDeepSame n disk) (sym (symlink_metadata-disk at disk)) (IsDeepSame-refl n disk)))
      (λ found d. verify_found-IsDeepSame refusals n at found.file_type d short)

existing-IsDeepSame :
    (refusals : Refusals) (n : ℕ) (at : FilePath)
    → length at ≤ n
    → (e : ErrorKind) (disk : Disk) → IsDeepSame n disk (existing refusals at e disk).1
unfolding existing
existing-IsDeepSame refusals n at short already_exists disk =
    verify_private_dir-IsDeepSame refusals n at disk short
existing-IsDeepSame refusals n at short not_found disk = IsDeepSame-refl n disk
existing-IsDeepSame refusals n at short not_a_directory disk = IsDeepSame-refl n disk
existing-IsDeepSame refusals n at short is_a_directory disk = IsDeepSame-refl n disk
existing-IsDeepSame refusals n at short permission_denied disk = IsDeepSame-refl n disk
existing-IsDeepSame refusals n at short other_error disk = IsDeepSame-refl n disk

pub create_private_dir_if_absent-IsDeepSame :
    (refusals : Refusals) (n : ℕ) (at : FilePath) (disk : Disk)
    → length at ≤ n
    → IsDeepSame n disk (create_private_dir_if_absent refusals at disk).1
unfolding create_private_dir_if_absent create_private_dir
create_private_dir_if_absent-IsDeepSame refusals n at disk short =
    recover-IsDeepSame n (refusing refusals.base (create_dir private_mode at) disk)
      (existing refusals at) disk
      (refusing-IsDeepSame n refusals.base (create_dir private_mode at) disk
        (create_dir-IsDeepSame private_mode n at disk short))
      (existing-IsDeepSame refusals n at short)
