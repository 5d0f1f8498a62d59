-- ===== src/Tests/Disks.antt =====
-- The directories and the removals of server/src/blob.rs on concrete disks.
use omp_relayd.Base.{
  subst, inl, sym, equals_refl, Result, ok, text-discrete, ℕ_discrete, ◌≡◌, refl, inr, true, false,
  [], ◌∷◌, ◌++◌, none, some, is_ok, arith, text_eq,
}
use omp_relayd.Base.Map.{get, insert, remove, get-insert_self}
use omp_relayd.Base.Text.{codes, encode_utf8}
use omp_relayd.Blob.Types.{Store, FilePath, Removal, default_index}
use omp_relayd.Blob.Digest
use omp_relayd.Blob.Digest.{base64url}
use omp_relayd.Blob.Paths.{removable, room_dir, payload_path}
use omp_relayd.Blob.Transfer.{path_eq, path-discrete}
use omp_relayd.Blob.Files.{
  regular, is_prefix, Node, directory, symlink, Disk, ErrorKind, create_dir_all, create_below,
  create_dir, remove_dir_all,
}
use omp_relayd.Blob.Opening.{
  Refusals, open_disk, instance_dir_name, make_parents, parent_of, create_private_dir_if_absent,
  create_private_dir, remove_predecessor, forgive, first_of,
}
use omp_relayd.Blob.Privacy.{open_disk-foreign}
use omp_relayd.Blob.Opened.{IsPrivate, open_disk-IsPrivate}
use omp_relayd.Blob.Emptied.{IsEmptyBelow, IsLeaf}
use omp_relayd.Blob.Fresh.{IsRemovable, open_disk-fresh}
use omp_relayd.Blob.Maintenance.{drain}
use omp_relayd.Blob.Cuts.{unrefused}
use omp_relayd.Blob.Drained.{drain-keeps}
use omp_relayd.Blob.Spared.{drain-listed}
use omp_relayd.Tests.Stores.{identity, root, room, digest, holding, held_payload, holding_stored}

abbrev allowed : Refusals
allowed = record {
  privileged = false;
  parent = none;
  base = none;
  metadata = none;
  permissions = none;
  remove = none;
  root = none;
}

abbrev base : FilePath
base = codes "tmp" ∷ codes "omp-relayd" ∷ []

-- A symbolic link where the base is expected.
abbrev link : Node
link = record { file_type = symlink; owned = false; mode = 511 }

abbrev linked : Disk
linked = insert base link []

open_disk-foreign_example :
    (is_ok (open_disk identity allowed base (codes "1") linked).0 ≡ false)
    × (get base (open_disk identity allowed base (codes "1") linked).1 ≡ some link)
open_disk-foreign_example =
    open_disk-foreign identity allowed base (codes "1") linked link base link
      (get-insert_self base link []) (inr (refl, refl)) (get-insert_self base link [])

abbrev opened : Result Store ErrorKind × Disk
opened = open_disk identity allowed base (codes "1") []

abbrev own_root : FilePath
own_root = base ++ instance_dir_name identity (codes "1") ∷ []

abbrev fresh : Store
fresh = record { root = own_root; index = default_index; removals = []; next_serial = 0 }

opens : opened ≡ (ok fresh, opened.1)
unfolding open_disk make_parents parent_of create_dir_all create_below create_private_dir_if_absent
    create_private_dir create_dir remove_predecessor forgive remove_dir_all instance_dir_name
    first_of get insert remove path-discrete text-discrete ℕ_discrete
opens = refl

open_disk-IsPrivate_example : IsPrivate base opened.1 × IsPrivate own_root opened.1
open_disk-IsPrivate_example =
    open_disk-IsPrivate identity allowed base (codes "1") [] fresh opened.1 refl opens

abbrev room_node : Node
room_node = record { file_type = directory; owned = true; mode = 448 }

abbrev stale : Disk
stale =
    insert own_root room_node
      (insert (own_root ++ codes "left" ∷ []) room_node (insert base room_node []))

stale_base : get base stale ≡ some room_node
unfolding get insert remove path-discrete text-discrete ℕ_discrete instance_dir_name first_of
    Digest.digest base64url encode_utf8
stale_base = refl

stale_root : get own_root stale ≡ some room_node
stale_root =
    get-insert_self own_root room_node
      (insert (own_root ++ codes "left" ∷ []) room_node (insert base room_node []))

open_disk-fresh_example :
    (after : Disk) × (open_disk identity allowed base (codes "1") stale ≡ (ok fresh, after))
    × IsEmptyBelow own_root after
open_disk-fresh_example =
    open_disk-fresh identity false base (codes "1") stale room_node stale_base refl refl
      (subst IsRemovable (sym stale_root) (inl refl))
      (λ leaf. absurd (subst IsLeaf stale_root leaf refl))

abbrev queued : Store
queued = record {
  root = root;
  index = default_index;
  removals = Removal.payload room digest ∷ Removal.room room ∷ [];
  next_serial = 0;
}

-- A directory of the room, and the root above it.
abbrev cluttered : Disk
cluttered = insert (room_dir identity queued room) room_node (insert root room_node [])

payload_apart : is_prefix (payload_path identity queued room digest) root ≡ false
unfolding payload_path room_dir is_prefix
payload_apart = rw (equals_refl (codes "tmp")) refl

room_apart : is_prefix (room_dir identity queued room) root ≡ false
unfolding room_dir is_prefix
room_apart = rw (equals_refl (codes "tmp")) refl

drain-keeps_example : get root (drain identity unrefused 2 queued cluttered).1 ≡ get root cluttered
unfolding removable get
drain-keeps_example =
    drain-keeps identity unrefused 2 queued root cluttered (ground arith)
      (payload_apart, (room_apart, tt))

-- The removals of a payload, and of its room, that is there again.
abbrev returned : Store
returned = record holding { removals = Removal.payload room digest ∷ Removal.room room ∷ [] }

abbrev file : Node
file = record { file_type = regular (7 ∷ []); owned = true; mode = 384 }

abbrev payload_disk : Disk
payload_disk = insert (payload_path identity returned room digest) file []

drain-listed_example :
    get
      (payload_path identity returned room digest)
      (drain identity unrefused 2 returned payload_disk).1
    ≡ get (payload_path identity returned room digest) payload_disk
drain-listed_example =
    drain-listed identity returned room digest held_payload holding_stored unrefused 2 payload_disk
      (ground arith) (inl (refl, refl), (inl refl, tt))
