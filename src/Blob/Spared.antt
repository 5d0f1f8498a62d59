-- ===== src/Blob/Spared.antt =====
-- The drain of server/src/blob.rs spares what the index lists.
use omp_relayd.Base.{
  ℕ, ◌≤◌, ◌≡◌, ◌⊎◌, ◌∙◌, inl, inr, sym, ap, subst, false, List, [], ◌∷◌, All, length, Option,
  Option-cases, Bool-cases, none, some, refl, arith, text_eq,
}
use omp_relayd.Base.Map.{get}
use omp_relayd.Protocol.Limits.{Text, RoomId, room_id_eq}
use omp_relayd.Blob.Types.{Store, FilePath, Payload, Removal}
use omp_relayd.Blob.Paths.{removable, owns_payload, payload_path, room_dir}
use omp_relayd.Blob.Transfer.{path_eq}
use omp_relayd.Blob.Files.{Disk, is_prefix}
use omp_relayd.Blob.Fetching.{stored_at}
use omp_relayd.Blob.Maintenance.{RemoveRefusals, drain}
use omp_relayd.Blob.Drained.{IsApart, drain-keeps}

module _ (sha256 : List ℕ → List ℕ) (s : Store) (room : RoomId) (digest : Text) (p : Payload)
    (listed : stored_at s.index room digest ≡ some p) where
  -- A removal of the payload's own address or of its own room, or one of another path, which is not
  -- above the payload's.
  abbrev pub IsElsewhere : Removal → Type 0
  IsElsewhere (Removal.payload r d) =
      ((r ≡ room) × (d ≡ digest))
      ⊎ (is_prefix (payload_path sha256 s r d) (payload_path sha256 s room digest) ≡ false)
  IsElsewhere (Removal.room r) =
      (r ≡ room) ⊎ (is_prefix (room_dir sha256 s r) (payload_path sha256 s room digest) ≡ false)
  IsElsewhere (Removal.temp path) = is_prefix path (payload_path sha256 s room digest) ≡ false

  removable-own : removable sha256 s (Removal.payload room digest) ≡ none
  unfolding removable stored_at owns_payload
  removable-own = ground arith

  removable-room : removable sha256 s (Removal.room room) ≡ none
  unfolding removable stored_at
  removable-room = ground arith

  -- A removal may be performed at its own path, or not at all.
  payload-cases :
      (r : RoomId) (d : Text)
      → (removable sha256 s (Removal.payload r d) ≡ none)
        ⊎ (removable sha256 s (Removal.payload r d) ≡ some (payload_path sha256 s r d))
  unfolding removable
  payload-cases r d = elim (Option-cases (get r s.index.rooms)) [
    | inl e ↦ inr (rw (e, removable) refl)
    | inr (state, e) ↦ elim (Bool-cases (owns_payload d state)) [
      | inl f ↦ inl (rw (e, f, removable) refl)
      | inr f ↦ inr (rw (e, f, removable) refl)
    ]
  ]

  room-cases :
      (r : RoomId)
      → (removable sha256 s (Removal.room r) ≡ none)
        ⊎ (removable sha256 s (Removal.room r) ≡ some (room_dir sha256 s r))
  unfolding removable
  room-cases r = elim (Option-cases (get r s.index.rooms)) [
    | inl e ↦ inr (rw (e, removable) refl)
    | inr (state, e) ↦ inl (rw (e, removable) refl)
  ]

  abbrev path : FilePath
  path = payload_path sha256 s room digest

  IsApart-cases :
      (found : Option FilePath) (target : FilePath)
      → (found ≡ none) ⊎ (found ≡ some target)
      → is_prefix target path ≡ false
      → IsApart path found
  IsApart-cases found target (inl e) apart = subst (IsApart path) (sym e) tt
  IsApart-cases found target (inr e) apart = subst (IsApart path) (sym e) apart

  IsElsewhere-IsApart :
      (removal : Removal) → IsElsewhere removal → IsApart path (removable sha256 s removal)
  unfolding removable
  IsElsewhere-IsApart (Removal.payload r d) (inl (e, f)) =
      subst (IsApart path)
        (sym (
          ap (λ r. removable sha256 s (Removal.payload r d)) e
          ∙ ap (λ d. removable sha256 s (Removal.payload room d)) f
          ∙ removable-own))
        tt
  IsElsewhere-IsApart (Removal.payload r d) (inr apart) =
      IsApart-cases (removable sha256 s (Removal.payload r d)) (payload_path sha256 s r d)
        (payload-cases r d) apart
  IsElsewhere-IsApart (Removal.room r) (inl e) =
      subst (IsApart path) (sym (ap (λ r. removable sha256 s (Removal.room r)) e ∙ removable-room))
        tt
  IsElsewhere-IsApart (Removal.room r) (inr apart) =
      IsApart-cases (removable sha256 s (Removal.room r)) (room_dir sha256 s r) (room-cases r) apart
  IsElsewhere-IsApart (Removal.temp other) apart = apart

  All-IsApart :
      (removals : List Removal)
      → All IsElsewhere removals
      → All (λ removal. IsApart path (removable sha256 s removal)) removals
  All-IsApart [] all = tt
  All-IsApart (removal ∷ removals) all =
      (IsElsewhere-IsApart removal all.0, All-IsApart removals all.1)

  -- Whatever the system refuses, a drain leaves the file of a payload that the index lists as it
  -- was, although its queue holds removals of that payload and of its room: it is given that the
  -- paths of the other removals of the queue are neither that of the payload nor above it.
  pub drain-listed :
      (refusals : RemoveRefusals) (fuel : ℕ) (disk : Disk)
      → length s.removals ≤ fuel
      → All IsElsewhere s.removals
      → get (payload_path sha256 s room digest) (drain sha256 refusals fuel s disk).1
        ≡ get (payload_path sha256 s room digest) disk
  drain-listed refusals fuel disk enough elsewhere =
      drain-keeps sha256 refusals fuel s path disk enough (All-IsApart s.removals elsewhere)
