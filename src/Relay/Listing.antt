-- ===== src/Relay/Listing.antt =====
-- `list_peers` of server/src/relay.rs: every name of the room once, in order.
use omp_relayd.Base.{
  ℕ, ◌+◌, ◌≡◌, refl, inl, inr, true, false, Bool-cases, if◌then◌else◌, List, [], ◌∷◌, map, arith,
  All, All-weaken, equals, text_eq,
}
use omp_relayd.Base.Map.{get}
use omp_relayd.Protocol.Limits.{Text, RoomId, room_id_eq}
use omp_relayd.Relay.Registry.{ServerState, or_no_peers, text_leb, insert_sorted, sort, list_peers}

-- Each text is at most the ones after it.
abbrev pub IsSorted : List Text → Type 0
IsSorted [] = Unit {0}
IsSorted (s ∷ ss) = All (λ t. text_leb s t ≡ true) ss × IsSorted ss

text_leb_total : (s t : Text) → text_leb s t ≡ false → text_leb t s ≡ true
unfolding text_leb
text_leb_total [] t h = absurd (ground arith)
text_leb_total (c ∷ s) [] h = refl
text_leb_total (c ∷ s) (d ∷ t) h = ground (arith, text_leb_total s t)

text_leb_trans : (s t u : Text) → text_leb s t ≡ true → text_leb t u ≡ true → text_leb s u ≡ true
unfolding text_leb
text_leb_trans [] t u h k = refl
text_leb_trans (c ∷ s) [] u h k = absurd (ground arith)
text_leb_trans (c ∷ s) (d ∷ t) [] h k = absurd (ground arith)
text_leb_trans (c ∷ s) (d ∷ t) (e ∷ u) h k = ground (arith, text_leb_trans s t u)

insert_sorted-All :
    (P : Text → Type 0) (s : Text) (ss : List Text) → P s → All P ss → All P (insert_sorted s ss)
unfolding insert_sorted
insert_sorted-All P s [] p ps = (p, tt)
insert_sorted-All P s (t ∷ ss) p ps = elim (Bool-cases (text_leb s t)) [
  | inl below ↦ rw (below) (p, ps)
  | inr above ↦ rw (above) (ps.0, insert_sorted-All P s ss p ps.1)
]

insert_sorted-IsSorted : (s : Text) (ss : List Text) → IsSorted ss → IsSorted (insert_sorted s ss)
unfolding insert_sorted
insert_sorted-IsSorted s [] v = (tt, tt)
insert_sorted-IsSorted s (t ∷ ss) v = elim (Bool-cases (text_leb s t)) [
  | inl below ↦ rw (below) ((below, All-weaken _ _ (λ u k. text_leb_trans s t u below k) ss v.0), v)
  | inr above ↦ rw (above) (
    insert_sorted-All (λ u. text_leb t u ≡ true) s ss (text_leb_total s t above) v.0,
    insert_sorted-IsSorted s ss v.1,
  )
]

sort-IsSorted : (ss : List Text) → IsSorted (sort ss)
unfolding sort
sort-IsSorted [] = tt
sort-IsSorted (s ∷ ss) = insert_sorted-IsSorted s (sort ss) (sort-IsSorted ss)

-- How often a text is listed.
abbrev pub occurrences : Text → List Text → ℕ
occurrences name [] = 0
occurrences name (s ∷ ss) = if equals name s then occurrences name ss + 1 else occurrences name ss

occurrences-insert_sorted :
    (name s : Text) (ss : List Text)
    → occurrences name (insert_sorted s ss) ≡ occurrences name (s ∷ ss)
unfolding insert_sorted
occurrences-insert_sorted name s [] = refl
occurrences-insert_sorted name s (t ∷ ss) = ground (arith, occurrences-insert_sorted name s ss)

occurrences-sort : (name : Text) (ss : List Text) → occurrences name (sort ss) ≡ occurrences name ss
unfolding sort
occurrences-sort name [] = refl
occurrences-sort name (s ∷ ss) =
    ground (arith, occurrences-insert_sorted name s (sort ss), occurrences-sort name ss)

-- The list of peers is sorted bytewise, and holds each name as often as the room does.
pub list_peers-IsSorted :
    {Chan : Type 0} (s : ServerState Chan) (room : RoomId)
    → IsSorted (list_peers s room)
      × ((name : Text)
          → occurrences name (list_peers s room)
            ≡ occurrences name (map (λ entry. entry.0) (or_no_peers (get room s.rooms))))
unfolding list_peers
list_peers-IsSorted s room =
    let names = map (λ entry. entry.0) (or_no_peers (get room s.rooms)) in
    (sort-IsSorted names, λ name. occurrences-sort name names)
