-- ===== src/Protocol/Fields.antt =====
-- Which encodings server/src/protocol.rs reads as a room.
use omp_relayd.Base.{
  ◌≡◌, ◌↔◌, refl, sym, subst, inl, inr, true, false, Bool-cases, if◌then◌else◌, equals, equals→eq,
  text_eq, text-discrete, ℕ_discrete, List, [], ◌∷◌, All, Option, none, some, ok, arith,
}
use omp_relayd.Base.Text.{codes}
use omp_relayd.Protocol.Limits.{Text, RoomId}
use omp_relayd.Protocol.Rooms.{
  Item, string, no_string, Visited, visited_map, visited_other, visit_map, deserialize_room,
}

-- The last value under a key, or else the one given.
abbrev pub last_under : Text → Option Text → List (Item × Item) → Option Text
last_under name found [] = found
last_under name found ((string key, string value) ∷ items) =
    last_under name (if equals key name then some value else found) items
last_under name found (item ∷ items) = last_under name found items

-- The key is a string, and the value too where it is a room's.
abbrev pub IsField : Item × Item → Type 0
IsField (no_string, value) = ⊥
IsField (string key, string value) = Unit {0}
IsField (string key, no_string) =
    (equals key (codes "project") ≡ false) × (equals key (codes "task") ≡ false)

-- The fields of a room, from those that were found before.
abbrev IsRead : Option Text → Option Text → List (Item × Item) → RoomId → Type 0
IsRead project task items room =
    All IsField items
    × ((last_under (codes "project") project items ≡ some room.project)
        × (last_under (codes "task") task items ≡ some room.task))

names_apart : equals (codes "project") (codes "task") ≡ false
unfolding text-discrete ℕ_discrete
names_apart = refl

distinct : (key : Text) → equals key (codes "project") ≡ true → equals key (codes "task") ≡ false
distinct key e =
    subst (λ k. equals k (codes "task") ≡ false) (sym (equals→eq key (codes "project") e))
      names_apart

-- A field that is as it must be asks for nothing.
with_field : {X A B : Type 0} → (X ↔ (A × B)) → X ↔ ((Unit {0} × A) × B)
with_field (there, back) = (λ x. ((tt, (there x).0), (there x).1), λ y. back (y.0.1, y.1))

visit_map-IsRead :
    (project task : Option Text) (items : List (Item × Item)) (room : RoomId)
    → (visit_map project task items ≡ ok room) ↔ IsRead project task items room
unfolding visit_map
visit_map-IsRead none task [] room = (λ h. ground arith, λ i. ground (arith, i))
visit_map-IsRead (some p) none [] room = (λ h. ground arith, λ i. ground (arith, i))
visit_map-IsRead (some p) (some t) [] room =
    (λ h. (tt, (ground (arith, h), ground (arith, h))), λ i. cc (i.1.0, i.1.1))
visit_map-IsRead project task ((no_string, value) ∷ items) room =
    (λ h. ground arith, λ i. absurd i.0.0)
visit_map-IsRead project task ((string key, no_string) ∷ items) room =
    elim (Bool-cases (equals key (codes "project"))) [
      | inl e ↦ rw (e, visit_map) (λ h. ground arith, λ i. absurd (ground (arith, i.0.0.0)))
      | inr e ↦ elim (Bool-cases (equals key (codes "task"))) [
        | inl f ↦ rw (e, f, visit_map) (λ h. ground arith, λ i. absurd (ground (arith, i.0.0.1)))
        | inr f ↦
            let (there, back) = visit_map-IsRead project task items room in
            rw (e, f, visit_map)
              (λ h. (((refl, refl), (there h).0), (there h).1), λ i. back (i.0.1, i.1))
      ]
    ]
visit_map-IsRead project task ((string key, string value) ∷ items) room =
    elim (Bool-cases (equals key (codes "project"))) [
      | inl e ↦
          rw (e, distinct key e, visit_map, last_under)
            (with_field (visit_map-IsRead (some value) task items room))
      | inr e ↦ elim (Bool-cases (equals key (codes "task"))) [
        | inl f ↦
            rw (e, f, visit_map, last_under)
              (with_field (visit_map-IsRead project (some value) items room))
        | inr f ↦
            rw (e, f, visit_map, last_under) (with_field (visit_map-IsRead project task items room))
      ]
    ]

-- A room is read exactly from a map whose keys are strings, in which every value under `project` and
-- `task` is a string, and the last value under each is the room's: a sequence is refused.
pub deserialize_room_iff :
    (visited : Visited) (room : RoomId)
    → (deserialize_room visited ≡ ok room) ↔ (
        (items : List (Item × Item)) × (visited ≡ visited_map items)
        × (All IsField items
            × ((last_under (codes "project") none items ≡ some room.project)
                × (last_under (codes "task") none items ≡ some room.task))))
unfolding deserialize_room
deserialize_room_iff (visited_map items) room = (
  λ h. (items, refl, (visit_map-IsRead none none items room).0 h),
  λ (other, e, read).
      (visit_map-IsRead none none items room).1 (subst (λ xs. IsRead none none xs room) (cc) read),
)
deserialize_room_iff visited_other room = (λ h. ground arith, λ (other, e, read). cc)
