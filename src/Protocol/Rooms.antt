-- ===== src/Protocol/Rooms.antt =====
-- The visitor that reads a room in server/src/protocol.rs. The decoder below it is a parameter: what
-- it visits, and which keys and values it gives as strings.
use omp_relayd.Base.{
  true, false, if◌then◌else◌, equals, text_eq, List, [], ◌∷◌, Option, none, some, Result, ok, err,
}
use omp_relayd.Base.Text.{codes}
use omp_relayd.Protocol.Limits.{Text, RoomId}

-- A key or a value of a map: a string, or something else.
pub data Item : Type 0 where
  string : Text → Item
  no_string : Item

-- What `deserialize_any` visits: a map, or a sequence or anything else.
pub data Visited : Type 0 where
  visited_map : List (Item × Item) → Visited
  visited_other : Visited

pub data RoomError : Type 0 where
  invalid_type missing_project missing_task : RoomError

-- The loop of `visit_map`, with the fields so far. A key or a needed value that is no string is of an
-- invalid type.
unfoldable pub visit_map : Option Text → Option Text → List (Item × Item) → Result RoomId RoomError
visit_map project task [] = elim project [
  | none ↦ err missing_project
  | some p ↦ elim task [ none ↦ err missing_task | some t ↦ ok (record { project = p; task = t }) ]
]
visit_map project task ((no_string, value) ∷ items) = err invalid_type
visit_map project task ((string key, no_string) ∷ items) =
    let rest = visit_map project task items in
    if equals key (codes "project")
    then err invalid_type
    else if equals key (codes "task")
    then err invalid_type
    else rest
visit_map project task ((string key, string value) ∷ items) = elim (equals key (codes "project")) [
  | true ↦ visit_map (some value) task items
  | false ↦ elim (equals key (codes "task")) [
    | true ↦ visit_map project (some value) items
    | false ↦ visit_map project task items
  ]
]

unfoldable pub deserialize_room : Visited → Result RoomId RoomError
unfolding visit_map
deserialize_room (visited_map items) = visit_map none none items
deserialize_room visited_other = err invalid_type
