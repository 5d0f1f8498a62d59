-- ===== src/Tests/Rooms.antt =====
-- A room of server/src/protocol.rs read from concrete fields.
use omp_relayd.Base.{◌≡◌, ◌↔◌, List, [], ◌∷◌, All, none, some, ok}
use omp_relayd.Base.Text.{codes}
use omp_relayd.Protocol.Limits.{RoomId}
use omp_relayd.Protocol.Rooms.{Item, string, no_string, Visited, visited_map, deserialize_room}
use omp_relayd.Protocol.Fields.{IsField, last_under, deserialize_room_iff}

abbrev room : RoomId
room = record { project = codes "omp"; task = codes "main" }

-- A map with a field of a later version.
abbrev later_map : Visited
later_map = visited_map (
    (string (codes "task"), string (codes "main"))
    ∷ (string (codes "colour"), no_string)
    ∷ (string (codes "project"), string (codes "omp"))
    ∷ [])

deserialize_room_iff_example : (deserialize_room later_map ≡ ok room) ↔ (
    (items : List (Item × Item)) × (later_map ≡ visited_map items)
    × (All IsField items
        × ((last_under (codes "project") none items ≡ some room.project)
            × (last_under (codes "task") none items ≡ some room.task))))
deserialize_room_iff_example = deserialize_room_iff later_map room
