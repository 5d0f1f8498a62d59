-- ===== src/Http/Targets.antt =====
-- `Target::parse` and `percent_decode` of server/src/http.rs.
use mathlib.Core.Option
use omp_relayd.Base.{
  ℕ, ◌+◌, ◌*◌, ◌-◌, true, false, ◌&&◌, ◌||◌, leb, ◌==◌, if◌then◌else◌, is_empty, List, [], ◌∷◌,
  Option, none, some, ◌>>=◌,
}
use omp_relayd.Base.Text.{codes, encode_utf8}
use omp_relayd.Base.Utf8.{from_utf8}
use omp_relayd.Protocol.Limits.{Text, RoomId}

pub record Target : Type 0 where
  pub room : RoomId
  pub digest : Text

abbrev pub route_prefix : Text
route_prefix = codes "/blob/"

unfoldable pub hex_value : ℕ → Option ℕ
hex_value byte =
    if leb b'0' byte && leb byte b'9'
    then some (byte - b'0')
    else if leb b'a' byte && leb byte b'f'
    then some (byte - b'a' + 10)
    else if leb b'A' byte && leb byte b'F'
    then some (byte - b'A' + 10)
    else none

-- The byte that two hexadecimal digits stand for.
unfoldable pub escape : ℕ → ℕ → Option ℕ
unfolding hex_value
escape high low = do h ← hex_value high; l ← hex_value low; some (h * 16 + l)

-- The loop of `percent_decode` over the bytes.
unfoldable pub unescape : List ℕ → Option (List ℕ)
unfolding escape
unescape [] = some []
unescape (b ∷ []) = if b == b'%' then none else some (b ∷ [])
unescape (b ∷ c ∷ []) = elim (b == b'%') [
  | true ↦ none
  | false ↦ Option.map (λ bs. b ∷ bs) (unescape (c ∷ []))
]
unescape (b ∷ c ∷ d ∷ bs) = elim (b == b'%') [
  | true ↦ elim (escape c d) [
    | none ↦ none
    | some byte ↦ Option.map (λ out. byte ∷ out) (unescape bs)
  ]
  | false ↦ Option.map (λ out. b ∷ out) (unescape (c ∷ d ∷ bs))
]

unfoldable pub percent_decode : Text → Option Text
unfolding unescape
percent_decode value = elim (unescape (encode_utf8 value)) [
  | none ↦ none
  | some out ↦ from_utf8 out
]

-- `str::strip_prefix`
unfoldable pub strip_prefix : Text → Text → Option Text
strip_prefix [] s = some s
strip_prefix (p ∷ ps) [] = none
strip_prefix (p ∷ ps) (c ∷ cs) = let rest = strip_prefix ps cs in if p == c then rest else none

-- `str::split`, at a character.
abbrev pub extend : ℕ → List Text → List Text
extend c [] = (c ∷ []) ∷ []
extend c (segment ∷ segments) = (c ∷ segment) ∷ segments

unfoldable pub split : ℕ → Text → List Text
split separator [] = [] ∷ []
split separator (c ∷ cs) =
    let segments = split separator cs in if c == separator then [] ∷ segments else extend c segments

-- `Target::parse` over the segments of the path.
unfoldable pub parse_segments : List Text → Option Target
parse_segments (first ∷ second ∷ digest ∷ []) = do
  project ← percent_decode first
  task ← percent_decode second
  if is_empty project || is_empty task
      then none
      else some (record { room = record { project = project; task = task }; digest = digest })
parse_segments _ = none

unfoldable pub parse : Text → Option Target
unfolding strip_prefix split parse_segments
parse path = elim (strip_prefix route_prefix path) [
  | none ↦ none
  | some rest ↦ parse_segments (split b'/' rest)
]
