-- ===== src/Http/Headers.antt =====
-- `content_length` of server/src/http.rs over the text of the header.
use omp_relayd.Base.{
  ℕ, ◌+◌, ◌*◌, ◌-◌, ◌&&◌, ltb, leb, ◌==◌, if◌then◌else◌, [], ◌∷◌, Option, none, some, ◌>>=◌,
}
use omp_relayd.Protocol.Limits.{Text, u64_mod}
use omp_relayd.Protocol.Validate.{is_whitespace}

-- `str::trim`
unfoldable pub trim_start : Text → Text
trim_start [] = []
trim_start (c ∷ cs) = let rest = trim_start cs in if is_whitespace c then rest else c ∷ cs

unfoldable pub trim_end : Text → Text
trim_end [] = []
trim_end (c ∷ cs) = elim (trim_end cs) [
  | [] ↦ if is_whitespace c then [] else c ∷ []
  | d ∷ ds ↦ c ∷ d ∷ ds
]

unfoldable pub trim : Text → Text
unfolding trim_start trim_end
trim s = trim_end (trim_start s)

-- The digits of `str::parse::<u64>` after those that make up `n`; past `u64::MAX` it fails.
unfoldable pub parse_digits : ℕ → Text → Option ℕ
parse_digits n [] = some n
parse_digits n (c ∷ cs) =
    let more = parse_digits (n * 10 + (c - b'0')) cs in
    if leb b'0' c && leb c b'9' && ltb (n * 10 + (c - b'0')) (u64_mod) then more else none

-- `str::parse::<u64>`: one leading `+` is allowed.
unfoldable pub parse_u64 : Text → Option ℕ
unfolding parse_digits
parse_u64 [] = none
parse_u64 (c ∷ []) = parse_digits 0 (c ∷ [])
parse_u64 (c ∷ d ∷ cs) = if c == b'+' then parse_digits 0 (d ∷ cs) else parse_digits 0 (c ∷ d ∷ cs)

-- `header` is what the header map holds as a string.
unfoldable pub content_length : Option Text → Option ℕ
unfolding parse_u64 trim
content_length header = do value ← header; parse_u64 (trim value)
