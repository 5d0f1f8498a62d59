-- ===== src/Http/Paths.antt =====
-- The paths that server/src/http.rs parses to a target: every spelling of a room and a digest.
use omp_relayd.Base.{
  ℕ, ◌+◌, ◌*◌, ◌<◌, ◌≤◌, ◌⊎◌, ◌≡◌, ◌≢◌, refl, ap, ◌∙◌, false, ◌==◌, List, [], ◌∷◌, ◌++◌, All, some,
  arith,
}
use omp_relayd.Base.Text.{encode_utf8, encode_char}
use omp_relayd.Base.Utf8.{from_utf8-encode_utf8, IsScalar}
use omp_relayd.Protocol.Limits.{Text}
use omp_relayd.Http.Targets.{
  route_prefix, hex_value, escape, unescape, percent_decode, strip_prefix, split, parse_segments,
  parse,
}

-- A hexadecimal digit, in either case, and its value.
abbrev pub IsHex : ℕ → ℕ → Type 0
IsHex c value =
    ((value < 10) × (c ≡ b'0' + value))
    ⊎ ((value < 16) × ((c + 10 ≡ b'a' + value) ⊎ (c + 10 ≡ b'A' + value)) × (10 ≤ value))

-- A text spells bytes: each byte is an ASCII character other than `%` and `/`, or an escape.
pub data Spells : Text → List ℕ → Type 0 where
  done : Spells [] []
  plain :
      {s : Text} {bytes : List ℕ} (c : ℕ)
      → c < 128
      → c ≢ b'%'
      → c ≢ b'/'
      → Spells s bytes
      → Spells (c ∷ s) (c ∷ bytes)
  escaped :
      {s : Text} {bytes : List ℕ} (high low a b : ℕ)
      → IsHex high a
      → IsHex low b
      → Spells s bytes
      → Spells (b'%' ∷ high ∷ low ∷ s) ((a * 16 + b) ∷ bytes)

ascii : (c : ℕ) (s : Text) → c < 128 → encode_utf8 (c ∷ s) ≡ c ∷ encode_utf8 s
unfolding encode_utf8 encode_char
ascii c s h = ground arith

unescape-other :
    (c : ℕ) (bytes out : List ℕ)
    → (c == b'%') ≡ false
    → unescape bytes ≡ some out
    → unescape (c ∷ bytes) ≡ some (c ∷ out)
unfolding unescape
unescape-other c [] out n e = rw n (cc)
unescape-other c (d ∷ []) out n e = rw (n, e, unescape) refl
unescape-other c (d ∷ f ∷ bytes) out n e = rw (n, e, unescape) refl

unescape-plain :
    (c : ℕ) (bytes out : List ℕ)
    → c ≢ b'%'
    → unescape bytes ≡ some out
    → unescape (c ∷ bytes) ≡ some (c ∷ out)
unfolding unescape
unescape-plain c bytes out n e =
    let test : (c == b'%') ≡ false = ground arith in unescape-other c bytes out test e

unescape-nothing : unescape (encode_utf8 []) ≡ some []
unfolding unescape encode_utf8
unescape-nothing = refl

IsHex-value : (c value : ℕ) → IsHex c value → hex_value c ≡ some value
unfolding hex_value
IsHex-value c value h = ground arith

unescape-escaped :
    (high low a b : ℕ) (bytes out : List ℕ)
    → hex_value high ≡ some a
    → hex_value low ≡ some b
    → unescape bytes ≡ some out
    → unescape (b'%' ∷ high ∷ low ∷ bytes) ≡ some ((a * 16 + b) ∷ out)
unfolding unescape escape
unescape-escaped high low a b bytes out e f g = rw (e, f, g, unescape) refl

unescape-Spells :
    (s : Text) (bytes : List ℕ) → Spells s bytes → unescape (encode_utf8 s) ≡ some bytes
unescape-Spells s bytes done = unescape-nothing
unescape-Spells s bytes (plain {s = s'} {bytes = bytes'} c small not_escape not_slash rest) =
    rw (ascii c s' small)
      (unescape-plain c (encode_utf8 s') bytes' not_escape (unescape-Spells s' bytes' rest))
unescape-Spells s bytes (escaped {s = s'} {bytes = bytes'} high low a b h l rest) =
    let spelt : encode_utf8 (b'%' ∷ high ∷ low ∷ s') ≡ b'%' ∷ high ∷ low ∷ encode_utf8 s' =
      ascii b'%' _ (omega arith)
      ∙ ap (λ x. b'%' ∷ x)
          (ascii high _ (omega arith) ∙ ap (λ x. high ∷ x) (ascii low s' (omega arith))) in
    rw (spelt) (
      unescape-escaped high low a b (encode_utf8 s') bytes' (IsHex-value high a h)
        (IsHex-value low b l) (unescape-Spells s' bytes' rest))

-- A spelling of the bytes of a text decodes to the text.
percent_decode-Spells :
    (s t : Text) → Spells s (encode_utf8 t) → All IsScalar t → percent_decode s ≡ some t
unfolding percent_decode
percent_decode-Spells s t spelt scalar =
    rw (unescape-Spells s (encode_utf8 t) spelt, percent_decode) (from_utf8-encode_utf8 t scalar)

split-slash : (s t : Text) → All (λ c. c ≢ b'/') s → split b'/' (s ++ b'/' ∷ t) ≡ s ∷ split b'/' t
unfolding split
split-slash [] t h = refl
split-slash (c ∷ s) t h =
    let test : (c == b'/') ≡ false = ground (arith, h.0) in rw (test, split-slash s t h.1) refl

split-last : (s : Text) → All (λ c. c ≢ b'/') s → split b'/' s ≡ s ∷ []
unfolding split
split-last [] h = refl
split-last (c ∷ s) h =
    let test : (c == b'/') ≡ false = ground (arith, h.0) in rw (test, split-last s h.1) refl

Spells-segment : (s : Text) (bytes : List ℕ) → Spells s bytes → All (λ c. c ≢ b'/') s
Spells-segment s bytes done = tt
Spells-segment s bytes (plain c small not_escape not_slash rest) =
    (not_slash, Spells-segment _ _ rest)
Spells-segment s bytes (escaped high low a b h l rest) =
    (λ e. omega arith, (λ e. omega arith, (λ e. omega arith, Spells-segment _ _ rest)))

-- The path of a target, from the spellings of its room.
abbrev pub path : Text → Text → Text → Text
path project task digest = route_prefix ++ (project ++ b'/' ∷ (task ++ b'/' ∷ digest))

parse_segments-room :
    (first second project task digest : Text)
    → percent_decode first ≡ some project
    → percent_decode second ≡ some task
    → project ≢ []
    → task ≢ []
    → parse_segments (first ∷ second ∷ digest ∷ [])
      ≡ some (record { room = record { project = project; task = task }; digest = digest })
unfolding parse_segments
parse_segments-room first second [] task digest e f m n = absurd (m refl)
parse_segments-room first second (c ∷ project) [] digest e f m n = absurd (n refl)
parse_segments-room first second (c ∷ project) (d ∷ task) digest e f m n =
    rw (e, f, parse_segments) refl

-- `Target::parse` inverts every spelling of a target: whichever characters of the room's components
-- are percent-encoded, in either case of the digits, a path of the prefix, the two spelt components,
-- neither of them empty, and a digest without `/` parses to the room and the digest.
pub parse-path :
    (first second project task digest : Text)
    → Spells first (encode_utf8 project)
    → Spells second (encode_utf8 task)
    → All IsScalar project
    → All IsScalar task
    → project ≢ []
    → task ≢ []
    → All (λ c. c ≢ b'/') digest
    → parse (path first second digest)
      ≡ some (record { room = record { project = project; task = task }; digest = digest })
unfolding parse strip_prefix
parse-path first second project task digest spelt spelt' scalar scalar' m n plain_digest =
    rw
      (
        split-slash first (second ++ b'/' ∷ digest) (Spells-segment first _ spelt),
        split-slash second digest (Spells-segment second _ spelt'),
        split-last digest plain_digest,
      )
      (parse_segments-room first second project task digest
        (percent_decode-Spells first project spelt scalar)
        (percent_decode-Spells second task spelt' scalar') m n)
