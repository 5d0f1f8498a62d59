-- ===== src/Base/Text.antt =====
-- `String` and `str` of the standard library over lists of code points.
use Prim.Native.Nat.{ℕ, zero, suc, ◌+◌, ◌/◌, ◌%◌, ◌<◌}
use Prim.Native.Char.{code}
use Prim.Native.String.{String}
use mathlib.Core.Path.{◌≡◌, refl}
use mathlib.Core.List.{List, [], ◌∷◌, ◌++◌}
use native.Mathlib.Omega.{arith}
use omp_relayd.Base.Tests.{ltb, if◌then◌else◌}
use omp_relayd.Base.Lists.{length, length-append, All}

-- The code points of a literal.
abbrev pub codes : String → List ℕ
codes String.[] = []
codes (String.◌∷◌ c s) = code c ∷ codes s

abbrev pub get_or {ℓ} : {A : Type ℓ} → List A → ℕ → A → A
get_or [] i d = d
get_or (x ∷ xs) zero d = x
get_or (x ∷ xs) (suc i) d = get_or xs i d

-- `char::len_utf8`
unfoldable pub len_utf8 : ℕ → ℕ
len_utf8 c = if ltb c 128 then 1 else if ltb c 2048 then 2 else if ltb c 65536 then 3 else 4

-- `char::encode_utf8`
unfoldable pub encode_char : ℕ → List ℕ
encode_char c =
    if ltb c 128
    then c ∷ []
    else if ltb c 2048
    then (192 + c / 64) ∷ (128 + c % 64) ∷ []
    else if ltb c 65536
    then (224 + c / 4096) ∷ (128 + c / 64 % 64) ∷ (128 + c % 64) ∷ []
    else (240 + c / 262144) ∷ (128 + c / 4096 % 64) ∷ (128 + c / 64 % 64) ∷ (128 + c % 64) ∷ []

-- `str::as_bytes`
unfoldable pub encode_utf8 : List ℕ → List ℕ
unfolding encode_char
encode_utf8 [] = []
encode_utf8 (c ∷ cs) = encode_char c ++ encode_utf8 cs

-- `str::len`, in bytes.
unfoldable pub byte_len : List ℕ → ℕ
unfolding len_utf8
byte_len [] = 0
byte_len (c ∷ cs) = len_utf8 c + byte_len cs

length-encode_char : (c : ℕ) → length (encode_char c) ≡ len_utf8 c
unfolding encode_char len_utf8
length-encode_char c = ground arith

pub length-encode_utf8 : (s : List ℕ) → length (encode_utf8 s) ≡ byte_len s
unfolding encode_utf8 byte_len
length-encode_utf8 [] = refl
length-encode_utf8 (c ∷ cs) = omega (
  arith,
  length-append (encode_char c) (encode_utf8 cs),
  length-encode_utf8 cs,
  length-encode_char c,
)

-- A code point of a Rust `char`; surrogates are not excluded here.
abbrev pub IsChar : ℕ → Type 0
IsChar c = c < 0x110000

-- The encoding of a character ends where its first byte says.
encode_char_injective :
    (c d : ℕ) (xs ys : List ℕ)
    → IsChar c
    → IsChar d
    → encode_char c ++ xs ≡ encode_char d ++ ys
    → (c ≡ d) × (xs ≡ ys)
unfolding encode_char
encode_char_injective c d xs ys h k e = ground arith

pub encode_utf8_injective :
    (s t : List ℕ) → All IsChar s → All IsChar t → encode_utf8 s ≡ encode_utf8 t → s ≡ t
unfolding encode_utf8
encode_utf8_injective [] [] h k e = refl
encode_utf8_injective [] (d ∷ t) h k e = unfold encode_char in ground arith
encode_utf8_injective (c ∷ s) [] h k e = unfold encode_char in ground arith
encode_utf8_injective (c ∷ s) (d ∷ t) h k e =
    let (first, rest) = encode_char_injective c d (encode_utf8 s) (encode_utf8 t) h.0 k.0 e in
    cc (first, encode_utf8_injective s t h.1 k.1 rest)

-- `Display` of a u64: twenty digits at most. `digits_before k n rest` writes `n` in front of `rest`.
unfoldable pub digits_before : ℕ → ℕ → List ℕ → List ℕ
digits_before zero n rest = rest
digits_before (suc k) n rest =
    let more = digits_before k (n / 10) ((b'0' + n % 10) ∷ rest) in
    if ltb n 10 then (b'0' + n) ∷ rest else more

unfoldable pub decimal : ℕ → List ℕ
unfolding digits_before
decimal n = digits_before 20 n []
