-- ===== src/Blob/Base64.antt =====
-- `base64url` of server/src/blob.rs against a decoder: it loses nothing, its output has the
-- length of unpadded base64url, and its characters are those that a digest may have.
use omp_relayd.Base.{
  false, Bool-cases, inl, inr, if◌then◌else◌, ℕ, zero, suc, ◌+◌, ◌-◌, ◌*◌, ◌/◌, ◌%◌, ◌^◌, ◌<◌, ◌≡◌,
  refl, sym, ap, ◌∙◌, Bool, true, if◌then◌else◌, leb, ◌==◌, List, [], ◌∷◌, All, All-append, length,
  length-append, arith, ok,
}
use omp_relayd.Base.Text.{get_or}
use omp_relayd.Protocol.Limits.{Text}
use omp_relayd.Protocol.Validate.{is_base64_url, validate_digest}
use omp_relayd.Protocol.Rules.{validate_digest_iff}
use omp_relayd.Blob.Digest.{alphabet, symbol, symbols, pack, base64url, digest}

abbrev pub IsByte : ℕ → Type 0
IsByte b = b < 256

-- The six bits that a character stands for.
pub sextet : ℕ → ℕ
sextet c =
    if leb c b'-'
    then 62
    else if leb c b'9'
    then c + 4
    else if leb c b'Z'
    then c - 65
    else if leb c b'_'
    then 63
    else c - 71

pub decode : Text → List ℕ
decode (a ∷ b ∷ c ∷ d ∷ s) =
    (sextet a * 4 + sextet b / 16)
    ∷ (sextet b % 16 * 16 + sextet c / 4)
    ∷ (sextet c % 4 * 64 + sextet d)
    ∷ decode s
decode (a ∷ b ∷ c ∷ []) = (sextet a * 4 + sextet b / 16) ∷ (sextet b % 16 * 16 + sextet c / 4) ∷ []
decode (a ∷ b ∷ []) = (sextet a * 4 + sextet b / 16) ∷ []
decode _ = []

-- A test of the first entries of a table, from the last one down.
entries_pass : (test : ℕ → Bool) (count : ℕ) → Bool
entries_pass test zero = true
entries_pass test (suc count) = if test count then entries_pass test count else false

entries_pass_each :
    (test : ℕ → Bool) (count : ℕ) {i : ℕ}
    → i < count
    → entries_pass test count ≡ true
    → test i ≡ true
unfolding entries_pass
entries_pass_each test zero {i} small passed = absurd (omega (arith, small))
entries_pass_each test (suc count) {i} small passed = elim (Bool-cases (test count)) [
  | inl good ↦ ground (arith, entries_pass_each test count {i = i})
  | inr bad ↦ ground arith
]

sextet_table : entries_pass (λ i. sextet (get_or alphabet i 0) == i) 64 ≡ true
unfolding entries_pass sextet
sextet_table = refl

url_table : entries_pass (λ i. is_base64_url (get_or alphabet i 0)) 64 ≡ true
unfolding entries_pass
url_table = refl

==→eq : (a b : ℕ) → (a == b) ≡ true → a ≡ b
==→eq a b h = ground arith

sextet-symbol : (packed i : ℕ) → sextet (symbol packed i) ≡ packed / 2 ^ (18 - 6 * i) % 64
unfolding symbol
sextet-symbol packed i = ==→eq _ _ (
    entries_pass_each (λ i. sextet (get_or alphabet i 0) == i) 64
      {i = packed / 2 ^ (18 - 6 * i) % 64} (omega arith) sextet_table)

symbol_url : (packed i : ℕ) → is_base64_url (symbol packed i) ≡ true
unfolding symbol
symbol_url packed i =
    entries_pass_each (λ i. is_base64_url (get_or alphabet i 0)) 64
      {i = packed / 2 ^ (18 - 6 * i) % 64} (omega arith) url_table

symbols_url : (packed i count : ℕ) → All (λ c. is_base64_url c ≡ true) (symbols packed i count)
unfolding symbols
symbols_url packed i zero = tt
symbols_url packed i (suc count) = (symbol_url packed i, symbols_url packed (i + 1) count)

length-symbols : (packed i count : ℕ) → length (symbols packed i count) ≡ count
unfolding symbols
length-symbols packed i zero = refl
length-symbols packed i (suc count) = omega (arith, length-symbols packed (i + 1) count)

-- The three bytes of a group, from its four symbols.
unpack :
    (b0 b1 b2 : ℕ)
    → IsByte b0
    → IsByte b1
    → IsByte b2
    → let p = pack b0 b1 b2 in
      (sextet (symbol p 0) * 4 + sextet (symbol p 1) / 16 ≡ b0)
      × (sextet (symbol p 1) % 16 * 16 + sextet (symbol p 2) / 4 ≡ b1)
      × (sextet (symbol p 2) % 4 * 64 + sextet (symbol p 3) ≡ b2)
unfolding pack
unpack b0 b1 b2 h0 h1 h2 =
    let p = pack b0 b1 b2 in
    omega (arith, sextet-symbol p 0, sextet-symbol p 1, sextet-symbol p 2, sextet-symbol p 3)

-- The decoder reads back every byte string.
pub decode-base64url : (bytes : List ℕ) → All IsByte bytes → decode (base64url bytes) ≡ bytes
unfolding base64url decode symbols
decode-base64url [] h = refl
decode-base64url (b0 ∷ []) h =
    let (e0, _, _) = unpack b0 0 0 h.0 (omega arith) (omega arith) in cc (e0)
decode-base64url (b0 ∷ b1 ∷ []) h =
    let (e0, e1, _) = unpack b0 b1 0 h.0 h.1.0 (omega arith) in cc (e0, e1)
decode-base64url (b0 ∷ b1 ∷ b2 ∷ rest) h =
    let (e0, e1, e2) = unpack b0 b1 b2 h.0 h.1.0 h.1.1.0 in
    cc (e0, e1, e2, decode-base64url rest h.1.1.1)

-- So different byte strings have different texts.
pub base64url_injective :
    (xs ys : List ℕ) → All IsByte xs → All IsByte ys → base64url xs ≡ base64url ys → xs ≡ ys
base64url_injective xs ys h k e = sym (decode-base64url xs h) ∙ ap decode e ∙ decode-base64url ys k

base64url_url : (bytes : List ℕ) → All (λ c. is_base64_url c ≡ true) (base64url bytes)
unfolding base64url
base64url_url [] = tt
base64url_url (b0 ∷ []) = symbols_url (pack b0 0 0) 0 2
base64url_url (b0 ∷ b1 ∷ []) = symbols_url (pack b0 b1 0) 0 3
base64url_url (b0 ∷ b1 ∷ b2 ∷ rest) =
    All-append _ (symbols (pack b0 b1 b2) 0 4) (base64url rest) (symbols_url (pack b0 b1 b2) 0 4)
      (base64url_url rest)

-- Unpadded: four characters for three bytes, and one more than the bytes that are left over.
pub length-base64url : (bytes : List ℕ) → length (base64url bytes) ≡ (length bytes * 4 + 2) / 3
unfolding base64url
length-base64url [] = refl
length-base64url (b0 ∷ []) = length-symbols (pack b0 0 0) 0 2
length-base64url (b0 ∷ b1 ∷ []) = length-symbols (pack b0 b1 0) 0 3
length-base64url (b0 ∷ b1 ∷ b2 ∷ rest) = omega (
  arith,
  length-append (symbols (pack b0 b1 b2) 0 4) (base64url rest),
  length-symbols (pack b0 b1 b2) 0 4,
  length-base64url rest,
)

-- Every address that the store computes from a 32-byte hash passes the check of addresses.
pub validate_digest-digest :
    (sha256 : List ℕ → List ℕ)
    → ((bytes : List ℕ) → length (sha256 bytes) ≡ 32)
    → (bytes : List ℕ) → validate_digest (digest sha256 bytes) ≡ ok tt
unfolding digest
validate_digest-digest sha256 h bytes =
    (validate_digest_iff _).1
      (omega (arith, length-base64url (sha256 bytes), h bytes), base64url_url (sha256 bytes))
