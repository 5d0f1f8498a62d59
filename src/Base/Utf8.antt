-- ===== src/Base/Utf8.antt =====
-- `String::from_utf8` of the standard library over lists of bytes.
use Prim.Native.Nat.{ℕ, ◌+◌, ◌*◌, ◌/◌, ◌%◌, ◌<◌, ◌≤◌, ◌-◌}
use mathlib.Core.Path.{◌≡◌, refl, sym, ap, subst, ◌∙◌}
use mathlib.Core.Logic.{◌≢◌, ◌⊎◌, inl, inr}
use mathlib.Core.List.{List, [], ◌∷◌, ◌++◌}
use mathlib.Core.Bool.{◌&&◌}
use mathlib.Core.Option
use mathlib.Core.Option.{Option, none, some}
use native.Mathlib.Omega.{arith}
use native.Mathlib.Decide.{ℕ_discrete}
use omp_relayd.Base.Tests.{Bool-cases, ltb, leb, ◌==◌, if◌then◌else◌}
use omp_relayd.Base.Lists.{All}
use omp_relayd.Base.Text.{encode_char, encode_utf8}

-- Where a decoder is: how many continuation bytes it wants, the range of the next one, and the bits
-- of the character so far.
pub record Utf8 : Type 0 where
  pub wanted : ℕ
  pub low : ℕ
  pub high : ℕ
  pub value : ℕ

abbrev pub between : Utf8
between = record { wanted = 0; low = 128; high = 191; value = 0 }

-- The first byte of a character of `wanted` further bytes, the next of them between `low` and `high`.
abbrev pub lead : ℕ → ℕ → ℕ → ℕ → Option (List ℕ × Utf8)
lead wanted low high value =
    some ([], record { wanted = wanted; low = low; high = high; value = value })

-- The well-formed sequences of the Unicode standard: no overlong form, no surrogate, nothing past
-- 0x10ffff.
unfoldable pub lead_byte : ℕ → Option (List ℕ × Utf8)
lead_byte b =
    if ltb b 0x80
    then some (b ∷ [], between)
    else if ltb b 0xc2
    then none
    else if ltb b 0xe0
    then lead 1 128 191 (b % 32)
    else if b == 0xe0
    then lead 2 0xa0 191 0
    else if b == 0xed
    then lead 2 128 0x9f 13
    else if ltb b 0xf0
    then lead 2 128 191 (b % 16)
    else if b == 0xf0
    then lead 3 0x90 191 0
    else if ltb b 0xf4
    then lead 3 128 191 (b % 8)
    else if b == 0xf4
    then lead 3 128 0x8f 4
    else none

-- What one byte completes, and where it leaves the decoder.
unfoldable pub advance : Utf8 → ℕ → Option (List ℕ × Utf8)
unfolding lead_byte
advance u b =
    if u.wanted == 0
    then lead_byte b
    else if leb u.low b && leb b u.high
    then (if u.wanted == 1
        then some ((u.value * 64 + b % 64) ∷ [], between)
        else lead (u.wanted - 1) 128 191 (u.value * 64 + b % 64))
    else none

unfoldable pub decode_utf8 : Utf8 → List ℕ → Option (List ℕ)
unfolding advance
decode_utf8 u [] = if u.wanted == 0 then some [] else none
decode_utf8 u (b ∷ bs) = elim (advance u b) [
  | none ↦ none
  | some (out, next) ↦ Option.map (λ s. out ++ s) (decode_utf8 next bs)
]

unfoldable pub from_utf8 : List ℕ → Option (List ℕ)
unfolding decode_utf8
from_utf8 bytes = decode_utf8 between bytes

-- A Unicode scalar value, which is what a `char` holds.
abbrev pub IsScalar : ℕ → Type 0
IsScalar c = (c < 0xd800) ⊎ ((0xdfff < c) × (c < 0x110000))

decode_utf8-step :
    (u next : Utf8) (b : ℕ) (out bs : List ℕ)
    → advance u b ≡ some (out, next)
    → decode_utf8 u (b ∷ bs) ≡ Option.map (λ s. out ++ s) (decode_utf8 next bs)
unfolding decode_utf8
decode_utf8-step u next b out bs e = rw (e, decode_utf8) refl

map-nothing : (o : Option (List ℕ)) → Option.map (λ s. [] ++ s) o ≡ o
map-nothing none = refl
map-nothing (some s) = refl

-- A byte that does not end its character.
decode_utf8-lead :
    (u next : Utf8) (b : ℕ) (bs : List ℕ)
    → advance u b ≡ some ([], next)
    → decode_utf8 u (b ∷ bs) ≡ decode_utf8 next bs
decode_utf8-lead u next b bs e =
    decode_utf8-step u next b [] bs e ∙ map-nothing (decode_utf8 next bs)

one_byte : (c : ℕ) → c < 128 → advance between c ≡ some (c ∷ [], between)
unfolding advance lead_byte
one_byte c h = ground arith

-- A continuation byte in the range that is wanted.
last_byte :
    (low high value d : ℕ)
    → low ≤ d
    → d ≤ high
    → advance (record { wanted = 1; low = low; high = high; value = value }) d
      ≡ some ((value * 64 + d % 64) ∷ [], between)
unfolding advance
last_byte low high value d h k = ground arith

inner_byte :
    (low high value d : ℕ)
    → low ≤ d
    → d ≤ high
    → advance (record { wanted = 2; low = low; high = high; value = value }) d
      ≡ lead 1 128 191 (value * 64 + d % 64)
unfolding advance
inner_byte low high value d h k = ground arith

first_inner_byte :
    (low high value d : ℕ)
    → low ≤ d
    → d ≤ high
    → advance (record { wanted = 3; low = low; high = high; value = value }) d
      ≡ lead 2 128 191 (value * 64 + d % 64)
unfolding advance
first_inner_byte low high value d h k = ground arith

lead_two : (b : ℕ) → 0xc2 ≤ b → b < 0xe0 → lead_byte b ≡ lead 1 128 191 (b % 32)
unfolding lead_byte
lead_two b h k = ground arith

lead_three : (b : ℕ) → 0xe0 < b → b < 0xf0 → b ≢ 0xed → lead_byte b ≡ lead 2 128 191 (b % 16)
unfolding lead_byte
lead_three b h k l = ground arith

lead_four : (b : ℕ) → 0xf0 < b → b < 0xf4 → lead_byte b ≡ lead 3 128 191 (b % 8)
unfolding lead_byte
lead_four b h k = ground arith

-- The decoder over the bytes of one character.
abbrev state : ℕ → ℕ → ℕ → ℕ → Utf8
state wanted low high value = record { wanted = wanted; low = low; high = high; value = value }

module _ (bs : List ℕ) where
  starts :
      (wanted low high value b : ℕ) (rest : List ℕ)
      → lead_byte b ≡ lead wanted low high value
      → decode_utf8 between (b ∷ rest) ≡ decode_utf8 (state wanted low high value) rest
  unfolding advance
  starts wanted low high value b rest e =
      decode_utf8-lead between (state wanted low high value) b rest e

  ends :
      (low high value d c : ℕ)
      → low ≤ d
      → d ≤ high
      → value * 64 + d % 64 ≡ c
      → decode_utf8 (state 1 low high value) (d ∷ bs)
        ≡ Option.map (λ s. c ∷ s) (decode_utf8 between bs)
  ends low high value d c h k e =
      subst
        (λ x.
          decode_utf8 (state 1 low high value) (d ∷ bs)
          ≡ Option.map (λ s. x ∷ s) (decode_utf8 between bs))
        e (decode_utf8-step _ _ d _ bs (last_byte low high value d h k))

  ends_two :
      (low high value d e c : ℕ)
      → low ≤ d
      → d ≤ high
      → 128 ≤ e
      → e ≤ 191
      → (value * 64 + d % 64) * 64 + e % 64 ≡ c
      → decode_utf8 (state 2 low high value) (d ∷ e ∷ bs)
        ≡ Option.map (λ s. c ∷ s) (decode_utf8 between bs)
  ends_two low high value d e c h k l m same =
      decode_utf8-lead _ _ d _ (inner_byte low high value d h k)
      ∙ ends 128 191 (value * 64 + d % 64) e c l m same

  ends_three :
      (low high value d e f c : ℕ)
      → low ≤ d
      → d ≤ high
      → 128 ≤ e
      → e ≤ 191
      → 128 ≤ f
      → f ≤ 191
      → ((value * 64 + d % 64) * 64 + e % 64) * 64 + f % 64 ≡ c
      → decode_utf8 (state 3 low high value) (d ∷ e ∷ f ∷ bs)
        ≡ Option.map (λ s. c ∷ s) (decode_utf8 between bs)
  ends_three low high value d e f c h k l m n o same =
      decode_utf8-lead _ _ d _ (first_inner_byte low high value d h k)
      ∙ ends_two 128 191 (value * 64 + d % 64) e f c l m n o same

  decode-two :
      (c : ℕ)
      → 128 ≤ c
      → c < 2048
      → decode_utf8 between ((192 + c / 64) ∷ (128 + c % 64) ∷ bs)
        ≡ Option.map (λ s. c ∷ s) (decode_utf8 between bs)
  decode-two c h k =
      starts 1 128 191 ((192 + c / 64) % 32) (192 + c / 64) _
        (lead_two (192 + c / 64) (omega arith) (omega arith))
      ∙ ends 128 191 ((192 + c / 64) % 32) (128 + c % 64) c (omega arith) (omega arith)
          (omega arith)

  decode-three :
      (c : ℕ)
      → 2048 ≤ c
      → c < 65536
      → IsScalar c
      → decode_utf8 between ((224 + c / 4096) ∷ (128 + c / 64 % 64) ∷ (128 + c % 64) ∷ bs)
        ≡ Option.map (λ s. c ∷ s) (decode_utf8 between bs)
  decode-three c h k v = elim (ℕ_discrete (c / 4096) 0) [
    | yes e ↦
        starts 2 0xa0 191 0 (224 + c / 4096) _
          (subst (λ x. lead_byte (224 + x) ≡ lead 2 0xa0 191 0) (sym e) (unfold lead_byte in refl))
        ∙ ends_two 0xa0 191 0 _ _ c (omega arith) (omega arith) (omega arith) (omega arith)
            (omega arith)
    | no n ↦ elim (ℕ_discrete (c / 4096) 13) [
      | yes e ↦
          starts 2 128 0x9f 13 (224 + c / 4096) _ (
            subst (λ x. lead_byte (224 + x) ≡ lead 2 128 0x9f 13) (sym e)
              (unfold lead_byte in refl))
          ∙ ends_two 128 0x9f 13 _ _ c (omega arith) (omega arith) (omega arith) (omega arith)
              (omega arith)
      | no m ↦
          starts 2 128 191 ((224 + c / 4096) % 16) (224 + c / 4096) _
            (lead_three (224 + c / 4096) (omega arith) (omega arith) (λ x. m (omega arith)))
          ∙ ends_two 128 191 _ _ _ c (omega arith) (omega arith) (omega arith) (omega arith)
              (omega arith)
    ]
  ]

  decode-four :
      (c : ℕ)
      → 65536 ≤ c
      → c < 0x110000
      → decode_utf8 between
          ((240 + c / 262144) ∷ (128 + c / 4096 % 64) ∷ (128 + c / 64 % 64) ∷ (128 + c % 64) ∷ bs)
        ≡ Option.map (λ s. c ∷ s) (decode_utf8 between bs)
  decode-four c h k = elim (ℕ_discrete (c / 262144) 0) [
    | yes e ↦
        starts 3 0x90 191 0 (240 + c / 262144) _
          (subst (λ x. lead_byte (240 + x) ≡ lead 3 0x90 191 0) (sym e) (unfold lead_byte in refl))
        ∙ ends_three 0x90 191 0 _ _ _ c (omega arith) (omega arith) (omega arith) (omega arith)
            (omega arith) (omega arith) (omega arith)
    | no n ↦ elim (ℕ_discrete (c / 262144) 4) [
      | yes e ↦
          starts 3 128 0x8f 4 (240 + c / 262144) _ (
            subst (λ x. lead_byte (240 + x) ≡ lead 3 128 0x8f 4) (sym e) (unfold lead_byte in refl))
          ∙ ends_three 128 0x8f 4 _ _ _ c (omega arith) (omega arith) (omega arith) (omega arith)
              (omega arith) (omega arith) (omega arith)
      | no m ↦
          starts 3 128 191 ((240 + c / 262144) % 8) (240 + c / 262144) _
            (lead_four (240 + c / 262144) (omega arith) (omega arith))
          ∙ ends_three 128 191 _ _ _ _ c (omega arith) (omega arith) (omega arith) (omega arith)
              (omega arith) (omega arith) (omega arith)
    ]
  ]

  decode_utf8-encode_char :
      (c : ℕ)
      → IsScalar c
      → decode_utf8 between (encode_char c ++ bs) ≡ Option.map (λ s. c ∷ s) (decode_utf8 between bs)
  unfolding encode_char
  decode_utf8-encode_char c v = elim (Bool-cases (ltb c 128)) [
    | inl e ↦ rw (e, encode_char) (decode_utf8-step _ _ c _ bs (one_byte c (ground arith)))
    | inr e ↦ elim (Bool-cases (ltb c 2048)) [
      | inl f ↦ rw (e, f, encode_char) (decode-two c (ground arith) (ground arith))
      | inr f ↦ elim (Bool-cases (ltb c 65536)) [
        | inl g ↦ rw (e, f, g, encode_char) (decode-three c (ground arith) (ground arith) v)
        | inr g ↦ rw (e, f, g, encode_char) (decode-four c (ground arith) (ground arith))
      ]
    ]
  ]

-- Decoding the encoding of a text gives it back.
pub from_utf8-encode_utf8 : (s : List ℕ) → All IsScalar s → from_utf8 (encode_utf8 s) ≡ some s
unfolding from_utf8 encode_utf8
from_utf8-encode_utf8 [] h = unfold decode_utf8 in refl
from_utf8-encode_utf8 (c ∷ s) h =
    decode_utf8-encode_char (encode_utf8 s) c h.0
    ∙ ap (Option.map (λ s. c ∷ s)) (from_utf8-encode_utf8 s h.1)
