-- ===== src/Base/Truncate.antt =====
-- Cutting a text at a character boundary, as the loops around `is_char_boundary` and `truncate` do.
use Prim.Native.Nat.{ℕ, zero, suc, ◌+◌, ◌-◌, ◌≤◌, ◌<◌}
use mathlib.Core.Path.{◌≡◌, refl, ap}
use mathlib.Core.Logic.{◌⊎◌, inl, inr}
use mathlib.Core.Bool.{Bool, true, ◌&&◌, ◌||◌}
use mathlib.Core.List.{List, [], ◌∷◌, ◌++◌, append-nil}
use native.Mathlib.Decide.{ℕ_discrete}
use native.Mathlib.Omega.{arith}
use omp_relayd.Base.Tests.{ltb, leb, ◌==◌, if◌then◌else◌, Bool-cases}
use omp_relayd.Base.Text.{len_utf8, byte_len}

-- `str::is_char_boundary`
unfoldable pub is_char_boundary : List ℕ → ℕ → Bool
is_char_boundary [] n = n == 0
is_char_boundary (c ∷ s) n = n == 0 || (leb (len_utf8 c) n && is_char_boundary s (n - len_utf8 c))

-- `while end > 0 && !s.is_char_boundary(end) { end -= 1; }`
unfoldable pub boundary_below : List ℕ → ℕ → ℕ
unfolding is_char_boundary
boundary_below s zero = zero
boundary_below s (suc end) =
    let rest = boundary_below s end in if is_char_boundary s (suc end) then suc end else rest

-- `String::truncate` at a boundary.
unfoldable pub truncate : List ℕ → ℕ → List ℕ
truncate [] n = []
truncate (c ∷ s) n = if leb (len_utf8 c) n then c ∷ truncate s (n - len_utf8 c) else []

unfoldable pub cap_text : ℕ → List ℕ → List ℕ
unfolding boundary_below truncate
cap_text limit s = if ltb limit (byte_len s) then truncate s (boundary_below s limit) else s

len_utf8_bounds : (c : ℕ) → (1 ≤ len_utf8 c) × (len_utf8 c ≤ 4)
unfolding len_utf8
len_utf8_bounds c = ground arith

boundary_below-le : (s : List ℕ) (n : ℕ) → boundary_below s n ≤ n
unfolding boundary_below
boundary_below-le s zero = omega arith
boundary_below-le s (suc n) = ground (arith, boundary_below-le s n)

zero_boundary : (s : List ℕ) → is_char_boundary s 0 ≡ true
unfolding is_char_boundary
zero_boundary [] = refl
zero_boundary (c ∷ s) = refl

boundary_below_boundary : (s : List ℕ) (n : ℕ) → is_char_boundary s (boundary_below s n) ≡ true
unfolding boundary_below
boundary_below_boundary s zero = zero_boundary s
boundary_below_boundary s (suc n) = ground (arith, boundary_below_boundary s n)

boundary_below_largest :
    (s : List ℕ) (n b : ℕ) → b ≤ n → is_char_boundary s b ≡ true → b ≤ boundary_below s n
unfolding boundary_below
boundary_below_largest s zero b h k = h
boundary_below_largest s (suc n) b h k = elim (ℕ_discrete b (suc n)) [
  | yes top ↦ ground (arith, ap (is_char_boundary s) top)
  | no below ↦ ground (arith, boundary_below_largest s n b (omega arith) k, boundary_below-le s n)
]

-- At a boundary, `truncate` keeps exactly that many bytes.
byte_len-truncate : (s : List ℕ) (n : ℕ) → is_char_boundary s n ≡ true → byte_len (truncate s n) ≡ n
unfolding is_char_boundary byte_len truncate
byte_len-truncate [] n h = ground arith
byte_len-truncate (c ∷ s) n h =
    ground (arith, byte_len-truncate s (n - len_utf8 c), len_utf8_bounds c)

-- What `truncate` cuts off.
pub cut : List ℕ → ℕ → List ℕ
cut [] n = []
cut (c ∷ s) n = if leb (len_utf8 c) n then cut s (n - len_utf8 c) else c ∷ s

truncate-cut : (s : List ℕ) (n : ℕ) → truncate s n ++ cut s n ≡ s
unfolding truncate cut
truncate-cut [] n = refl
truncate-cut (c ∷ s) n = ground (arith, truncate-cut s (n - len_utf8 c))

-- The last boundary at or before a position, found from the front.
floor : List ℕ → ℕ → ℕ
floor [] n = 0
floor (c ∷ s) n = if leb (len_utf8 c) n then len_utf8 c + floor s (n - len_utf8 c) else 0

floor_boundary : (s : List ℕ) (n : ℕ) → is_char_boundary s (floor s n) ≡ true
unfolding floor is_char_boundary
floor_boundary [] n = refl
floor_boundary (c ∷ s) n = elim (Bool-cases (leb (len_utf8 c) n)) [
  | inl fits ↦
      let same : len_utf8 c + floor s (n - len_utf8 c) - len_utf8 c ≡ floor s (n - len_utf8 c) =
        omega arith in
      ground (arith, same, floor_boundary s (n - len_utf8 c), ap (is_char_boundary s) same)
  | inr over ↦ ground arith
]

floor_near : (s : List ℕ) (n : ℕ) → n < byte_len s → (floor s n ≤ n) × (n ≤ floor s n + 3)
unfolding floor byte_len
floor_near [] n h = absurd (omega arith)
floor_near (c ∷ s) n h = ground (arith, len_utf8_bounds c, floor_near s (n - len_utf8 c))

-- A capped text fits its limit, is a prefix of the text, and is the whole text or within three
-- bytes of the limit.
pub cap_text_lem :
    (limit : ℕ) (s : List ℕ)
    → (byte_len (cap_text limit s) ≤ limit)
      × ((rest : List ℕ) × (cap_text limit s ++ rest ≡ s))
      × ((cap_text limit s ≡ s) ⊎ (limit ≤ byte_len (cap_text limit s) + 3))
unfolding cap_text
cap_text_lem limit s = elim (Bool-cases (ltb limit (byte_len s))) [
  | inr fits ↦ rw fits (ground arith, ([], append-nil s), inl refl)
  | inl over ↦
      let size = byte_len-truncate s (boundary_below s limit) (boundary_below_boundary s limit) in
      let near = floor_near s limit (ground arith) in
      let large = boundary_below_largest s limit (floor s limit) near.0 (floor_boundary s limit) in
      rw over (
        omega (arith, size, boundary_below-le s limit),
        (cut s (boundary_below s limit), truncate-cut s (boundary_below s limit)),
        inr (omega (arith, size, large, near.1)),
      )
]
