-- ===== src/Base/Tests.antt =====
-- Boolean tests on numbers, and equality of keys as an instance.
use Prim.Native.Nat.{ℕ, ◌≤◌, ◌<◌, compare, Ordering}
use mathlib.Core.Path.{◌≡◌, refl}
use mathlib.Core.Logic.{◌⊎◌, inl, inr, ite}
use mathlib.Core.Bool.{Bool, true, false}
use mathlib.Core.Option.{Option, none, some}
use mathlib.Core.List.{List}
use native.Mathlib.Omega.{arith}
use native.Mathlib.Decide.{ℕ_discrete}

abbrev pub ltb : ℕ → ℕ → Bool
ltb a b = elim (compare a b) [ Ordering.lt ↦ true | _ ↦ false ]

abbrev pub leb : ℕ → ℕ → Bool
leb a b = elim (compare a b) [ Ordering.gt ↦ false | _ ↦ true ]

infix 50 ◌==◌
abbrev pub ◌==◌ : ℕ → ℕ → Bool
a == b = elim (compare a b) [ Ordering.eq ↦ true | _ ↦ false ]

infix 1 if◌then◌else◌
abbrev pub if◌then◌else◌ {ℓ} : {A : Type ℓ} → Bool → A → A → A
if true then x else y = x
if false then x else y = y

pub ltb→lt : (a b : ℕ) → ltb a b ≡ true → a < b
ltb→lt a b h = ground arith

pub leb→le : (a b : ℕ) → leb a b ≡ true → a ≤ b
leb→le a b h = ground arith

pub Bool-cases : (b : Bool) → (b ≡ true) ⊎ (b ≡ false)
Bool-cases true = inl refl
Bool-cases false = inr refl

pub Option-cases {ℓ} : {A : Type ℓ} (o : Option A) → (o ≡ none) ⊎ ((a : A) × (o ≡ some a))
Option-cases none = inl refl
Option-cases (some a) = inr (a, refl)

-- The bound `K: Eq` of a key type.
pub record Eq {ℓ} (K : Type ℓ) : Type ℓ where
  pub dec : Discrete K

unfoldable pub text-discrete : Discrete (List ℕ)
text-discrete = hlevel ℕ_discrete

instance abbrev pub text_eq : Eq (List ℕ)
text_eq = record { dec = text-discrete }

-- `==` of a key type.
abbrev pub equals {ℓ} : {K : Type ℓ} ⦃e : Eq K⦄ → K → K → Bool
equals ⦃e⦄ a b = ite (e.dec a b) true false

pub equals→eq {ℓ} : {K : Type ℓ} ⦃e : Eq K⦄ → (a b : K) → equals a b ≡ true → a ≡ b
equals→eq ⦃e⦄ a b h = ground arith

pub equals_refl {ℓ} : {K : Type ℓ} ⦃e : Eq K⦄ → (a : K) → equals a a ≡ true
equals_refl ⦃e⦄ a = ground arith
