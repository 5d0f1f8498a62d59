-- ===== src/Base/Map/Sums.antt =====
-- Sums over the values of a map, and predicates that all of its values meet.
use Prim.Native.Nat.{ℕ, ◌+◌, ◌*◌, ◌≤◌}
use omp_relayd.Base.Lists.{length}
use mathlib.Core.Path.{◌≡◌, refl, subst}
use mathlib.Core.Logic.{ite}
use mathlib.Core.Bool.{Bool, true, false, not}
use mathlib.Core.Option.{Option, none, some}
use mathlib.Core.List.{[], ◌∷◌}
use native.Mathlib.Omega.{arith}
use omp_relayd.Base.Tests.{Eq, if◌then◌else◌}
use omp_relayd.Base.Map.{Map, get, remove, insert, retain, Uniq}

abbrev pub weight {ℓ} : {V : Type ℓ} → (V → ℕ) → Option V → ℕ
weight w none = 0
weight w (some v) = w v

abbrev pub sum {ℓ} : {K V : Type ℓ} → (V → ℕ) → Map K V → ℕ
sum w [] = 0
sum w ((j, v) ∷ m) = w v + sum w m

abbrev pub AllValues {ℓ κ} : {K V : Type ℓ} → (V → Type κ) → Map K V → Type κ
AllValues P [] = Unit
AllValues P ((j, v) ∷ m) = P v × AllValues P m

abbrev pub on_value {ℓ} : {V : Type ℓ} → (V → V) → Option V → Option V
on_value f none = none
on_value f (some v) = some (f v)

-- Changes every value.
abbrev pub map_values {ℓ} : {K V : Type ℓ} → (V → V) → Map K V → Map K V
map_values f [] = []
map_values f ((j, v) ∷ m) = (j, f v) ∷ map_values f m

module _ {ℓ} {K V : Type ℓ} ⦃e : Eq K⦄ where
  pub remove-none : (k : K) (m : Map K V) → get k m ≡ none → remove k m ≡ m
  unfolding get remove
  remove-none k [] h = refl
  remove-none k ((j, v) ∷ m) h = ground (arith, remove-none k m)

  pub sum-remove :
      (w : V → ℕ) (k : K) (m : Map K V) → Uniq m → sum w (remove k m) + weight w (get k m) ≡ sum w m
  unfolding get remove
  sum-remove w k [] u = refl
  sum-remove w k ((j, v) ∷ m) u = ground (arith, sum-remove w k m u.1, remove-none j m)

  pub sum-insert :
      (w : V → ℕ) (k : K) (v : V) (m : Map K V)
      → Uniq m
      → sum w (insert k v m) + weight w (get k m) ≡ sum w m + w v
  unfolding insert
  sum-insert w k v m u = ground (arith, sum-remove w k m u)

  pub weight-get-le : (w : V → ℕ) (k : K) (m : Map K V) → weight w (get k m) ≤ sum w m
  unfolding get
  weight-get-le w k [] = omega arith
  weight-get-le w k ((j, v) ∷ m) = ground (arith, weight-get-le w k m)

  pub sum-retain :
      (w : V → ℕ) (p : V → Bool) (m : Map K V)
      → sum w (retain p m) + sum w (retain (λ v. not (p v)) m) ≡ sum w m
  unfolding retain
  sum-retain w p [] = refl
  sum-retain w p ((j, v) ∷ m) = ground (arith, sum-retain w p m)

  pub get-map_values :
      (f : V → V) (k : K) (m : Map K V) → get k (map_values f m) ≡ on_value f (get k m)
  unfolding get
  get-map_values f k [] = refl
  get-map_values f k ((j, v) ∷ m) = ground (arith, get-map_values f k m)

  pub Uniq-map_values : (f : V → V) (m : Map K V) → Uniq m → Uniq (map_values f m)
  Uniq-map_values f [] u = u
  Uniq-map_values f ((j, v) ∷ m) u = (ground (arith, get-map_values f j m), Uniq-map_values f m u.1)

module _ {ℓ κ} {K V : Type ℓ} ⦃e : Eq K⦄ (P : V → Type κ) where
  pub AllValues-get : (k : K) (m : Map K V) {v : V} → AllValues P m → get k m ≡ some v → P v
  unfolding get
  AllValues-get k [] a h = absurd (cc)
  AllValues-get k ((j, v) ∷ m) {v = u} a h =
      elim (e.dec j k) as (λ d. ite d (some v) (get k m) ≡ some u → P u) [
        | yes hit ↦ λ q. (let same : v ≡ u = cc in subst P same a.0)
        | no miss ↦ λ q. AllValues-get k m a.1 q
      ]
        h

  pub AllValues-remove : (k : K) (m : Map K V) → AllValues P m → AllValues P (remove k m)
  unfolding remove
  AllValues-remove k [] a = a
  AllValues-remove k ((j, v) ∷ m) a =
      elim (e.dec j k) as (λ d. AllValues P (ite d (remove k m) ((j, v) ∷ remove k m))) [
        | yes hit ↦ AllValues-remove k m a.1
        | no miss ↦ (a.0, AllValues-remove k m a.1)
      ]

  pub AllValues-insert :
      (k : K) (v : V) (m : Map K V) → P v → AllValues P m → AllValues P (insert k v m)
  unfolding insert
  AllValues-insert k v m h a = (h, AllValues-remove k m a)

  pub AllValues-retain : (p : V → Bool) (m : Map K V) → AllValues P m → AllValues P (retain p m)
  unfolding retain
  AllValues-retain p [] a = a
  AllValues-retain p ((j, v) ∷ m) a =
      elim (p v) as (λ b. AllValues P (if b then (j, v) ∷ retain p m else retain p m)) [
        | true ↦ (a.0, AllValues-retain p m a.1)
        | false ↦ AllValues-retain p m a.1
      ]

pub AllValues-weaken {ℓ κ μ} :
    {K V : Type ℓ} (P : V → Type κ) (Q : V → Type μ)
    → ((v : V) → P v → Q v)
    → (m : Map K V) → AllValues P m
    → AllValues Q m
AllValues-weaken P Q f [] a = tt
AllValues-weaken P Q f ((j, v) ∷ m) a = (f v a.0, AllValues-weaken P Q f m a.1)

-- Values of some least weight are few.
pub length-sum {ℓ} :
    {K V : Type ℓ} (w : V → ℕ) (least : ℕ) (m : Map K V)
    → AllValues (λ v. least ≤ w v) m
    → length m * least ≤ sum w m
length-sum w least [] a = omega arith
length-sum w least ((j, v) ∷ m) a = omega (arith, a.0, length-sum w least m a.1)
