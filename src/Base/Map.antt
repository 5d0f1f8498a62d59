-- ===== src/Base/Map.antt =====
-- `HashMap` of the standard library as an association list. Clients use the laws below, which
-- describe `get` after each operation, and sums over the values.

pub mod Sums
use mathlib.Core.Path.{◌≡◌, refl}
use mathlib.Core.Logic.{ite}
use mathlib.Core.Bool.{Bool, true, false}
use mathlib.Core.Option.{Option, none, some}
use mathlib.Core.List.{List, [], ◌∷◌}
use native.Mathlib.Omega.{arith}
use omp_relayd.Base.Tests.{Eq, if◌then◌else◌}
use omp_relayd.Base.Lists.{is_some}

abbrev pub Map {ℓ} : Type ℓ → Type ℓ → Type ℓ
Map K V = List (K × V)

-- The entry of an option that passes the test.
abbrev pub keep {ℓ} : {V : Type ℓ} → (V → Bool) → Option V → Option V
keep p none = none
keep p (some v) = if p v then some v else none

module _ {ℓ} {K V : Type ℓ} ⦃e : Eq K⦄ where
  unfoldable pub get : K → Map K V → Option V
  get k [] = none
  get k ((j, v) ∷ m) = ite (e.dec j k) (some v) (get k m)

  unfoldable pub remove : K → Map K V → Map K V
  remove k [] = []
  remove k ((j, v) ∷ m) = ite (e.dec j k) (remove k m) ((j, v) ∷ remove k m)

  unfoldable pub insert : K → V → Map K V → Map K V
  unfolding remove
  insert k v m = (k, v) ∷ remove k m

  abbrev pub contains_key : K → Map K V → Bool
  contains_key k m = is_some (get k m)

  -- Keeps the entries whose value passes the test.
  unfoldable pub retain : (V → Bool) → Map K V → Map K V
  retain p [] = []
  retain p ((j, v) ∷ m) = if p v then (j, v) ∷ retain p m else retain p m

  -- No key occurs twice.
  abbrev pub Uniq : Map K V → Type ℓ
  Uniq [] = Unit {ℓ}
  Uniq ((j, v) ∷ m) = (get j m ≡ none) × Uniq m

  pub get-remove : (j k : K) (m : Map K V) → get j (remove k m) ≡ ite (e.dec k j) none (get j m)
  unfolding get remove
  get-remove j k [] = ground arith
  get-remove j k ((i, v) ∷ m) = ground (arith, get-remove j k m)

  pub get-insert :
      (j k : K) (v : V) (m : Map K V) → get j (insert k v m) ≡ ite (e.dec k j) (some v) (get j m)
  unfolding get insert
  get-insert j k v m = ground (arith, get-remove j k m)

  pub get-insert_self : (k : K) (v : V) (m : Map K V) → get k (insert k v m) ≡ some v
  get-insert_self k v m = ground (arith, get-insert k k v m)

  pub get-remove_self : (k : K) (m : Map K V) → get k (remove k m) ≡ none
  get-remove_self k m = ground (arith, get-remove k k m)

  pub get-retain-none :
      (j : K) (p : V → Bool) (m : Map K V) → get j m ≡ none → get j (retain p m) ≡ none
  unfolding get retain
  get-retain-none j p [] h = refl
  get-retain-none j p ((i, v) ∷ m) h = ground (arith, get-retain-none j p m)

  pub get-retain :
      (j : K) (p : V → Bool) (m : Map K V) → Uniq m → get j (retain p m) ≡ keep p (get j m)
  unfolding get retain
  get-retain j p [] u = refl
  get-retain j p ((i, v) ∷ m) u = ground (arith, get-retain j p m u.1, get-retain-none j p m)

  pub Uniq-remove : (k : K) (m : Map K V) → Uniq m → Uniq (remove k m)
  unfolding remove
  Uniq-remove k [] u = u
  Uniq-remove k ((i, v) ∷ m) u = ground (arith, Uniq-remove k m u.1, get-remove i k m)

  pub Uniq-insert : (k : K) (v : V) (m : Map K V) → Uniq m → Uniq (insert k v m)
  unfolding insert
  Uniq-insert k v m u = (get-remove_self k m, Uniq-remove k m u)

  pub Uniq-retain : (p : V → Bool) (m : Map K V) → Uniq m → Uniq (retain p m)
  unfolding retain
  Uniq-retain p [] u = u
  Uniq-retain p ((i, v) ∷ m) u = ground (arith, Uniq-retain p m u.1, get-retain-none i p m)
