-- ===== src/Main/Commands.antt =====
-- The command lines that server/src/main.rs accepts.
use mathlib.Core.List.{append-nil}
use omp_relayd.Base.{
  ◌≡◌, ◌↔◌, ◌⊎◌, inl, inr, refl, sym, subst, ◌∙◌, true, false, Bool-cases, ◌==◌, equals, equals→eq,
  text_eq, ℕ_discrete, text-discrete, List, [], ◌∷◌, ◌++◌, Option, none, some, Result, ok, err,
  arith,
}
use omp_relayd.Base.Text.{codes}
use omp_relayd.Protocol.Limits.{Text}
use omp_relayd.Protocol.Validate.{starts_with}
use omp_relayd.Main.Args.{
  Invocation, serve, help, version, bind_missing, given_twice, Arm, help_arm, version_arm, bind_arm,
  unknown_arm, address_arm, arm, parse_from, parse_args,
}

abbrev pub IsOption : Text → Type 0
IsOption arg = starts_with (λ c. c == b'-') arg ≡ true

abbrev pub IsAddress : Text → Type 0
IsAddress arg = starts_with (λ c. c == b'-') arg ≡ false

-- The arguments give the addresses, in their order, and nothing else.
pub data Gives : List Text → List Text → Type 0 where
  nothing : Gives [] []
  bound :
      {args addresses : List Text} (value : Text)
      → Gives args addresses
      → Gives (codes "--bind" ∷ value ∷ args) (value ∷ addresses)
  plain :
      {args addresses : List Text} (arg : Text)
      → IsAddress arg
      → Gives args addresses
      → Gives (arg ∷ args) (arg ∷ addresses)

equals-option : (arg flag : Text) → IsAddress arg → IsOption flag → equals arg flag ≡ false
equals-option arg flag h option = elim (Bool-cases (equals arg flag)) [
  | inl e ↦ absurd (let same = equals→eq arg flag e in cc)
  | inr e ↦ e
]

flags-IsOption :
    IsOption (codes "-h")
    × IsOption (codes "--help")
    × IsOption (codes "-V")
    × IsOption (codes "--version")
    × IsOption (codes "--bind")
unfolding starts_with
flags-IsOption = (refl, refl, refl, refl, refl)

arm-address : (arg : Text) → IsAddress arg → arm arg ≡ address_arm
unfolding arm
arm-address arg h =
    let (short_help, long_help, short_version, long_version, bind) = flags-IsOption in
    rw
      (
        equals-option arg (codes "-h") h short_help,
        equals-option arg (codes "--help") h long_help,
        equals-option arg (codes "-V") h short_version,
        equals-option arg (codes "--version") h long_version,
        equals-option arg (codes "--bind") h bind,
        h,
        arm,
      )
      refl

-- Only an address has the last arm, and only the flag has its own.
IsAddress-arm : (arg : Text) → arm arg ≡ address_arm → IsAddress arg
unfolding arm
IsAddress-arm arg h = ground arith

bind-arm : (arg : Text) → arm arg ≡ bind_arm → arg ≡ codes "--bind"
unfolding arm
bind-arm arg h = equals→eq arg (codes "--bind") (ground arith)

arm-bind : arm (codes "--bind") ≡ bind_arm
unfolding arm starts_with text-discrete ℕ_discrete
arm-bind = refl

parse_from-address :
    (arg : Text) (rest : List Text)
    → arm arg ≡ address_arm
    → parse_from none (arg ∷ rest) ≡ parse_from (some arg) rest
unfolding parse_from
parse_from-address arg [] e = rw (e, parse_from) refl
parse_from-address arg (value ∷ rest) e = rw (e, parse_from) refl

parse_from-twice :
    (seen arg : Text) (rest : List Text)
    → arm arg ≡ address_arm
    → parse_from (some seen) (arg ∷ rest) ≡ err given_twice
unfolding parse_from
parse_from-twice seen arg [] e = rw (e, parse_from) refl
parse_from-twice seen arg (value ∷ rest) e = rw (e, parse_from) refl

parse_from-bind :
    (seen : Option Text) (value : Text) (rest : List Text)
    → parse_from seen (codes "--bind" ∷ value ∷ rest)
      ≡ (elim seen [ none ↦ parse_from (some value) rest | some _ ↦ err given_twice ])
unfolding parse_from
parse_from-bind seen value rest = rw (arm-bind, parse_from) refl

-- What `parse_args` makes of more addresses before it goes on.
abbrev pub gather :
    Option Text → List Text → (Option Text → Result Invocation Text) → Result Invocation Text
gather seen [] next = next seen
gather none (a ∷ more) next = gather (some a) more next
gather (some _) (a ∷ more) next = err given_twice

pub parse_from-Gives :
    (args addresses rest : List Text)
    → Gives args addresses
    → (seen : Option Text)
    → parse_from seen (args ++ rest) ≡ gather seen addresses (λ a. parse_from a rest)
parse_from-Gives args addresses rest nothing seen = refl
parse_from-Gives args addresses rest (bound {args = args'} {addresses = addresses'} value more)
      none =
    parse_from-bind none value (args' ++ rest)
    ∙ parse_from-Gives args' addresses' rest more (some value)
parse_from-Gives args addresses rest (bound {args = args'} value more) (some a) =
    parse_from-bind (some a) value (args' ++ rest)
parse_from-Gives args addresses rest
      (plain {args = args'} {addresses = addresses'} arg is_address more) none =
    parse_from-address arg (args' ++ rest) (arm-address arg is_address)
    ∙ parse_from-Gives args' addresses' rest more (some arg)
parse_from-Gives args addresses rest (plain {args = args'} arg is_address more) (some a) =
    parse_from-twice a arg (args' ++ rest) (arm-address arg is_address)

Arm-cases :
    (a : Arm)
    → (a ≡ bind_arm)
      ⊎ ((a ≡ address_arm) ⊎ ((a ≡ help_arm) ⊎ ((a ≡ version_arm) ⊎ (a ≡ unknown_arm))))
Arm-cases bind_arm = inl refl
Arm-cases address_arm = inr (inl refl)
Arm-cases help_arm = inr (inr (inl refl))
Arm-cases version_arm = inr (inr (inr (inl refl)))
Arm-cases unknown_arm = inr (inr (inr (inr refl)))

-- The result serves an address.
abbrev IsServe : Result Invocation Text → Type 0
IsServe (ok (serve _)) = Unit {0}
IsServe (ok help) = ⊥
IsServe (ok version) = ⊥
IsServe (err _) = ⊥

parse_from-other :
    (arg : Text) (rest : List Text) (seen : Option Text)
    → (arm arg ≡ help_arm) ⊎ ((arm arg ≡ version_arm) ⊎ (arm arg ≡ unknown_arm))
    → ¬ IsServe (parse_from seen (arg ∷ rest))
unfolding parse_from
parse_from-other arg [] seen (inl e) = rw (e, parse_from) (λ h. h)
parse_from-other arg [] seen (inr (inl e)) = rw (e, parse_from) (λ h. h)
parse_from-other arg [] seen (inr (inr e)) = rw (e, parse_from) (λ h. h)
parse_from-other arg (value ∷ rest) seen (inl e) = rw (e, parse_from) (λ h. h)
parse_from-other arg (value ∷ rest) seen (inr (inl e)) = rw (e, parse_from) (λ h. h)
parse_from-other arg (value ∷ rest) seen (inr (inr e)) = rw (e, parse_from) (λ h. h)

parse_from-address_served :
    (arg : Text) (rest : List Text) (seen : Option Text)
    → arm arg ≡ address_arm
    → IsServe (parse_from seen (arg ∷ rest))
    → IsServe (parse_from (some arg) rest)
parse_from-address_served arg rest none e h = subst IsServe (parse_from-address arg rest e) h
parse_from-address_served arg rest (some a) e h =
    absurd (subst IsServe (parse_from-twice a arg rest e) h)

parse_from-bind_served :
    (value : Text) (rest : List Text) (seen : Option Text)
    → IsServe (parse_from seen (codes "--bind" ∷ value ∷ rest))
    → IsServe (parse_from (some value) rest)
parse_from-bind_served value rest none h = subst IsServe (parse_from-bind none value rest) h
parse_from-bind_served value rest (some a) h =
    absurd (subst IsServe (parse_from-bind (some a) value rest) h)

pub parse_from-bind_missing :
    (seen : Option Text) → parse_from seen (codes "--bind" ∷ []) ≡ err bind_missing
unfolding parse_from
parse_from-bind_missing seen = rw (arm-bind, parse_from) refl

parse_from-served :
    (args : List Text) (seen : Option Text)
    → IsServe (parse_from seen args)
    → (addresses : List Text) × Gives args addresses
parse_from-served [] seen h = ([], nothing)
parse_from-served (arg ∷ []) seen h = elim (Arm-cases (arm arg)) [
  | inl e ↦ absurd (
      subst IsServe (parse_from-bind_missing seen)
        (subst (λ x. IsServe (parse_from seen (x ∷ []))) (bind-arm arg e) h))
  | inr (inl e) ↦ (arg ∷ [], plain arg (IsAddress-arm arg e) nothing)
  | inr (inr other) ↦ absurd (parse_from-other arg [] seen other h)
]
parse_from-served (arg ∷ value ∷ rest) seen h = elim (Arm-cases (arm arg)) [
  | inl e ↦
      let flag = bind-arm arg e in
      let h' = subst (λ x. IsServe (parse_from seen (x ∷ value ∷ rest))) flag h in
      let (addresses, gives) =
        parse_from-served rest (some value) (parse_from-bind_served value rest seen h') in
      (
        value ∷ addresses,
        subst (λ x. Gives (x ∷ value ∷ rest) (value ∷ addresses)) (sym flag) (bound value gives),
      )
  | inr (inl e) ↦
      let (addresses, gives) =
        parse_from-served (value ∷ rest) (some arg)
          (parse_from-address_served arg (value ∷ rest) seen e h) in
      (arg ∷ addresses, plain arg (IsAddress-arm arg e) gives)
  | inr (inr other) ↦ absurd (parse_from-other arg (value ∷ rest) seen other h)
]

abbrev pub to_list : Option Text → List Text
to_list none = []
to_list (some address) = address ∷ []

parse_args-gather :
    (args addresses : List Text)
    → Gives args addresses
    → parse_args args ≡ gather none addresses (λ address. ok (serve address))
unfolding parse_args parse_from
parse_args-gather args addresses gives =
    subst (λ xs. parse_from none xs ≡ gather none addresses (λ address. ok (serve address)))
      (append-nil args) (parse_from-Gives args addresses [] gives none)

gathered :
    (addresses : List Text) (address : Option Text)
    → gather none addresses (λ a. ok (serve a)) ≡ ok (serve address)
    → addresses ≡ to_list address
gathered [] none e = refl
gathered [] (some a) e = cc
gathered (a ∷ []) none e = cc
gathered (a ∷ []) (some b) e = cc
gathered (a ∷ b ∷ more) address e = cc

gather-to_list :
    (address : Option Text) → gather none (to_list address) (λ a. ok (serve a)) ≡ ok (serve address)
gather-to_list none = refl
gather-to_list (some a) = refl

-- The command lines that serve an address, or the default one, are exactly those that give that
-- address and no other, as `--bind` and the address or as the address alone, and nothing else.
pub parse_args-serve_iff :
    (args : List Text) (address : Option Text)
    → (parse_args args ≡ ok (serve address)) ↔ Gives args (to_list address)
unfolding parse_args
parse_args-serve_iff args address = (
  λ h.
      let (addresses, gives) = parse_from-served args none (subst IsServe (sym h) tt) in
      subst (Gives args)
        (gathered addresses address (sym (parse_args-gather args addresses gives) ∙ h)) gives,
  λ gives. parse_args-gather args (to_list address) gives ∙ gather-to_list address,
)
