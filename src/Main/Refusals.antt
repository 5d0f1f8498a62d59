-- ===== src/Main/Refusals.antt =====
-- The arguments that end the reading of a command line of server/src/main.rs, and those it refuses.
use omp_relayd.Base.{
  ◌≡◌, ◌≢◌, inl, inr, refl, ◌∙◌, false, Bool-cases, equals, equals→eq, text_eq, ℕ_discrete,
  text-discrete, List, [], ◌∷◌, ◌++◌, Option, none, some, ok, err, length, ◌≤◌, arith,
}
use omp_relayd.Base.Text.{codes}
use omp_relayd.Protocol.Limits.{Text}
use omp_relayd.Main.Args.{
  help, version, bind_missing, given_twice, unknown_arm, arm, parse_from, parse_args,
}
use omp_relayd.Main.Commands.{IsOption, Gives, parse_from-Gives, parse_from-bind_missing}

-- An option of another name than the five.
abbrev pub IsUnknown : Text → Type 0
IsUnknown arg =
    IsOption arg
    × (arg ≢ codes "-h")
    × (arg ≢ codes "--help")
    × (arg ≢ codes "-V")
    × (arg ≢ codes "--version")
    × (arg ≢ codes "--bind")

equals-other : (arg flag : Text) → arg ≢ flag → equals arg flag ≡ false
equals-other arg flag n = elim (Bool-cases (equals arg flag)) [
  | inl e ↦ absurd (n (equals→eq arg flag e))
  | inr e ↦ e
]

arm-unknown : (arg : Text) → IsUnknown arg → arm arg ≡ unknown_arm
unfolding arm
arm-unknown arg (option, a, b, c, d, e) =
    rw
      (
        equals-other arg _ a,
        equals-other arg _ b,
        equals-other arg _ c,
        equals-other arg _ d,
        equals-other arg _ e,
        option,
        arm,
      )
      refl

parse_from-unknown :
    (seen : Option Text) (arg : Text) (rest : List Text)
    → arm arg ≡ unknown_arm
    → parse_from seen (arg ∷ rest) ≡ err (codes "unknown option " ++ arg)
unfolding parse_from
parse_from-unknown seen arg [] e = rw (e, parse_from) refl
parse_from-unknown seen arg (value ∷ rest) e = rw (e, parse_from) refl

parse_from-help :
    (seen : Option Text) (rest : List Text) → parse_from seen (codes "--help" ∷ rest) ≡ ok help
unfolding parse_from arm text-discrete ℕ_discrete
parse_from-help seen [] = refl
parse_from-help seen (value ∷ rest) = refl

parse_from-version :
    (seen : Option Text) (rest : List Text)
    → parse_from seen (codes "--version" ∷ rest) ≡ ok version
unfolding parse_from arm text-discrete ℕ_discrete
parse_from-version seen [] = refl
parse_from-version seen (value ∷ rest) = refl

parse_args-after :
    (args addresses rest : List Text)
    → Gives args addresses
    → length addresses ≤ 1
    → (seen : Option Text) × (parse_args (args ++ rest) ≡ parse_from seen rest)
unfolding parse_args
parse_args-after args [] rest gives few = (none, parse_from-Gives args [] rest gives none)
parse_args-after args (a ∷ []) rest gives few =
    (some a, parse_from-Gives args (a ∷ []) rest gives none)
parse_args-after args (a ∷ b ∷ more) rest gives few = absurd (omega arith)

-- Behind arguments that give at most one address, the first other argument decides, whatever
-- follows it: `--help` and `--version` answer, an option of another name is refused by its name, and
-- so is `--bind` where nothing follows it.
pub parse_args-decided :
    (args addresses rest : List Text) (arg : Text)
    → Gives args addresses
    → length addresses ≤ 1
    → IsUnknown arg
    → (parse_args (args ++ codes "--help" ∷ rest) ≡ ok help)
      × (parse_args (args ++ codes "--version" ∷ rest) ≡ ok version)
      × (parse_args (args ++ arg ∷ rest) ≡ err (codes "unknown option " ++ arg))
      × (parse_args (args ++ codes "--bind" ∷ []) ≡ err bind_missing)
parse_args-decided args addresses rest arg gives few unknown =
    let after = λ (tail : List Text). parse_args-after args addresses tail gives few in
    (
      (after (codes "--help" ∷ rest)).1 ∙ parse_from-help _ rest,
      (after (codes "--version" ∷ rest)).1 ∙ parse_from-version _ rest,
      (after (arg ∷ rest)).1 ∙ parse_from-unknown _ arg rest (arm-unknown arg unknown),
      (after (codes "--bind" ∷ [])).1 ∙ parse_from-bind_missing _,
    )

-- A second address is refused, whatever follows it.
pub parse_args-given_twice :
    (args addresses rest : List Text)
    → Gives args addresses
    → 2 ≤ length addresses
    → parse_args (args ++ rest) ≡ err given_twice
unfolding parse_args
parse_args-given_twice args [] rest gives many = absurd (omega arith)
parse_args-given_twice args (a ∷ []) rest gives many = absurd (omega arith)
parse_args-given_twice args (a ∷ b ∷ more) rest gives many =
    parse_from-Gives args (a ∷ b ∷ more) rest gives none
