-- ===== src/Main/Args.antt =====
-- `parse_args` of server/src/main.rs and the address that `main` listens on.
use omp_relayd.Base.{
  ◌||◌, ◌==◌, if◌then◌else◌, is_empty, equals, text_eq, List, [], ◌∷◌, ◌++◌, Option, none, some,
  Result, ok, err,
}
use omp_relayd.Base.Text.{codes}
use omp_relayd.Protocol.Limits.{Text}
use omp_relayd.Protocol.Validate.{starts_with}

pub data Invocation : Type 0 where
  serve : Option Text → Invocation
  help version : Invocation

abbrev pub default_listen : Text
default_listen = codes "0.0.0.0:7788"

abbrev pub bind_missing : Text
bind_missing = codes "--bind requires an address"

abbrev pub given_twice : Text
given_twice = codes "the listen address was given more than once"

-- The arms of the match on an argument, in their order.
pub data Arm : Type 0 where
  help_arm version_arm bind_arm unknown_arm address_arm : Arm

unfoldable pub arm : Text → Arm
arm arg =
    if equals arg (codes "-h") || equals arg (codes "--help")
    then help_arm
    else if equals arg (codes "-V") || equals arg (codes "--version")
    then version_arm
    else if equals arg (codes "--bind")
    then bind_arm
    else if starts_with (λ c. c == b'-') arg
    then unknown_arm
    else address_arm

-- The loop of `parse_args`, with the address so far.
unfoldable pub parse_from : Option Text → List Text → Result Invocation Text
unfolding arm
parse_from address [] = ok (serve address)
parse_from address (arg ∷ []) = elim (arm arg) [
  | help_arm ↦ ok help
  | version_arm ↦ ok version
  | bind_arm ↦ err bind_missing
  | unknown_arm ↦ err (codes "unknown option " ++ arg)
  | address_arm ↦ elim address [ none ↦ parse_from (some arg) [] | some _ ↦ err given_twice ]
]
parse_from address (arg ∷ value ∷ rest) = elim (arm arg) [
  | help_arm ↦ ok help
  | version_arm ↦ ok version
  | bind_arm ↦ elim address [ none ↦ parse_from (some value) rest | some _ ↦ err given_twice ]
  | unknown_arm ↦ err (codes "unknown option " ++ arg)
  | address_arm ↦ elim address [
    | none ↦ parse_from (some arg) (value ∷ rest)
    | some _ ↦ err given_twice
  ]
]

unfoldable pub parse_args : List Text → Result Invocation Text
unfolding parse_from
parse_args args = parse_from none args

-- The address that `main` listens on: the argument, then the environment, then the default.
unfoldable pub listen_address : Option Text → Option Text → Text
listen_address (some address) env = address
listen_address none none = default_listen
listen_address none (some value) = if is_empty value then default_listen else value
