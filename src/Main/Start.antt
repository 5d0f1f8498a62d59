-- ===== src/Main/Start.antt =====
-- `main` and `run` of server/src/main.rs: what they do in which order, over the answers of the
-- system.
use omp_relayd.Base.{Bool, true, false, List, [], ◌∷◌, Option, none, some, ok, err}
use omp_relayd.Protocol.Limits.{Text}
use omp_relayd.Main.Args.{serve, help, version, parse_args, listen_address}

pub data ExitCode : Type 0 where
  success failure : ExitCode

-- The acts of the process: what it prints, calls, spawns and awaits.
pub data Act : Type 0 where
  print_refusal : Text → Act
  print_usage print_version init_tracing install_termination spawn_maintenance spawn_accept_loop :
      Act
  await_termination send_shutdown await_accept_loop await_maintenance : Act
  bind_listener open_store : Text → Act

-- What the system answers: whether the listener is bound and which address it reports, whether the
-- store opens, and whether the two tasks end without a panic.
pub record Answers : Type 0 where
  pub bound : Bool
  pub local_addr : Option Text
  pub opened : Bool
  pub accept_ended : Bool
  pub maintenance_ended : Bool

abbrev pub before : Act → List Act × ExitCode → List Act × ExitCode
before act (acts, code) = (act ∷ acts, code)

-- The name of the store: the address that the listener reports, or else the one asked for.
unfoldable pub instance_of : Text → Option Text → Text
instance_of listen none = listen
instance_of listen (some addr) = addr

unfoldable pub shut_down : Answers → List Act × ExitCode
shut_down answers = elim answers.accept_ended [
  | false ↦ (await_accept_loop ∷ [], failure)
  | true ↦ elim answers.maintenance_ended [
    | false ↦ (await_accept_loop ∷ await_maintenance ∷ [], failure)
    | true ↦ (await_accept_loop ∷ await_maintenance ∷ [], success)
  ]
]

unfoldable pub run : Text → Answers → List Act × ExitCode
unfolding shut_down instance_of
run listen answers = before install_termination (
    before (bind_listener listen) (elim answers.bound [
      | false ↦ ([], failure)
      | true ↦ before (open_store (instance_of listen answers.local_addr)) (elim answers.opened [
        | false ↦ ([], failure)
        | true ↦ before spawn_maintenance (
            before spawn_accept_loop
              (before await_termination (before send_shutdown (shut_down answers))))
      ])
    ]))

unfoldable pub main : List Text → Option Text → Answers → List Act × ExitCode
unfolding run
main args env answers = elim (parse_args args) [
  | err error ↦ (print_refusal error ∷ [], failure)
  | ok invocation ↦ elim invocation [
    | help ↦ (print_usage ∷ [], success)
    | version ↦ (print_version ∷ [], success)
    | serve address ↦ before init_tracing (run (listen_address address env) answers)
  ]
]
