-- ===== src/Main/Service.antt =====
-- What a command line of server/src/main.rs that serves leads to.
use omp_relayd.Base.{◌≡◌, ◌↔◌, refl, ap, true, List, ◌∷◌, Option, arith}
use omp_relayd.Protocol.Limits.{Text}
use omp_relayd.Main.Args.{listen_address}
use omp_relayd.Main.Commands.{Gives, to_list, parse_args-serve_iff}
use omp_relayd.Main.Start.{
  Answers, success, Act, init_tracing, install_termination, bind_listener, run, shut_down, main,
}

-- The answers let the process run and end in order.
abbrev pub IsWell : Answers → Type 0
IsWell answers =
    (answers.bound ≡ true)
    × (answers.opened ≡ true)
    × (answers.accept_ended ≡ true)
    × (answers.maintenance_ended ≡ true)

run-success_iff :
    (listen : Text) (answers : Answers) → ((run listen answers).1 ≡ success) ↔ IsWell answers
unfolding run shut_down
run-success_iff listen answers = (λ h. ground arith, λ h. ground (arith, h))

run-acts :
    (listen : Text) (answers : Answers)
    → (rest : List Act) × ((run listen answers).0
        ≡ install_termination ∷ bind_listener listen ∷ rest)
unfolding run
run-acts listen answers = (_, refl)

-- A command line that gives one address, or none, leads to a process that installs the signal
-- handlers before it binds that address, or else the one of the environment, or else the default;
-- and it exits with success exactly if the listener is bound, the store opens and both tasks end.
pub main-serve :
    (args : List Text) (address env : Option Text) (answers : Answers)
    → Gives args (to_list address)
    → ((rest : List Act) × ((main args env answers).0
          ≡ init_tracing ∷ install_termination ∷ bind_listener (listen_address address env) ∷ rest))
      × (((main args env answers).1 ≡ success) ↔ IsWell answers)
unfolding main
main-serve args address env answers gives =
    let (rest, acts) = run-acts (listen_address address env) answers in
    rw ((parse_args-serve_iff args address).1 gives, main)
      (
        (rest, ap (λ xs. init_tracing ∷ xs) acts),
        run-success_iff (listen_address address env) answers,
      )
