-- ===== src/Tests/Commands.antt =====
-- The command line and the signals of server/src/main.rs on concrete inputs.
use omp_relayd.Base.{
  ◌≡◌, ◌≢◌, ◌↔◌, refl, subst, equals, equals_refl, text_eq, text-discrete, ℕ_discrete, true, false,
  List, [], ◌∷◌, none, some, ok, err, arith,
}
use omp_relayd.Base.Text.{codes}
use omp_relayd.Protocol.Limits.{Text}
use omp_relayd.Protocol.Validate.{starts_with}
use omp_relayd.Main.Args.{
  serve, help, version, bind_missing, given_twice, parse_args, listen_address,
}
use omp_relayd.Main.Commands.{Gives, nothing, bound, plain, IsAddress, parse_args-serve_iff}
use omp_relayd.Main.Refusals.{IsUnknown, parse_args-decided, parse_args-given_twice}
use omp_relayd.Main.Start.{
  Answers, success, Act, init_tracing, install_termination, bind_listener, main,
}
use omp_relayd.Main.Service.{IsWell, main-serve}
use omp_relayd.Main.Signals.{
  Happening, interrupt, unregistered, terminate, recv, IsSignalled, recv-IsSignalled,
  recv-terminates,
}

abbrev loopback : Text
loopback = codes "127.0.0.1:1"

parse_args-serve_iff_example :
    (parse_args (codes "--bind" ∷ loopback ∷ []) ≡ ok (serve (some loopback)))
    ↔ Gives (codes "--bind" ∷ loopback ∷ []) (loopback ∷ [])
parse_args-serve_iff_example = parse_args-serve_iff (codes "--bind" ∷ loopback ∷ []) (some loopback)

apart : (s t : Text) → equals s t ≡ false → s ≢ t
apart s t h e = let same = subst (λ x. equals s x ≡ true) e (equals_refl s) in cc

port-IsUnknown : IsUnknown (codes "--port")
unfolding starts_with text-discrete ℕ_discrete
port-IsUnknown =
    (refl, apart _ _ refl, apart _ _ refl, apart _ _ refl, apart _ _ refl, apart _ _ refl)

parse_args-decided_example :
    (parse_args (codes "--bind" ∷ loopback ∷ codes "--help" ∷ []) ≡ ok help)
    × (parse_args (codes "--bind" ∷ loopback ∷ codes "--version" ∷ []) ≡ ok version)
    × (parse_args (codes "--bind" ∷ loopback ∷ codes "--port" ∷ [])
        ≡ err (codes "unknown option --port"))
    × (parse_args (codes "--bind" ∷ loopback ∷ codes "--bind" ∷ []) ≡ err bind_missing)
parse_args-decided_example =
    parse_args-decided (codes "--bind" ∷ loopback ∷ []) (loopback ∷ []) [] (codes "--port")
      (bound loopback nothing) (ground arith) port-IsUnknown

dark : IsAddress loopback
unfolding starts_with
dark = refl

parse_args-given_twice_test :
    parse_args (loopback ∷ codes "--bind" ∷ loopback ∷ codes "--help" ∷ []) ≡ err given_twice
parse_args-given_twice_test =
    parse_args-given_twice (loopback ∷ codes "--bind" ∷ loopback ∷ []) (loopback ∷ loopback ∷ [])
      (codes "--help" ∷ []) (plain loopback dark (bound loopback nothing)) (ground arith)

abbrev answers : Answers
answers = record {
  bound = true;
  local_addr = some loopback;
  opened = true;
  accept_ended = true;
  maintenance_ended = false;
}

main-serve_test :
    ((rest : List Act) × ((main [] (some loopback) answers).0
        ≡ init_tracing
          ∷ install_termination
          ∷ bind_listener (listen_address none (some loopback))
          ∷ rest))
    × (((main [] (some loopback) answers).1 ≡ success) ↔ IsWell answers)
main-serve_test = main-serve [] none (some loopback) answers nothing

signalled : recv true (unregistered ∷ terminate ∷ interrupt ∷ []) ≡ some (interrupt ∷ [])
unfolding recv
signalled = refl

recv-IsSignalled_example : IsSignalled (unregistered ∷ terminate ∷ interrupt ∷ []) (interrupt ∷ [])
recv-IsSignalled_example =
    recv-IsSignalled true (unregistered ∷ terminate ∷ interrupt ∷ []) (interrupt ∷ []) signalled

recv-terminates_test :
    (rest : List Happening) × (recv true (unregistered ∷ interrupt ∷ terminate ∷ []) ≡ some rest)
recv-terminates_test = recv-terminates (unregistered ∷ interrupt ∷ []) []
