-- ===== src/Main/Signals.antt =====
-- `Termination::recv` of server/src/main.rs.
use omp_relayd.Base.{◌≡◌, ◌≢◌, refl, Bool, true, false, List, [], ◌∷◌, ◌++◌, Option, none, some}

-- What happens while the process waits: a SIGINT, the failure to register for it, a SIGTERM.
pub data Happening : Type 0 where
  interrupt unregistered terminate : Happening

-- `sigterm.recv().await`; the happenings after it are what is left.
unfoldable pub recv_sigterm : List Happening → Option (List Happening)
recv_sigterm [] = none
recv_sigterm (terminate ∷ later) = some later
recv_sigterm (interrupt ∷ later) = recv_sigterm later
recv_sigterm (unregistered ∷ later) = recv_sigterm later

-- `wait_for_ctrl_c_forever`: without a registration it is pending forever.
unfoldable pub wait_for_ctrl_c_forever : List Happening → Option (List Happening)
wait_for_ctrl_c_forever [] = none
wait_for_ctrl_c_forever (terminate ∷ later) = wait_for_ctrl_c_forever later
wait_for_ctrl_c_forever (interrupt ∷ later) = some later
wait_for_ctrl_c_forever (unregistered ∷ later) = none

-- The select of `recv`, with the handler of SIGTERM installed.
unfoldable pub recv_either : List Happening → Option (List Happening)
unfolding recv_sigterm
recv_either [] = none
recv_either (interrupt ∷ later) = some later
recv_either (terminate ∷ later) = some later
recv_either (unregistered ∷ later) = recv_sigterm later

-- `none` while it waits.
unfoldable pub recv : Bool → List Happening → Option (List Happening)
unfolding recv_either wait_for_ctrl_c_forever
recv installed happenings = elim installed [
  | true ↦ recv_either happenings
  | false ↦ wait_for_ctrl_c_forever happenings
]

-- The wait ended at a signal, which the happenings have just before what is left.
abbrev pub IsSignalled : List Happening → List Happening → Type 0
IsSignalled happenings rest =
    (earlier : List Happening) × (signal : Happening) × (happenings ≡ earlier ++ signal ∷ rest)
    × (signal ≢ unregistered)

later-IsSignalled :
    (h : Happening) (happenings rest : List Happening)
    → IsSignalled happenings rest
    → IsSignalled (h ∷ happenings) rest
later-IsSignalled h happenings rest (earlier, signal, e, n) = (h ∷ earlier, signal, cc (e), n)

here :
    (signal : Happening) (later rest : List Happening)
    → signal ≢ unregistered
    → some later ≡ some rest
    → IsSignalled (signal ∷ later) rest
here signal later rest n e = ([], signal, cc (e), n)

recv_sigterm-IsSignalled :
    (happenings rest : List Happening)
    → recv_sigterm happenings ≡ some rest
    → IsSignalled happenings rest
unfolding recv_sigterm
recv_sigterm-IsSignalled [] rest e = cc
recv_sigterm-IsSignalled (terminate ∷ later) rest e = here terminate later rest (λ f. cc) e
recv_sigterm-IsSignalled (interrupt ∷ later) rest e =
    later-IsSignalled interrupt later rest (recv_sigterm-IsSignalled later rest e)
recv_sigterm-IsSignalled (unregistered ∷ later) rest e =
    later-IsSignalled unregistered later rest (recv_sigterm-IsSignalled later rest e)

recv_either-IsSignalled :
    (happenings rest : List Happening)
    → recv_either happenings ≡ some rest
    → IsSignalled happenings rest
unfolding recv_either
recv_either-IsSignalled [] rest e = cc
recv_either-IsSignalled (terminate ∷ later) rest e = here terminate later rest (λ f. cc) e
recv_either-IsSignalled (interrupt ∷ later) rest e = here interrupt later rest (λ f. cc) e
recv_either-IsSignalled (unregistered ∷ later) rest e =
    later-IsSignalled unregistered later rest (recv_sigterm-IsSignalled later rest e)

wait-IsSignalled :
    (happenings rest : List Happening)
    → wait_for_ctrl_c_forever happenings ≡ some rest
    → IsSignalled happenings rest
unfolding wait_for_ctrl_c_forever
wait-IsSignalled [] rest e = cc
wait-IsSignalled (terminate ∷ later) rest e =
    later-IsSignalled terminate later rest (wait-IsSignalled later rest e)
wait-IsSignalled (interrupt ∷ later) rest e = here interrupt later rest (λ f. cc) e
wait-IsSignalled (unregistered ∷ later) rest e = cc

-- Whether SIGTERM has a handler or not, the wait ends only at a SIGINT or SIGTERM that is
-- delivered; a failure to register for SIGINT does not end it.
pub recv-IsSignalled :
    (installed : Bool) (happenings rest : List Happening)
    → recv installed happenings ≡ some rest
    → IsSignalled happenings rest
unfolding recv
recv-IsSignalled true happenings rest e = recv_either-IsSignalled happenings rest e
recv-IsSignalled false happenings rest e = wait-IsSignalled happenings rest e

abbrev Returns : Option (List Happening) → Type 0
Returns answer = (rest : List Happening) × (answer ≡ some rest)

recv_sigterm-Returns :
    (earlier later : List Happening) → Returns (recv_sigterm (earlier ++ terminate ∷ later))
unfolding recv_sigterm
recv_sigterm-Returns [] later = (later, refl)
recv_sigterm-Returns (terminate ∷ earlier) later = (earlier ++ terminate ∷ later, refl)
recv_sigterm-Returns (interrupt ∷ earlier) later = recv_sigterm-Returns earlier later
recv_sigterm-Returns (unregistered ∷ earlier) later = recv_sigterm-Returns earlier later

-- With a handler of SIGTERM, a SIGTERM ends the wait whatever happened before it, a failure to
-- register for SIGINT included.
pub recv-terminates :
    (earlier later : List Happening)
    → (rest : List Happening) × (recv true (earlier ++ terminate ∷ later) ≡ some rest)
unfolding recv recv_either
recv-terminates [] later = (later, refl)
recv-terminates (terminate ∷ earlier) later = (earlier ++ terminate ∷ later, refl)
recv-terminates (interrupt ∷ earlier) later = (earlier ++ terminate ∷ later, refl)
recv-terminates (unregistered ∷ earlier) later = recv_sigterm-Returns earlier later
