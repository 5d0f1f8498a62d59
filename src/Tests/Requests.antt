-- ===== src/Tests/Requests.antt =====
-- Requests of server/src/http.rs on concrete stores.
use omp_relayd.Base.{true, ℕ, ◌≡◌, some, List, [], ◌∷◌}
use omp_relayd.Base.Text.{codes}
use omp_relayd.Blob.Types.{Store, default_index}
use omp_relayd.Blob.System.{Event, run}
use omp_relayd.Http.Transfers.{Request, put, put_method, chunk, broken}
use omp_relayd.Http.Targets.{Target}
use omp_relayd.Http.Histories.{IsPut, put-run, quiet}
use omp_relayd.Http.Headers.{content_length}

abbrev identity : List ℕ → List ℕ
identity bytes = bytes

abbrev fresh : Store
fresh = record { root = codes "tmp" ∷ []; index = default_index; removals = []; next_serial = 0 }

abbrev target : Target
target = record { room = record { project = codes "omp"; task = codes "main" }; digest = codes "d" }

-- A body that breaks off after its first chunk.
abbrev request : Request
request = record {
  method = put_method;
  length_header = some (codes "3");
  body = chunk (1 ∷ []) (record { dir_made = true; file_made = true; done = true }) ∷ broken ∷ [];
  last = record { dir_made = true; file_made = true; done = true };
  end = 9;
}

put-run_example :
    (events : List Event) × IsPut identity fresh target request 5
      (content_length request.length_header)
      events
    × (run identity (quiet identity fresh) events
        ≡ quiet identity (put identity fresh target request 5).1)
put-run_example = put-run identity fresh target request 5
