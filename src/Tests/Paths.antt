-- ===== src/Tests/Paths.antt =====
-- Paths and headers of server/src/http.rs on concrete texts.
use omp_relayd.Base.{◌≡◌, ◌↔◌, refl, inl, some, none, true, [], ◌∷◌, ok, arith}
use omp_relayd.Base.Text.{codes, encode_char, encode_utf8, decimal}
use omp_relayd.Protocol.Limits.{Text, RoomId}
use omp_relayd.Protocol.Validate.{validate_digest, find}
use omp_relayd.Blob.Types.{Store, default_index}
use omp_relayd.Blob.Index.{payload_len}
use omp_relayd.Http.Headers.{content_length}
use omp_relayd.Http.Targets.{parse, hex_value}
use omp_relayd.Http.Paths.{Spells, done, plain, escaped, path, parse-path}
use omp_relayd.Http.Lengths.{content_length-decimal}
use omp_relayd.Http.Transfers.{Request, ok_status, get_method, route}
use omp_relayd.Http.Routes.{IsSpelt, route-get}

abbrev digest : Text
digest = codes "47DEQpj8HBSa-_TImW-5JCeuQeRkm5NMpJWZG3hSuFU"

-- The project `a b` and the task `é`.
abbrev room : RoomId
room = record { project = codes "a b"; task = 233 ∷ [] }

Spells-project : Spells (codes "a%20b") (encode_utf8 room.project)
unfolding encode_utf8 encode_char hex_value
Spells-project =
    plain b'a' (ground arith) (λ e. cc) (λ e. cc)
      (escaped b'2' b'0' 2 0 (ground arith) (ground arith)
        (plain b'b' (ground arith) (λ e. cc) (λ e. cc) done))

Spells-task : Spells (codes "%C3%a9") (encode_utf8 room.task)
unfolding encode_utf8 encode_char hex_value
Spells-task =
    escaped b'C' b'3' 12 3 (ground arith) (ground arith)
      (escaped b'a' b'9' 10 9 (ground arith) (ground arith) done)

room-IsSpelt : IsSpelt (codes "a%20b") (codes "%C3%a9") room
room-IsSpelt = record {
  spells_project = Spells-project;
  spells_task = Spells-task;
  scalar_project = (inl (ground arith), (inl (ground arith), (inl (ground arith), tt)));
  scalar_task = (inl (ground arith), tt);
  named_project = λ e. cc;
  named_task = λ e. cc;
}

parse-path_example :
    parse (path (codes "a%20b") (codes "%C3%a9") (codes "x"))
    ≡ some (record { room = room; digest = codes "x" })
parse-path_example =
    parse-path (codes "a%20b") (codes "%C3%a9") (codes "a b") (233 ∷ []) (codes "x") Spells-project
      Spells-task room-IsSpelt.scalar_project room-IsSpelt.scalar_task (λ e. cc) (λ e. cc)
      ((λ e. cc), tt)

content_length-decimal_test : content_length (some (decimal 1048576)) ≡ some 1048576
content_length-decimal_test = content_length-decimal 1048576 (ground arith)

abbrev empty_store : Store
empty_store = record {
  root = codes "tmp" ∷ [];
  index = default_index;
  removals = [];
  next_serial = 0;
}

abbrev fetch : Request
fetch = record {
  method = get_method;
  length_header = none;
  body = [];
  last = record { dir_made = true; file_made = true; done = true };
  end = 0;
}

valid : validate_digest digest ≡ ok tt
unfolding validate_digest find
valid = refl

route-get_example :
    (((route
          (λ bytes. bytes)
          empty_store
          (path (codes "a%20b") (codes "%C3%a9") digest)
          fetch
          true
          5).0
        ≡ (ok_status, some 3))
      ↔ (payload_len empty_store room digest 5 ≡ some 3))
    × ((route
          (λ bytes. bytes)
          empty_store
          (path (codes "a%20b") (codes "%C3%a9") digest)
          fetch
          true
          5).1
        ≡ empty_store)
route-get_example =
    route-get (λ bytes. bytes) empty_store (codes "a%20b") (codes "%C3%a9") digest room fetch 5 3
      room-IsSpelt valid refl
