-- ===== src/Blob/Moves.antt =====
-- What one call does to the store: the index stays sound, no flight appears, and at most one
-- serial is taken.
use omp_relayd.Base.{
  ℕ, ◌+◌, ◌≤◌, ◌<◌, ◌≡◌, refl, ◌∙◌, inl, inr, none, Option-cases, Bool-cases, arith, List, [],
  text_eq, true, Result-cases, ◌==◌, equals,
}
use omp_relayd.Protocol.Limits.{Text, RoomId, room_id_eq, u64_mod}
use omp_relayd.Blob.Types.{Index, Store, Upload, FilePath, max_payload_bytes}
use omp_relayd.Blob.Digest.{base64url}
use omp_relayd.Blob.Uploads.{abandon_upload, commit_upload}
use omp_relayd.Blob.Invariant.{IsIndex}
use omp_relayd.Blob.Settlement.{
  abandon_upload-IsIndex, commit_upload-IsIndex, Backs, own_flight-some,
}
use omp_relayd.Blob.Flights.{
  flight_in, flight_at-room, Keeps, Keeps-trans, abandon_upload-Keeps, commit_upload-Keeps,
}
use omp_relayd.Blob.Starts.{IsBacked}
use omp_relayd.Blob.Paths.{temp_path}
use omp_relayd.Blob.Transfer.{Io, publish, publish_file, commit, finish, drop_upload}

pub record Moves (s s' : Store) : Type 0 where
  pub sound : IsIndex s'.index
  pub keeps : Keeps s.index s'.index
  pub rises : s.next_serial ≤ s'.next_serial
  pub by_one : s'.next_serial ≤ s.next_serial + 1

-- A call that takes no serial and touches the index only.
pub still :
    (s s' : Store)
    → IsIndex s'.index
    → Keeps s.index s'.index
    → s'.next_serial ≡ s.next_serial
    → Moves s s'
still s s' v k e = record { sound = v; keeps = k; rises = omega arith; by_one = omega arith }

pub Moves-refl : (s : Store) → IsIndex s.index → Moves s s
Moves-refl s v = still s s v (λ r d f h. h) refl

pub then_still :
    (s t u : Store)
    → Moves s t
    → (IsIndex t.index → IsIndex u.index)
    → Keeps t.index u.index
    → u.next_serial ≡ t.next_serial
    → Moves s u
then_still s t u m v k e = record {
  sound = v m.sound;
  keeps = Keeps-trans s.index t.index u.index m.keeps k;
  rises = omega (arith, m.rises);
  by_one = omega (arith, m.by_one);
}

next_serial-abandon_upload :
    (s : Store) (room : RoomId) (digest : Text) (serial : ℕ)
    → (abandon_upload s room digest serial).next_serial ≡ s.next_serial
unfolding abandon_upload
next_serial-abandon_upload s room digest serial = ground arith

next_serial-commit_upload :
    (s : Store) (room : RoomId) (digest : Text) (serial bytes now : ℕ)
    → (commit_upload s room digest serial bytes now).1.next_serial ≡ s.next_serial
unfolding commit_upload
next_serial-commit_upload s room digest serial bytes now = ground arith

pub drop_upload-Moves : (s t : Store) (u : Upload) → Moves s t → Moves s (drop_upload t u)
unfolding drop_upload
drop_upload-Moves s t u m =
    let gone =
      then_still s t (abandon_upload t u.room u.digest u.serial) m
        (abandon_upload-IsIndex t u.room u.digest u.serial)
        (abandon_upload-Keeps t u.room u.digest u.serial)
        (next_serial-abandon_upload t u.room u.digest u.serial) in
    elim (Bool-cases u.settled) [
      | inl settled ↦ rw (settled, drop_upload) m
      | inr open_yet ↦ elim (Option-cases u.temp) [
        | inl unnamed ↦ rw (open_yet, unnamed, drop_upload) gone
        | inr (path, named) ↦
            rw (open_yet, named, drop_upload)
              (record {
                sound = gone.sound;
                keeps = gone.keeps;
                rises = gone.rises;
                by_one = gone.by_one;
              })
      ]
    ]

-- A backed upload is one that `commit_upload` can settle.
backed_commit :
    (x : Index) (u : Upload) → IsBacked x u → Backs x u.room u.digest u.serial u.declared
backed_commit x u b state flight e mine =
    let (f, same) = own_flight-some u.digest u.serial state mine in
    b flight (flight_at-room x u.room u.digest e ∙ (unfold flight_in in f)) same

commit_upload-Moves :
    (s t : Store) (u : Upload) (now : ℕ)
    → Moves s t
    → IsBacked t.index u
    → u.declared ≤ max_payload_bytes
    → u.written ≡ u.declared
    → Moves s (commit_upload t u.room u.digest u.serial u.written now).1
commit_upload-Moves s t u now m b h e = rw e (
    then_still s t (commit_upload t u.room u.digest u.serial u.declared now).1 m
      (λ v.
        commit_upload-IsIndex t u.room u.digest u.serial u.declared now v h
          (backed_commit t.index u b))
      (commit_upload-Keeps t u.room u.digest u.serial u.declared now)
      (next_serial-commit_upload t u.room u.digest u.serial u.declared now))

module _ (sha256 : List ℕ → List ℕ) where
  publish-Moves :
      (s t : Store) (u : Upload) (path : FilePath) (answer : Io) (now : ℕ)
      → Moves s t
      → IsBacked t.index u
      → u.declared ≤ max_payload_bytes
      → u.written ≡ u.declared
      → Moves s (publish sha256 t u path answer now).store
  unfolding publish
  publish-Moves s t u path answer now m b h e =
      let settled = commit_upload-Moves s t u now m b h e in
      let call = commit_upload t u.room u.digest u.serial u.written now in
      elim (Bool-cases answer.done) [
        | inl renamed ↦ elim (Result-cases call.0) [
          | inl (a, good) ↦ rw (renamed, good, publish) settled
          | inr (x, bad) ↦ rw (renamed, bad, publish) settled
        ]
        | inr failed ↦ rw (failed, publish) m
      ]

  pub temp_path-Moves :
      (s : Store) (room : RoomId) (digest : Text)
      → IsIndex s.index
      → s.next_serial + 1 < u64_mod
      → Moves s (temp_path sha256 s room digest).1
  unfolding temp_path
  temp_path-Moves s room digest v h = record {
    sound = v;
    keeps = λ r d f k. k;
    rises = omega arith;
    by_one = omega arith;
  }

  pub temp_path-index :
      (s : Store) (room : RoomId) (digest : Text)
      → (temp_path sha256 s room digest).1.index ≡ s.index
  unfolding temp_path
  temp_path-index s room digest = refl

  publish_file-Moves :
      (s : Store) (u : Upload) (answer : Io) (now : ℕ)
      → IsIndex s.index
      → s.next_serial + 1 < u64_mod
      → IsBacked s.index u
      → u.declared ≤ max_payload_bytes
      → u.written ≡ u.declared
      → Moves s (publish_file sha256 s u answer now).store
  publish_file-Moves s u answer now v n b h e =
      let named = temp_path sha256 s u.room u.digest in
      let numbered = temp_path-Moves s u.room u.digest v n in
      elim (Option-cases u.temp) [
        | inr (held, has) ↦
            unfold publish_file in
            rw (has, publish_file) (publish-Moves s s u held answer now (Moves-refl s v) b h e)
        | inl missing ↦ elim (Bool-cases answer.dir_made) [
          | inr no_dir ↦ unfold publish_file in rw (missing, no_dir, publish_file) (Moves-refl s v)
          | inl dir ↦ elim (Bool-cases answer.file_made) [
            | inr no_file ↦ unfold publish_file in rw (missing, dir, no_file, publish_file) numbered
            | inl file ↦
                unfold publish_file in
                rw (missing, dir, file, publish_file)
                  (publish-Moves s named.1 u named.0 answer now numbered b h e)
          ]
        ]
      ]

  commit-Moves :
      (s : Store) (u : Upload) (answer : Io) (now : ℕ)
      → IsIndex s.index
      → s.next_serial + 1 < u64_mod
      → IsBacked s.index u
      → u.declared ≤ max_payload_bytes
      → Moves s (commit sha256 s u answer now).store
  commit-Moves s u answer now v n b h = elim (Bool-cases (u.written == u.declared)) [
    | inr short ↦ unfold commit in rw (short, commit) (Moves-refl s v)
    | inl whole ↦ elim (Bool-cases (equals (base64url (sha256 u.hasher)) u.digest)) [
      | inl same ↦
          unfold commit in
          rw (whole, same, commit)
            (publish_file-Moves s (record u { hasher = [] }) answer now v n b h (ground arith))
      | inr other ↦ unfold commit in rw (whole, other, commit) (Moves-refl s v)
    ]
  ]

  pub finish-Moves :
      (s : Store) (u : Upload) (answer : Io) (now : ℕ)
      → IsIndex s.index
      → s.next_serial + 1 < u64_mod
      → IsBacked s.index u
      → u.declared ≤ max_payload_bytes
      → Moves s (finish sha256 s u answer now).store
  finish-Moves s u answer now v n b h =
      let p = commit sha256 s u answer now in
      let m = commit-Moves s u answer now v n b h in
      elim (Result-cases p.result) [
        | inl (bytes, good) ↦
            unfold finish in
            rw (good, finish) (drop_upload-Moves s p.store (record p.upload { settled = true }) m)
        | inr (x, bad) ↦
            unfold finish in
            rw (bad, finish) (drop_upload-Moves s p.store (record p.upload { temp = none }) m)
      ]
