-- ===== src/Blob/Writing.antt =====
-- What `Upload::write` of server/src/blob.rs does to the store and to its upload.
use omp_relayd.Base.{
  ℕ, ◌+◌, ◌<◌, ◌≡◌, refl, inl, inr, Bool-cases, List, text_eq, true, false, Bool, Result, ltb,
  length,
}
use omp_relayd.Protocol.Limits.{room_id_eq, add64, u64_mod}
use omp_relayd.Blob.Types.{Store, Upload, UploadError}
use omp_relayd.Blob.Invariant.{IsIndex}
use omp_relayd.Blob.Paths.{temp_path}
use omp_relayd.Blob.Transfer.{Io, Progress, write, write_file, write_chunk}
use omp_relayd.Blob.Moves.{temp_path-Moves, temp_path-index, Moves, Moves-refl}

-- A write moves no flight, and the upload it returns is the same but for its file and its bytes.
pub record Writes (s : Store) (u : Upload) (p : Progress (Unit {0})) : Type 0 where
  pub moved : Moves s p.store
  pub untouched : p.store.index ≡ s.index
  pub in_room : p.upload.room ≡ u.room
  pub addressed : p.upload.digest ≡ u.digest
  pub numbered : p.upload.serial ≡ u.serial
  pub promised : p.upload.declared ≡ u.declared
  pub unsettled : p.upload.settled ≡ u.settled

pub unwritten :
    (s t : Store) (u u' : Upload) {r : Result (Unit {0}) UploadError}
    → Moves s t
    → t.index ≡ s.index
    → u'.room ≡ u.room
    → u'.digest ≡ u.digest
    → u'.serial ≡ u.serial
    → u'.declared ≡ u.declared
    → u'.settled ≡ u.settled
    → Writes s u (record { result = r; upload = u'; store = t })
unwritten s t u u' m e a b c d f = record {
  moved = m;
  untouched = e;
  in_room = a;
  addressed = b;
  numbered = c;
  promised = d;
  unsettled = f;
}

write_chunk-Writes :
    (s t : Store) (u u' : Upload) (chunk : List ℕ) (answer : Io)
    → ((r : Result (Unit {0}) UploadError) (b : List ℕ) (n : ℕ)
        → Writes s u
            (record { result = r; upload = record u' { hasher = b; written = n }; store = t }))
    → Writes s u (write_chunk t u' chunk answer)
unfolding write_chunk
write_chunk-Writes s t u u' chunk answer w = elim (Bool-cases answer.done) [
  | inl written ↦ rw (written, write_chunk) (w _ _ _)
  | inr failed ↦ rw (failed, write_chunk) (w _ u'.hasher u'.written)
]

module _ (sha256 : List ℕ → List ℕ) where
  write_file-Writes :
      (b : Bool) (s : Store) (u : Upload) (chunk : List ℕ) (answer : Io)
      → IsIndex s.index
      → s.next_serial + 1 < u64_mod
      → Writes s u (write_file sha256 b s u chunk answer)
  write_file-Writes true s u chunk answer v n =
      unfold write_file in
      write_chunk-Writes s s u u chunk answer
        (λ r b n. unwritten s s u _ (Moves-refl s v) refl refl refl refl refl refl)
  write_file-Writes false s u chunk answer v n =
      let named = temp_path sha256 s u.room u.digest in
      let numbered = temp_path-Moves sha256 s u.room u.digest v n in
      let same = temp_path-index sha256 s u.room u.digest in
      elim (Bool-cases answer.dir_made) [
        | inr no_dir ↦
            unfold write_file in
            rw (no_dir, write_file)
              (unwritten s s u u (Moves-refl s v) refl refl refl refl refl refl)
        | inl dir ↦ elim (Bool-cases answer.file_made) [
          | inr no_file ↦
              unfold write_file in
              rw (dir, no_file, write_file)
                (unwritten s named.1 u u numbered same refl refl refl refl refl)
          | inl file ↦
              unfold write_file in
              rw (dir, file, write_file)
                (write_chunk-Writes s named.1 u _ chunk answer
                  (λ r b n. unwritten s named.1 u _ numbered same refl refl refl refl refl))
        ]
      ]

  pub write-Writes :
      (s : Store) (u : Upload) (chunk : List ℕ) (answer : Io)
      → IsIndex s.index
      → s.next_serial + 1 < u64_mod
      → Writes s u (write sha256 s u chunk answer)
  write-Writes s u chunk answer v n =
      elim (Bool-cases (ltb u.declared (add64 u.written (length chunk)))) [
        | inl over ↦
            unfold write in
            rw (over, write) (unwritten s s u u (Moves-refl s v) refl refl refl refl refl refl)
        | inr fits ↦
            unfold write in rw (fits, write) (write_file-Writes u.file s u chunk answer v n)
      ]
