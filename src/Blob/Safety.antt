-- ===== src/Blob/Safety.antt =====
-- The machine of server/src/blob.rs stays sound: whatever calls are made in whatever order, the
-- accounting is exact and the ceilings hold.
use omp_relayd.Base.{
  ℕ, ◌+◌, ◌≤◌, ◌<◌, ◌≡◌, refl, sym, subst, inl, inr, Option-cases, List, [], ◌∷◌, arith, length, ok,
  err, Result, text_eq,
}
use omp_relayd.Base.Map.{Map, get, insert}
use omp_relayd.Base.Map.Sums.{
  AllValues, AllValues-get, AllValues-insert, AllValues-remove, AllValues-weaken,
}
use omp_relayd.Protocol.Limits.{Text, RoomId, room_id_eq, u64_mod}
use omp_relayd.Blob.Types.{
  Index, Store, Upload, Accepted, UploadRefusal, already_held, upload, FilePath, max_payload_bytes,
}
use omp_relayd.Blob.Expiry.{forget_room, sweep}
use omp_relayd.Blob.Index.{reserve, admit_reservation}
use omp_relayd.Blob.Uploads.{begin_upload}
use omp_relayd.Blob.Invariant.{IsIndex, default_index-IsIndex}
use omp_relayd.Blob.Accounting.{reserve-IsIndex, begin_upload-IsIndex}
use omp_relayd.Blob.Settlement.{forget_room-IsIndex}
use omp_relayd.Blob.Sweeping.{sweep-IsIndex}
use omp_relayd.Blob.Flights.{reserve-Keeps, forget_room-Keeps}
use omp_relayd.Blob.Starts.{IsBacked, Begun, begin_upload-Begun, sweep_index-Keeps}
use omp_relayd.Blob.System.{
  System, Event, serial_eq, reserves, begins, writes, finishes, drops, forgets, sweeps, removes,
  open_store, begun, perform, run, maintain,
}
use omp_relayd.Blob.Transfer.{Io, write}
use omp_relayd.Blob.Moves.{Moves, still, Moves-refl, drop_upload-Moves, finish-Moves}
use omp_relayd.Blob.Writing.{write-Writes}

pub record IsHandle (s : Store) (u : Upload) : Type 0 where
  pub numbered : u.serial < s.next_serial
  pub small : u.declared ≤ max_payload_bytes
  pub backed : IsBacked s.index u

pub record IsSystem (y : System) : Type 0 where
  pub index : IsIndex y.store.index
  pub handles : AllValues (IsHandle y.store) y.uploads

IsHandle-Moves : (s t : Store) → Moves s t → (u : Upload) → IsHandle s u → IsHandle t u
IsHandle-Moves s t m u h = record {
  numbered = omega (arith, m.rises, h.numbered);
  small = h.small;
  backed = λ f e same. h.backed f (m.keeps u.room u.digest f e) same;
}

-- The system after a call that moves the store as above.
moved :
    (y : System) (t : Store) (uploads : Map ℕ Upload)
    → AllValues (IsHandle y.store) uploads
    → Moves y.store t
    → IsSystem (record { store = t; uploads = uploads })
moved y t uploads h m = record {
  index = m.sound;
  handles = AllValues-weaken (IsHandle y.store) (IsHandle t) (IsHandle-Moves y.store t m) uploads h;
}

next_serial-reserve :
    (s : Store) (room : RoomId) (digest : Text) (bytes now : ℕ)
    → (reserve s room digest bytes now).1.next_serial ≡ s.next_serial
unfolding reserve admit_reservation
next_serial-reserve s room digest bytes now = ground arith

next_serial-forget_room :
    (s : Store) (room : RoomId) → (forget_room s room).next_serial ≡ s.next_serial
unfolding forget_room
next_serial-forget_room s room = ground arith

sweep-Moves : (s : Store) (now : ℕ) → IsIndex s.index → Moves s (sweep s now).1
sweep-Moves s now v =
    still s (sweep s now).1 (sweep-IsIndex s now v)
      (unfold sweep in sweep_index-Keeps s.index now v) (unfold sweep in refl)

maintain-Moves :
    (sha256 : List ℕ → List ℕ) (s : Store) → IsIndex s.index → Moves s (maintain sha256 s).1
maintain-Moves sha256 s v =
    still s (maintain sha256 s).1 (rw kept v) (rw kept (λ r d f h. h)) numbered
  where
    kept : (maintain sha256 s).1.index ≡ s.index
    kept = unfold maintain in ground arith

    numbered : (maintain sha256 s).1.next_serial ≡ s.next_serial
    numbered = unfold maintain in ground arith

-- The store and the handles after `begin_upload`.
begun-IsSystem :
    (y : System) (room : RoomId) (digest : Text) (declared : ℕ) (r : Result Accepted UploadRefusal)
    (s : Store)
    → IsSystem y
    → y.store.next_serial + 1 < u64_mod
    → IsIndex s.index
    → Begun y.store room digest declared (r, s)
    → IsSystem (begun y (r, s)) × ((begun y (r, s)).store.next_serial ≤ y.store.next_serial + 1)
unfolding begun
begun-IsSystem y room digest declared (ok (upload u)) s v n i b = (
  record {
    index = i;
    handles =
        AllValues-insert (IsHandle s) u.serial u y.uploads
          (record {
            numbered = omega (arith, b.numbered, b.advanced);
            small = omega (arith, b.promised, b.small);
            backed = b.backed;
          })
          (AllValues-weaken (IsHandle y.store) (IsHandle s) older y.uploads v.handles);
  },
  omega (arith, b.advanced),
)
  where
    older : (w : Upload) → IsHandle y.store w → IsHandle s w
    older w h = record {
      numbered = omega (arith, b.advanced, h.numbered);
      small = h.small;
      backed = λ f e same. elim (b.others w.room w.digest f e) [
        | inl before ↦ h.backed f before same
        | inr fresh ↦ absurd (omega (arith, h.numbered))
      ];
    }
begun-IsSystem y room digest declared (ok already_held) s v n i b =
    subst (λ s. IsSystem (record y { store = s }) × (s.next_serial ≤ y.store.next_serial + 1))
      (sym b) (v, omega arith)
begun-IsSystem y room digest declared (err e) s v n i (k, inl same) =
    (moved y s y.uploads v.handles (still y.store s i k same), omega (arith, same))
begun-IsSystem y room digest declared (err e) s v n i (k, inr next) = (
  moved y s y.uploads v.handles
      (record { sound = i; keeps = k; rises = omega (arith, next); by_one = omega (arith, next) }),
  omega (arith, next),
)

-- After an event the system is sound again, and at most one serial was taken.
abbrev pub Steps : System → System → Type 0
Steps y z = IsSystem z × (z.store.next_serial ≤ y.store.next_serial + 1)

moved-Steps :
    (y : System) (t : Store) (uploads : Map ℕ Upload)
    → AllValues (IsHandle y.store) uploads
    → Moves y.store t
    → Steps y (record { store = t; uploads = uploads })
moved-Steps y t uploads h m = (moved y t uploads h m, m.by_one)

module _ (sha256 : List ℕ → List ℕ) where
  write-Steps :
      (y : System) (serial : ℕ) (u : Upload) (chunk : List ℕ) (answer : Io)
      → IsSystem y
      → y.store.next_serial + 1 < u64_mod
      → IsHandle y.store u
      → let p = write sha256 y.store u chunk answer in
        Steps y (record { store = p.store; uploads = insert serial p.upload y.uploads })
  write-Steps y serial u chunk answer v n h =
      let p = write sha256 y.store u chunk answer in
      let w = write-Writes sha256 y.store u chunk answer v.index n in
      let here = IsHandle-Moves y.store p.store w.moved u h in
      let after : IsHandle p.store p.upload = record {
        numbered = omega (arith, w.numbered, here.numbered);
        small = omega (arith, w.promised, here.small);
        backed = rw (w.in_room, w.addressed, w.numbered, w.promised) here.backed;
      } in
      (
        record {
          index = w.moved.sound;
          handles = AllValues-insert (IsHandle p.store) serial p.upload y.uploads after (
              AllValues-weaken (IsHandle y.store) (IsHandle p.store)
                (IsHandle-Moves y.store p.store w.moved) y.uploads v.handles);
        },
        w.moved.by_one,
      )

  perform-IsSystem :
      (y : System) (event : Event)
      → IsSystem y
      → y.store.next_serial + 1 < u64_mod
      → Steps y (perform sha256 y event)
  unfolding perform
  perform-IsSystem y (reserves room digest bytes now) v n = moved-Steps y _ y.uploads v.handles (
      still y.store _ (reserve-IsIndex y.store room digest bytes now v.index)
        (reserve-Keeps y.store room digest bytes now)
        (next_serial-reserve y.store room digest bytes now))
  perform-IsSystem y (begins room digest declared now) v n =
      let call = begin_upload y.store room digest declared now in
      begun-IsSystem y room digest declared call.0 call.1 v n
        (begin_upload-IsIndex y.store room digest declared now v.index)
        (begin_upload-Begun y.store room digest declared now v.index)
  perform-IsSystem y (writes serial chunk answer) v n = elim (Option-cases (get serial y.uploads)) [
    | inl missing ↦ rw (missing, perform) (v, omega arith)
    | inr (u, e) ↦
        rw (e, perform)
          (write-Steps y serial u chunk answer v n
            (AllValues-get (IsHandle y.store) serial y.uploads v.handles e))
  ]
  perform-IsSystem y (finishes serial answer now) v n = elim (Option-cases (get serial y.uploads)) [
    | inl missing ↦ rw (missing, perform) (v, omega arith)
    | inr (u, e) ↦
        let h = AllValues-get (IsHandle y.store) serial y.uploads v.handles e in
        rw (e, perform)
          (moved-Steps y _ _ (AllValues-remove (IsHandle y.store) serial y.uploads v.handles)
            (finish-Moves sha256 y.store u answer now v.index n h.backed h.small))
  ]
  perform-IsSystem y (drops serial) v n = elim (Option-cases (get serial y.uploads)) [
    | inl missing ↦ rw (missing, perform) (v, omega arith)
    | inr (u, e) ↦
        rw (e, perform)
          (moved-Steps y _ _ (AllValues-remove (IsHandle y.store) serial y.uploads v.handles)
            (drop_upload-Moves y.store y.store u (Moves-refl y.store v.index)))
  ]
  perform-IsSystem y (forgets room) v n = moved-Steps y _ y.uploads v.handles (
      still y.store _ (forget_room-IsIndex y.store room v.index) (forget_room-Keeps y.store room)
        (next_serial-forget_room y.store room))
  perform-IsSystem y (sweeps now) v n =
      moved-Steps y _ y.uploads v.handles (sweep-Moves y.store now v.index)
  perform-IsSystem y removes v n =
      moved-Steps y _ y.uploads v.handles (maintain-Moves sha256 y.store v.index)

  -- From a sound system, any sequence of calls leads to a sound system, as long as the serials do
  -- not run out: the charges of the rooms and of the store are the sums of what is charged, the
  -- ceilings hold, and an upload that is in progress and still owns its entry of the index is
  -- charged for at least what it declared.
  pub run-IsSystem :
      (y : System) (events : List Event)
      → IsSystem y
      → y.store.next_serial + length events < u64_mod
      → IsSystem (run sha256 y events)
  unfolding run
  run-IsSystem y [] v n = v
  run-IsSystem y (event ∷ events) v n =
      let (w, next) = perform-IsSystem y event v (omega arith) in
      run-IsSystem (perform sha256 y event) events w (omega arith)

pub open_store-IsSystem : (root : FilePath) → IsSystem (open_store root)
unfolding open_store
open_store-IsSystem root = record { index = default_index-IsIndex; handles = tt }

open_store-serial : (root : FilePath) → (open_store root).store.next_serial ≡ 0
unfolding open_store
open_store-serial root = refl

abbrev pub history_index : (List ℕ → List ℕ) → FilePath → List Event → Index
history_index sha256 root events = (run sha256 (open_store root) events).store.index

pub history-IsIndex :
    (sha256 : List ℕ → List ℕ) (root : FilePath) (events : List Event)
    → length events < u64_mod
    → IsIndex (history_index sha256 root events)
history-IsIndex sha256 root events h =
    (run-IsSystem sha256 (open_store root) events (open_store-IsSystem root)
      (omega (arith, open_store-serial root))).index
