-- ===== src/Blob/RoomNames.antt =====
-- The bytes that server/src/blob.rs hashes into a room's directory name tell rooms apart.
use omp_relayd.Base.{
  ℕ, zero, suc, ◌/◌, ◌%◌, ◌^◌, ◌<◌, ◌≡◌, refl, List, [], ◌∷◌, ◌++◌, All, length, arith,
}
use omp_relayd.Base.Text.{encode_utf8, encode_utf8_injective, IsChar, byte_len, length-encode_utf8}
use omp_relayd.Protocol.Limits.{Text, RoomId, IsU64}
use omp_relayd.Blob.Digest.{le_bytes, room_preimage}

le_bytes_injective :
    (k m n : ℕ) (xs ys : List ℕ)
    → m < 256 ^ k
    → n < 256 ^ k
    → le_bytes k m ++ xs ≡ le_bytes k n ++ ys
    → (m ≡ n) × (xs ≡ ys)
unfolding le_bytes
le_bytes_injective zero m n xs ys h l e = (omega arith, e)
le_bytes_injective (suc k) m n xs ys h l e =
    let low : m % 256 ≡ n % 256 = cc in
    let tail : le_bytes k (m / 256) ++ xs ≡ le_bytes k (n / 256) ++ ys = cc in
    let (high, rest) =
      le_bytes_injective k (m / 256) (n / 256) xs ys (omega arith) (omega arith) tail in
    (omega arith, rest)

append_injective :
    (us vs xs ys : List ℕ) → length us ≡ length vs → us ++ xs ≡ vs ++ ys → (us ≡ vs) × (xs ≡ ys)
append_injective [] [] xs ys h e = (refl, e)
append_injective [] (b ∷ vs) xs ys h e = absurd (omega arith)
append_injective (a ∷ us) [] xs ys h e = absurd (omega arith)
append_injective (a ∷ us) (b ∷ vs) xs ys h e =
    let tail : us ++ xs ≡ vs ++ ys = cc in
    let (same, rest) = append_injective us vs xs ys (omega arith) tail in (cc (same), rest)

abbrev pub IsRoomText : Text → Type 0
IsRoomText s = All IsChar s × IsU64 (byte_len s)

small : (s : Text) → IsRoomText s → length (encode_utf8 s) < 256 ^ 8
small s h = omega (arith, length-encode_utf8 s, h.1)

-- Two rooms whose names are hashed from the same bytes are one room.
pub room_preimage_injective :
    (a b : RoomId)
    → IsRoomText a.project
    → IsRoomText a.task
    → IsRoomText b.project
    → IsRoomText b.task
    → room_preimage a ≡ room_preimage b
    → a ≡ b
unfolding room_preimage
room_preimage_injective a b p t q u e =
    let (project_length, after) =
      le_bytes_injective 8 _ _ _ _ (small a.project p) (small b.project q) e in
    let (project_bytes, tail) =
      append_injective (encode_utf8 a.project) (encode_utf8 b.project) _ _ project_length after in
    let (task_length, task_bytes) =
      le_bytes_injective 8 _ _ _ _ (small a.task t) (small b.task u) tail in
    let project = encode_utf8_injective a.project b.project p.0 q.0 project_bytes in
    let task = encode_utf8_injective a.task b.task t.0 u.0 task_bytes in
    λ i. record { project = project i; task = task i }
