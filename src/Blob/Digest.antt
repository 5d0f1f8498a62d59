-- ===== src/Blob/Digest.antt =====
-- Addresses and directory names of server/src/blob.rs. SHA-256 is a parameter.
use omp_relayd.Base.{ℕ, zero, suc, ◌+◌, ◌-◌, ◌*◌, ◌/◌, ◌%◌, ◌^◌, List, [], ◌∷◌, ◌++◌, length}
use omp_relayd.Base.Text.{codes, get_or}
use omp_relayd.Protocol.Limits.{Text, RoomId}
use omp_relayd.Base.Text.{encode_utf8}

abbrev pub alphabet : List ℕ
alphabet = codes "ABCDEFGHIJKLMNOPQRSTUVWXYZabcdefghijklmnopqrstuvwxyz0123456789-_"

-- `BASE64URL[(packed >> (18 - 6 * i)) & 0x3f]`
unfoldable pub symbol : ℕ → ℕ → ℕ
symbol packed i = get_or alphabet (packed / 2 ^ (18 - 6 * i) % 64) 0

-- `count` rounds of the inner loop, from `i` on.
unfoldable pub symbols : ℕ → ℕ → ℕ → Text
unfolding symbol
symbols packed i zero = []
symbols packed i (suc count) = symbol packed i ∷ symbols packed (i + 1) count

-- `|` of numbers with no common bit is `+`.
unfoldable pub pack : ℕ → ℕ → ℕ → ℕ
pack b0 b1 b2 = b0 * 65536 + b1 * 256 + b2

unfoldable pub base64url : List ℕ → Text
unfolding symbols pack
base64url [] = []
base64url (b0 ∷ []) = symbols (pack b0 0 0) 0 2
base64url (b0 ∷ b1 ∷ []) = symbols (pack b0 b1 0) 0 3
base64url (b0 ∷ b1 ∷ b2 ∷ rest) = symbols (pack b0 b1 b2) 0 4 ++ base64url rest

-- `to_le_bytes` of a u64: eight bytes, lowest first.
unfoldable pub le_bytes : ℕ → ℕ → List ℕ
le_bytes zero n = []
le_bytes (suc k) n = n % 256 ∷ le_bytes k (n / 256)

-- The parts that `room_dir_name` hashes, one after the other.
unfoldable pub room_preimage : RoomId → List ℕ
unfolding le_bytes
room_preimage room =
    let project = encode_utf8 room.project in
    let task = encode_utf8 room.task in
    le_bytes 8 (length project) ++ (project ++ (le_bytes 8 (length task) ++ task))

module _ (sha256 : List ℕ → List ℕ) where
  unfoldable pub digest : List ℕ → Text
  digest bytes = base64url (sha256 bytes)

  unfoldable pub room_dir_name : RoomId → Text
  room_dir_name room = digest (room_preimage room)
