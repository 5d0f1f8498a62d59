-- ===== src/Protocol/Limits.antt =====
-- The bounds of server/src/protocol.rs, the room identity, and the numbers of Rust.
use omp_relayd.Base.{ℕ, ◌+◌, ◌-◌, ◌*◌, ◌%◌, ◌<◌, List, Eq, text-discrete}

-- A `String` or `&str` is the list of its code points.
abbrev pub Text : Type 0
Text = List ℕ

abbrev pub protocol_version : ℕ
protocol_version = 1

abbrev pub max_frame_bytes : ℕ
max_frame_bytes = 65536

abbrev pub max_identifier_bytes : ℕ
max_identifier_bytes = 64

abbrev pub max_correlation_bytes : ℕ
max_correlation_bytes = 128

abbrev pub digest_chars : ℕ
digest_chars = 43

abbrev pub message_envelope_headroom : ℕ
message_envelope_headroom = 512

abbrev pub max_body_bytes : ℕ
max_body_bytes = max_frame_bytes - message_envelope_headroom

pub record RoomId : Type 0 where
  pub project : Text
  pub task : Text

unfoldable pub RoomId-discrete : Discrete RoomId
RoomId-discrete = hlevel text-discrete

instance abbrev pub room_id_eq : Eq RoomId
room_id_eq = record { dec = RoomId-discrete }

-- 2 ^ 64.
abbrev pub u64_mod : ℕ
u64_mod = 18446744073709551616

abbrev pub IsU64 : ℕ → Type 0
IsU64 n = n < u64_mod

-- `+`, `-` and `*` on `u64`, which wrap in a release build. `saturating_sub` is `-` on ℕ.
abbrev pub add64 : ℕ → ℕ → ℕ
add64 a b = (a + b) % u64_mod

abbrev pub sub64 : ℕ → ℕ → ℕ
sub64 a b = (a + u64_mod - b) % u64_mod

abbrev pub mul64 : ℕ → ℕ → ℕ
mul64 a b = (a * b) % u64_mod

-- A counter of type `u32`.
abbrev pub wrap32 : ℕ → ℕ
wrap32 n = n % 4294967296
