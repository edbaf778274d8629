-- ===== src/Raft/Notification.antt =====
-- Notifications that servers send each other, and what a vote out of turn carries:
-- src/handle_custom_notification.hxx and handle_custom_notification.cxx.
pub mod RoundTrip
pub mod Tests
use nu_raft.Common.{
  ℕ, ◌+◌, Bool, true, false, Option, none, some, List, [], ◌∷◌, ◌++◌, length, ◌==◌, if◌then◌else◌,
  Result, ok, ◌>>=◌,
}
use nu_raft.Buffer
use nu_raft.Buffer.{Buffer}
use nu_raft.Serializer
use nu_raft.Serializer.{Serializer, little, open_buffer, put_bytes_of}
use nu_raft.Serializer.Written.{written}

-- The type is the byte that is cast to it; a context that is there may be empty.
pub record CustomNotification : Type 0 where
  pub notification_type : ℕ
  pub ctx : Option (List ℕ)

abbrev pub out_of_log_range_warning : ℕ
out_of_log_range_warning = 1

abbrev pub leadership_takeover : ℕ
leadership_takeover = 2

abbrev pub request_resignation : ℕ
request_resignation = 3

unfoldable pub ctx_size : Option (List ℕ) → ℕ
ctx_size none = 0
ctx_size (some bytes) = length bytes

put_ctx : Option (List ℕ) → Serializer → Result Serializer
put_ctx none s = Serializer.put_u32 0 s
put_ctx (some bytes) s = Serializer.put_bytes bytes s

put_notification : CustomNotification → Serializer → Result Serializer
unfolding put_ctx
put_notification m s = do
  s1 ← Serializer.put_u8 0 s
  s2 ← Serializer.put_u8 m.notification_type s1
  put_ctx m.ctx s2

pub serialize_notification : (ℕ → ℕ) → CustomNotification → Result Buffer
unfolding put_notification ctx_size written
serialize_notification heap m = written heap (put_notification m) (1 + 1 + 4 + ctx_size m.ctx)

-- A context of no bytes is read as none.
as_ctx : List ℕ → Option (List ℕ)
as_ctx [] = none
as_ctx (b ∷ bs) = some (b ∷ bs)

-- The version is read and not looked at.
pub get_notification : Serializer → Result (CustomNotification × Serializer)
unfolding as_ctx
get_notification s0 = do
  (version, s1) ← Serializer.get_u8 s0
  (type, s2) ← Serializer.get_u8 s1
  (bytes, s3) ← Serializer.get_bytes s2
  ok (record { notification_type = type; ctx = as_ctx bytes }, s3)

pub deserialize_notification : Buffer → Result CustomNotification
unfolding get_notification
deserialize_notification b = do (m, s) ← get_notification (open_buffer little b); ok m

put_out_of_log : ℕ → Serializer → Result Serializer
put_out_of_log start_idx_of_leader s = do
  s1 ← Serializer.put_u8 0 s
  Serializer.put_u64 start_idx_of_leader s1

pub serialize_out_of_log : (ℕ → ℕ) → ℕ → Result Buffer
unfolding put_out_of_log written
serialize_out_of_log heap start_idx = written heap (put_out_of_log start_idx) (1 + 8)

pub get_out_of_log : Serializer → Result (ℕ × Serializer)
get_out_of_log s0 = do (version, s1) ← Serializer.get_u8 s0; Serializer.get_u64 s1

pub deserialize_out_of_log : Buffer → Result ℕ
unfolding get_out_of_log
deserialize_out_of_log b = do (idx, s) ← get_out_of_log (open_buffer little b); ok idx

pub serialize_force_vote : (ℕ → ℕ) → Result Buffer
unfolding written
serialize_force_vote heap = written heap (Serializer.put_u8 0) 1

-- The buffer of an entry, deserialized, and the context of a notification.
unfoldable pub notification_of : List ℕ → Result CustomNotification
unfolding deserialize_notification
notification_of bytes = do
  b ← written (λ i. 0) (Serializer.put_raw bytes) (length bytes)
  deserialize_notification b

unfoldable pub out_of_log_of : List ℕ → Result ℕ
unfolding deserialize_out_of_log
out_of_log_of bytes = do
  b ← written (λ i. 0) (Serializer.put_raw bytes) (length bytes)
  deserialize_out_of_log b

-- The layout of a notification, in bytes.
unfoldable pub ctx_bytes : Option (List ℕ) → List ℕ
ctx_bytes none = put_bytes_of little 4 0
ctx_bytes (some bytes) = put_bytes_of little 4 (length bytes) ++ bytes

unfoldable pub notification_bytes : CustomNotification → List ℕ
unfolding ctx_bytes
notification_bytes m = (0 ∷ []) ++ ((m.notification_type ∷ []) ++ ctx_bytes m.ctx)

unfoldable pub out_of_log_bytes : ℕ → List ℕ
out_of_log_bytes start_idx = (0 ∷ []) ++ put_bytes_of little 8 start_idx
