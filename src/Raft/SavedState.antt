-- ===== src/Raft/SavedState.antt =====
-- How the state of a server is saved and loaded: include/libnuraft/srv_state.hxx.
pub mod RoundTrip
pub mod Tests
use nu_raft.Common.{ℕ, ◌+◌, Bool, true, false, Result, ok, ◌>>=◌, ltb, ◌==◌, if◌then◌else◌}
use nu_raft.Buffer
use nu_raft.Buffer.{Buffer}
use nu_raft.Buffer.Put.{filled}
use nu_raft.Serializer
use nu_raft.Serializer.{Serializer, little, open_buffer}
use nu_raft.Raft.Types.{SrvState}

pub timer_byte : Bool → ℕ
timer_byte true = 1
timer_byte false = 0

pub current_version : ℕ
current_version = 1

put_v0 : SrvState → Buffer → Result Buffer
put_v0 st b = do b1 ← Buffer.put_ulong st.term b; Buffer.put_int st.voted_for b1

pub serialize_v0 : (ℕ → ℕ) → SrvState → Result Buffer
unfolding put_v0 filled
serialize_v0 heap st = filled heap (put_v0 st) (8 + 4)

put_v1p : ℕ → SrvState → Serializer → Result Serializer
unfolding timer_byte
put_v1p version st s = do
  s1 ← Serializer.put_u8 version s
  s2 ← Serializer.put_u64 st.term s1
  s3 ← Serializer.put_i32 st.voted_for s2
  Serializer.put_u8 (timer_byte st.election_timer_allowed) s3

pub serialize_v1p : (ℕ → ℕ) → ℕ → SrvState → Result Buffer
unfolding put_v1p
serialize_v1p heap version st = do
  b ← Buffer.alloc heap (1 + 8 + 4 + 1)
  s ← put_v1p version st (open_buffer little b)
  ok s.buf

pub serialize_state : (ℕ → ℕ) → SrvState → Result Buffer
unfolding serialize_v1p current_version
serialize_state heap st = serialize_v1p heap current_version st

pub deserialize_v0 : Buffer → Result SrvState
deserialize_v0 b = do
  (term, b1) ← Buffer.get_ulong b
  (voted_for, b2) ← Buffer.get_int b1
  ok (record { term = term; voted_for = voted_for; election_timer_allowed = true })

-- The version is read and not looked at.
get_v1p : Serializer → Result (SrvState × Serializer)
get_v1p s0 = do
  (version, s1) ← Serializer.get_u8 s0
  (term, s2) ← Serializer.get_u64 s1
  (voted_for, s3) ← Serializer.get_i32 s2
  (et_allowed, s4) ← Serializer.get_u8 s3
  ok (record { term = term; voted_for = voted_for; election_timer_allowed = et_allowed == 1 }, s4)

pub deserialize_v1p : Buffer → Result SrvState
unfolding get_v1p
deserialize_v1p b = do (st, s) ← get_v1p (open_buffer little b); ok st

pub deserialize_state : Buffer → Result SrvState
unfolding deserialize_v0 deserialize_v1p
deserialize_state b = if ltb (8 + 4) (Buffer.size b) then deserialize_v1p b else deserialize_v0 b
