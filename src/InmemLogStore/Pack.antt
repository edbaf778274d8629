-- ===== src/InmemLogStore/Pack.antt =====
-- Entries in one buffer, for a server that joins: `pack` and `apply_pack` of
-- examples/in_memory_log_store.cxx.
use nu_raft.Common.{
  ℕ, zero, suc, ◌+◌, ◌*◌, ◌^◌, Option, none, some, List, [], ◌∷◌, length, ltb, if◌then◌else◌,
  Result, ok, throw, fault, ◌>>=◌,
}
use nu_raft.Buffer
use nu_raft.Buffer.{Buffer}
use nu_raft.Buffer.Put.{filled}
use nu_raft.Raft.Types.{LogEntry}
use nu_raft.Raft.EntryFormat.{serialize_entry, deserialize_entry}
use nu_raft.InmemLogStore.{InmemLogStore, find, assign}

-- `operator[]` gives a null pointer for an index that is not there.
unfoldable pub serialize_found : Option LogEntry → Result Buffer
unfolding serialize_entry
serialize_found none = throw fault
serialize_found (some e) = serialize_entry e

unfoldable pub serialize_range : ℕ → ℕ → InmemLogStore → Result (List Buffer)
unfolding serialize_found find
serialize_range index zero s = ok []
serialize_range index (suc cnt) s = do
  buf ← serialize_found (find index s.logs)
  logs ← serialize_range (index + 1) cnt s
  ok (buf ∷ logs)

unfoldable pub total_size : List Buffer → ℕ
total_size [] = 0
total_size (b ∷ bs) = Buffer.size b + total_size bs

unfoldable pub put_logs : List Buffer → Buffer → Result Buffer
put_logs [] b = ok b
put_logs (x ∷ xs) b = do
  b1 ← Buffer.put_int (Buffer.size x) b
  b2 ← Buffer.put_buffer x b1
  put_logs xs b2

-- The bytes of the buffer, with a count that is a positive `int32`.
unfoldable pub pack : ℕ → ℕ → InmemLogStore → Result (List ℕ)
unfolding serialize_range total_size put_logs filled
pack index cnt s = do
  logs ← serialize_range index cnt s
  out ←
      filled (λ i. 0) (λ b. do b1 ← Buffer.put_int cnt b; put_logs logs b1)
        (4 + cnt * 4 + total_size logs)
  ok out.bytes

-- The buffer of one entry: its size and its bytes, in a buffer of their own.
unfoldable pub get_entry : Buffer → Result (LogEntry × Buffer)
unfolding deserialize_entry
get_entry b = do
  (buf_size, b1) ← Buffer.get_int b
  room ← Buffer.alloc (λ i. 0) (Buffer.sign_extend buf_size)
  (buf_local, b2) ← Buffer.get_buffer room b1
  e ← deserialize_entry buf_local
  ok (e, b2)

-- The loop, with the number of rounds; an exception leaves the entries before it in the store,
-- which is not followed.
unfoldable pub apply_entries : ℕ → ℕ → Buffer → List (ℕ × LogEntry) → Result (List (ℕ × LogEntry))
unfolding get_entry assign
apply_entries index zero b logs = ok logs
apply_entries index (suc n) b logs = do
  (e, b1) ← get_entry b
  apply_entries (index + 1) n b1 (assign index e logs)

-- `upper_bound(0)`.
unfoldable pub first_index : List (ℕ × LogEntry) → ℕ
first_index [] = 1
first_index ((i, e) ∷ rest) = if ltb 0 i then i else first_index rest

-- A negative count has no rounds.
unfoldable pub apply_pack : ℕ → List ℕ → InmemLogStore → Result InmemLogStore
unfolding apply_entries first_index filled
apply_pack index bytes s = do
  b ← filled (λ i. 0) (Buffer.put_raw bytes) (length bytes)
  (num_logs, b1) ← Buffer.get_int b
  logs ← apply_entries index (if ltb num_logs (2 ^ 31) then num_logs else 0) b1 s.logs
  ok (record { logs = logs; start_idx = first_index logs })
