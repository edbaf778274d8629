-- ===== src/Snapshot/SyncReq.antt =====
-- A part of a snapshot on its way to another server: src/snapshot_sync_req.cxx.
pub mod RoundTrip
pub mod Tests
use nu_raft.Common.{
  ℕ, ◌+◌, ◌-◌, Bool, true, false, List, [], length, take, ltb, ◌==◌, if◌then◌else◌, Result, ok,
  ◌>>=◌,
}
use nu_raft.Buffer
use nu_raft.Buffer.{Buffer}
use nu_raft.Buffer.Put.{filled}
use nu_raft.Serializer
use nu_raft.Serializer.{Serializer}
use nu_raft.Snapshot.{Snapshot, serialize_snapshot, deserialize_snapshot}

-- `data` holds the bytes from the position of the buffer on.
pub record SnapshotSyncReq : Type 0 where
  pub snapshot : Snapshot
  pub offset : ℕ
  pub data_bytes : List ℕ
  pub done : Bool

unfoldable pub done_byte : Bool → ℕ
done_byte true = 1
done_byte false = 0

unfoldable pub put_sync_req : SnapshotSyncReq → Buffer → Buffer → Result Buffer
unfolding done_byte
put_sync_req r snp_buf b = do
  b1 ← Buffer.put_buffer snp_buf b
  b2 ← Buffer.put_ulong r.offset b1
  b3 ← Buffer.put_byte (done_byte r.done) b2
  Buffer.put_raw r.data_bytes b3

unfoldable pub serialize_sync_req : (ℕ → ℕ) → SnapshotSyncReq → Result Buffer
unfolding put_sync_req filled
serialize_sync_req heap r = do
  snp_buf ← serialize_snapshot heap r.snapshot
  filled heap (put_sync_req r snp_buf) (Buffer.size snp_buf + 8 + 1 + length r.data_bytes)

-- Whatever is left of the buffer is data.
unfoldable pub left_bytes : Serializer → List ℕ
left_bytes s =
    if ltb s.cursor (Serializer.size s)
    then take (Serializer.size s - s.cursor) (Serializer.bytes_here s)
    else []

unfoldable pub get_sync_head : Serializer → Result ((Snapshot × ℕ × ℕ) × Serializer)
get_sync_head s0 = do
  (snp, s1) ← deserialize_snapshot s0
  (offset, s2) ← Serializer.get_u64 s1
  (done, s3) ← Serializer.get_u8 s2
  ok ((snp, offset, done), s3)

unfoldable pub deserialize_sync_req : Serializer → Result SnapshotSyncReq
unfolding get_sync_head left_bytes
deserialize_sync_req s0 = do
  ((snp, offset, done), s3) ← get_sync_head s0
  ok (record { snapshot = snp; offset = offset; data_bytes = left_bytes s3; done = done == 1 })
