-- ===== src/Snapshot/SyncReq/Tests.antt =====
-- The last part of a snapshot, of three bytes.
use nu_raft.Common.{◌≡◌, arith, true, [], ◌∷◌, ok}
use nu_raft.Buffer
use nu_raft.Buffer.{Buffer}
use nu_raft.Serializer.{little, open_buffer}
use nu_raft.Config.Format.{encode_cluster, encode_servers, encode_srv}
use nu_raft.Snapshot.RoundTrip.{encode_snapshot}
use nu_raft.Snapshot.Tests.{snapshot, snapshot-IsSnapshot}
use nu_raft.Snapshot.SyncReq.{SnapshotSyncReq, serialize_sync_req, deserialize_sync_req}
use nu_raft.Snapshot.SyncReq.RoundTrip.{encode_sync_req, IsSyncReq, deserialize-serialize_sync_req}

abbrev last_part : SnapshotSyncReq
last_part = record { snapshot = snapshot; offset = 5; data_bytes = 1 ∷ 0 ∷ 255 ∷ []; done = true }

last_part-IsSyncReq : IsSyncReq last_part
unfolding encode_sync_req encode_snapshot encode_cluster encode_servers encode_srv
    Buffer.shifted_bytes
last_part-IsSyncReq = record {
  snapshot_fits = snapshot-IsSnapshot;
  offset_fits = omega arith;
  small = omega arith;
}

deserialize-serialize_sync_req_example :
    (b : Buffer) × (serialize_sync_req (λ i. i) last_part ≡ ok b)
    × (deserialize_sync_req (open_buffer little b) ≡ ok last_part)
deserialize-serialize_sync_req_example =
    deserialize-serialize_sync_req (λ i. i) last_part last_part-IsSyncReq
