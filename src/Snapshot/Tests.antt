-- ===== src/Snapshot/Tests.antt =====
-- A snapshot of a two-member configuration, and the theorem of snapshots at it.
use nu_raft.Common.{◌≡◌, arith, ok}
use nu_raft.Buffer
use nu_raft.Buffer.{Buffer}
use nu_raft.Serializer.{Serializer, little, open_buffer}
use nu_raft.Config.Format.{encode_cluster, encode_servers, encode_srv}
use nu_raft.Config.Tests.{two_servers, two_servers-IsCluster}
use nu_raft.Snapshot.{Snapshot, serialize_snapshot, deserialize_snapshot}
use nu_raft.Snapshot.RoundTrip.{IsSnapshot, deserialize-serialize_snapshot}

abbrev pub snapshot : Snapshot
snapshot = record {
  snp_type = 1;
  last_log_idx = 300;
  last_log_term = 7;
  size = 0x1_0000_0000;
  last_config = two_servers;
}

pub snapshot-IsSnapshot : IsSnapshot snapshot
unfolding encode_cluster encode_servers encode_srv Buffer.shifted_bytes
snapshot-IsSnapshot = record {
  type_fits = omega arith;
  idx_fits = omega arith;
  term_fits = omega arith;
  size_fits = omega arith;
  config_fits = two_servers-IsCluster;
  small = omega arith;
}

deserialize-serialize_snapshot_example :
    (b : Buffer) × (serialize_snapshot (λ i. i) snapshot ≡ ok b)
    × ((t : Serializer) × (deserialize_snapshot (open_buffer little b) ≡ ok (snapshot, t))
        × (t.cursor ≡ Buffer.size b))
deserialize-serialize_snapshot_example =
    deserialize-serialize_snapshot (λ i. i) snapshot snapshot-IsSnapshot
