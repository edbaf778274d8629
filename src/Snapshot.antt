-- ===== src/Snapshot.antt =====
-- The description of a snapshot: src/snapshot.cxx and include/libnuraft/snapshot.hxx.
pub mod RoundTrip
pub mod SyncReq
pub mod Tests
use nu_raft.Common.{ℕ, ◌+◌, ◌*◌, Result, ok, ◌>>=◌}
use nu_raft.Buffer
use nu_raft.Buffer.{Buffer}
use nu_raft.Buffer.Put.{filled}
use nu_raft.Serializer
use nu_raft.Serializer.{Serializer}
use nu_raft.Config.{ClusterConfig, serialize_cluster_config, deserialize_cluster_config}

-- The type is the byte that is cast to it.
pub record Snapshot : Type 0 where
  pub snp_type : ℕ
  pub last_log_idx : ℕ
  pub last_log_term : ℕ
  pub size : ℕ
  pub last_config : ClusterConfig

put_snapshot : Snapshot → Buffer → Buffer → Result Buffer
put_snapshot s conf_buf b = do
  b1 ← Buffer.put_byte s.snp_type b
  b2 ← Buffer.put_ulong s.last_log_idx b1
  b3 ← Buffer.put_ulong s.last_log_term b2
  b4 ← Buffer.put_ulong s.size b3
  Buffer.put_buffer conf_buf b4

pub serialize_snapshot : (ℕ → ℕ) → Snapshot → Result Buffer
unfolding put_snapshot filled
serialize_snapshot heap s = do
  conf_buf ← serialize_cluster_config heap s.last_config
  filled heap (put_snapshot s conf_buf) (Buffer.size conf_buf + 8 * 3 + 1)

pub deserialize_snapshot : Serializer → Result (Snapshot × Serializer)
deserialize_snapshot s0 = do
  (snp_type, s1) ← Serializer.get_u8 s0
  (last_log_idx, s2) ← Serializer.get_u64 s1
  (last_log_term, s3) ← Serializer.get_u64 s2
  (size, s4) ← Serializer.get_u64 s3
  (conf, s5) ← deserialize_cluster_config s4
  ok (
    record {
      snp_type = snp_type;
      last_log_idx = last_log_idx;
      last_log_term = last_log_term;
      size = size;
      last_config = conf;
    },
    s5,
  )
