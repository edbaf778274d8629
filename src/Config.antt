-- ===== src/Config.antt =====
-- Members and the cluster configuration: src/srv_config.cxx, src/cluster_config.cxx and their
-- headers. Texts are lists of byte values; an `int32` is its bit pattern.
pub mod Format
pub mod RoundTrip
pub mod Tests
use nu_raft.Common.{
  ℕ, zero, suc, ◌+◌, ◌*◌, ◌^◌, Bool, true, false, not, Option, none, some, List, [], ◌∷◌, ◌++◌,
  length, ltb, ◌==◌, if◌then◌else◌, Result, ok, ◌>>=◌,
}
use nu_raft.Buffer
use nu_raft.Buffer.{Buffer}
use nu_raft.Buffer.Put.{filled}
use nu_raft.Serializer
use nu_raft.Serializer.{Serializer, little}

pub record SrvConfig : Type 0 where
  pub id : ℕ
  pub dc_id : ℕ
  pub endpoint : List ℕ
  pub aux : List ℕ
  pub learner : Bool
  pub priority : ℕ

pub record ClusterConfig : Type 0 where
  pub log_idx : ℕ
  pub prev_log_idx : ℕ
  pub async_replication : Bool
  pub user_ctx : List ℕ
  pub servers : List SrvConfig

pub bool_byte : Bool → ℕ
bool_byte b = if b then 1 else 0

-- `set_log_idx`: the old index becomes the previous one.
pub set_log_idx : ClusterConfig → ℕ → ClusterConfig
set_log_idx c i = record c { prev_log_idx = c.log_idx; log_idx = i }

get_server_in : List SrvConfig → ℕ → Option SrvConfig
get_server_in [] i = none
get_server_in (s ∷ ss) i = if s.id == i then some s else get_server_in ss i

unfoldable pub get_server : ClusterConfig → ℕ → Option SrvConfig
unfolding get_server_in
get_server c i = get_server_in c.servers i

-- `alloc`, then a chain of `put`s, then `pos(0)`.
srv_config_size : SrvConfig → ℕ
srv_config_size c = 4 + 4 + (length c.endpoint + 1) + (length c.aux + 1) + 1 + 4

put_srv_config : SrvConfig → Buffer → Result Buffer
unfolding bool_byte
put_srv_config c b = do
  b1 ← Buffer.put_int c.id b
  b2 ← Buffer.put_int c.dc_id b1
  b3 ← Buffer.put_str c.endpoint b2
  b4 ← Buffer.put_str c.aux b3
  b5 ← Buffer.put_byte (bool_byte c.learner) b4
  Buffer.put_int c.priority b5

pub serialize_srv_config : (ℕ → ℕ) → SrvConfig → Result Buffer
unfolding srv_config_size put_srv_config filled
serialize_srv_config heap c = filled heap (put_srv_config c) (srv_config_size c)

pub deserialize_srv_config : Serializer → Result (SrvConfig × Serializer)
deserialize_srv_config s0 = do
  (id, s1) ← Serializer.get_i32 s0
  (dc_id, s2) ← Serializer.get_i32 s1
  (endpoint, s3) ← Serializer.get_cstr s2
  (aux, s4) ← Serializer.get_cstr s3
  (is_learner, s5) ← Serializer.get_u8 s4
  (priority, s6) ← Serializer.get_i32 s5
  ok (
    record {
      id = id;
      dc_id = dc_id;
      endpoint = endpoint;
      aux = aux;
      learner = not (is_learner == 0);
      priority = priority;
    },
    s6,
  )

-- The buffers of the servers, each allocated before the whole.
serialize_servers : (ℕ → ℕ) → List SrvConfig → Result (List Buffer)
unfolding serialize_srv_config
serialize_servers heap [] = ok []
serialize_servers heap (c ∷ cs) = do
  buf ← serialize_srv_config heap c
  bufs ← serialize_servers heap cs
  ok (buf ∷ bufs)

sum_sizes : List Buffer → ℕ
sum_sizes [] = 0
sum_sizes (b ∷ bs) = Buffer.size b + sum_sizes bs

put_buffers : List Buffer → Buffer → Result Buffer
put_buffers [] b = ok b
put_buffers (x ∷ xs) b = Buffer.put_buffer x b >>= put_buffers xs

cluster_config_size : ClusterConfig → List Buffer → ℕ
unfolding sum_sizes
cluster_config_size c srv_buffs = 2 * 8 + 4 + 1 + sum_sizes srv_buffs + 4 + length c.user_ctx

put_cluster_config : ClusterConfig → List Buffer → Buffer → Result Buffer
unfolding bool_byte put_buffers
put_cluster_config c srv_buffs b = do
  b1 ← Buffer.put_ulong c.log_idx b
  b2 ← Buffer.put_ulong c.prev_log_idx b1
  b3 ← Buffer.put_byte (bool_byte c.async_replication) b2
  b4 ← Buffer.put_bytes c.user_ctx b3
  b5 ← Buffer.put_int (length c.servers) b4
  put_buffers srv_buffs b5

pub serialize_cluster_config : (ℕ → ℕ) → ClusterConfig → Result Buffer
unfolding serialize_servers cluster_config_size put_cluster_config filled
serialize_cluster_config heap c = do
  srv_buffs ← serialize_servers heap c.servers
  filled heap (put_cluster_config c srv_buffs) (cluster_config_size c srv_buffs)

-- `while (cnt-- > 0)`; `cnt` is an `int32`, so that a count with the top bit set reads none.
deserialize_servers : ℕ → Serializer → Result (List SrvConfig × Serializer)
unfolding deserialize_srv_config
deserialize_servers zero s = ok ([], s)
deserialize_servers (suc cnt) s = do
  (c, s') ← deserialize_srv_config s
  (cs, s'') ← deserialize_servers cnt s'
  ok (c ∷ cs, s'')

rounds : ℕ → ℕ
rounds cnt = if ltb cnt (2 ^ 31) then cnt else 0

pub deserialize_cluster_config : Serializer → Result (ClusterConfig × Serializer)
unfolding deserialize_servers rounds
deserialize_cluster_config s0 = do
  (log_idx, s1) ← Serializer.get_u64 s0
  (prev_log_idx, s2) ← Serializer.get_u64 s1
  (ec_byte, s3) ← Serializer.get_u8 s2
  (user_ctx, s4) ← Serializer.get_bytes s3
  (cnt, s5) ← Serializer.get_i32 s4
  (servers, s6) ← deserialize_servers (rounds cnt) s5
  ok (
    record {
      log_idx = log_idx;
      prev_log_idx = prev_log_idx;
      async_replication = not (ec_byte == 0);
      user_ctx = user_ctx;
      servers = servers;
    },
    s6,
  )
