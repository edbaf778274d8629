-- ===== src/Config/Format.antt =====
-- The bytes of a member and of a configuration, and that src/srv_config.cxx and
-- src/cluster_config.cxx write them, into a buffer of exactly that size.
use nu_raft.Common.{
  ℕ, ◌+◌, ◌^◌, ◌<◌, ◌≡◌, refl, ap, sym, ◌∙◌, arith, List, [], ◌∷◌, ◌++◌, length, length-append, ok,
  append-nil,
}
use nu_raft.Buffer
use nu_raft.Buffer.{Buffer, shifted_bytes}
use nu_raft.Buffer.Cursor.{At, size-At}
use nu_raft.Buffer.Put.{
  Writes, filled, filled_lem, then-Writes, put_int-Writes, put_byte-Writes, put_str-Writes,
  put_ulong-Writes, put_bytes-Writes, put_buffer-Writes,
}
use nu_raft.Config.{
  SrvConfig, ClusterConfig, bool_byte, srv_config_size, put_srv_config, serialize_srv_config,
  serialize_servers, sum_sizes, put_buffers, cluster_config_size, put_cluster_config,
  serialize_cluster_config,
}

abbrev pub int_bytes : ℕ → List ℕ
int_bytes v = shifted_bytes 4 0 v

abbrev pub ulong_bytes : ℕ → List ℕ
ulong_bytes v = shifted_bytes 8 0 v

abbrev pub cstr_bytes : List ℕ → List ℕ
cstr_bytes s = s ++ (0 ∷ [])

unfoldable pub encode_srv : SrvConfig → List ℕ
encode_srv c =
    int_bytes c.id
    ++ (int_bytes c.dc_id
        ++ (cstr_bytes c.endpoint
            ++ (cstr_bytes c.aux ++ ((bool_byte c.learner ∷ []) ++ int_bytes c.priority))))

put_srv_config-Writes : (c : SrvConfig) → Writes (put_srv_config c) (encode_srv c)
unfolding put_srv_config encode_srv
put_srv_config-Writes c = then-Writes _ _ _ _ (put_int-Writes c.id) (
    then-Writes _ _ _ _ (put_int-Writes c.dc_id) (
      then-Writes _ _ _ _ (put_str-Writes c.endpoint) (
        then-Writes _ _ _ _ (put_str-Writes c.aux) (
          then-Writes _ _ _ _ (put_byte-Writes (bool_byte c.learner))
            (put_int-Writes c.priority)))))

length-encode_srv : (c : SrvConfig) → length (encode_srv c) ≡ srv_config_size c
unfolding encode_srv srv_config_size shifted_bytes
length-encode_srv c = omega (
  arith,
  length-append (cstr_bytes c.endpoint)
      (cstr_bytes c.aux ++ ((bool_byte c.learner ∷ []) ++ int_bytes c.priority)),
  length-append (cstr_bytes c.aux) ((bool_byte c.learner ∷ []) ++ int_bytes c.priority),
  length-append c.endpoint (0 ∷ []),
  length-append c.aux (0 ∷ []),
)

pub serialize-encode_srv :
    (heap : ℕ → ℕ) (c : SrvConfig)
    → length (encode_srv c) < 2 ^ 31
    → (b : Buffer) × (serialize_srv_config heap c ≡ ok b) × At b [] (encode_srv c)
unfolding serialize_srv_config
serialize-encode_srv heap c h =
    let (b, e, a) = filled_lem heap (put_srv_config c) (encode_srv c) (put_srv_config-Writes c) h in
    (b, ap (filled heap (put_srv_config c)) (sym (length-encode_srv c)) ∙ e, a)

unfoldable pub encode_servers : List SrvConfig → List ℕ
encode_servers [] = []
encode_servers (c ∷ cs) = encode_srv c ++ encode_servers cs

unfoldable pub encode_cluster : ClusterConfig → List ℕ
encode_cluster c =
    ulong_bytes c.log_idx
    ++ (ulong_bytes c.prev_log_idx
        ++ ((bool_byte c.async_replication ∷ [])
            ++ ((int_bytes (length c.user_ctx) ++ c.user_ctx)
                ++ (int_bytes (length c.servers) ++ encode_servers c.servers))))

-- The buffers hold the encodings of the servers, in order, with their cursors at the front.
data Hold : List Buffer → List SrvConfig → Type 0 where
  none_left : Hold [] []
  one_more :
      {b : Buffer} {c : SrvConfig} {bs : List Buffer} {cs : List SrvConfig}
      → At b [] (encode_srv c)
      → Hold bs cs
      → Hold (b ∷ bs) (c ∷ cs)

serialize_servers-Hold :
    (heap : ℕ → ℕ) (cs : List SrvConfig)
    → length (encode_servers cs) < 2 ^ 31
    → (bs : List Buffer) × (serialize_servers heap cs ≡ ok bs) × Hold bs cs
unfolding serialize_servers encode_servers
serialize_servers-Hold heap [] h = ([], refl, none_left)
serialize_servers-Hold heap (c ∷ cs) h =
    let total = length-append (encode_srv c) (encode_servers cs) in
    let (b, e, a) = serialize-encode_srv heap c (omega (arith, total)) in
    let (bs, e', hold) = serialize_servers-Hold heap cs (omega (arith, total)) in
    (b ∷ bs, rw (e, e'), one_more a hold)

Hold-sum_sizes :
    {bs : List Buffer} {cs : List SrvConfig}
    → Hold bs cs
    → sum_sizes bs ≡ length (encode_servers cs)
unfolding sum_sizes encode_servers
Hold-sum_sizes none_left = refl
Hold-sum_sizes (one_more {b} {c} {bs} {cs} a hold) = omega (
  arith,
  size-At b [] (encode_srv c) a,
  Hold-sum_sizes hold,
  length-append (encode_srv c) (encode_servers cs),
)

put_buffers-Writes :
    {bs : List Buffer} {cs : List SrvConfig}
    → Hold bs cs
    → Writes (put_buffers bs) (encode_servers cs)
unfolding put_buffers encode_servers
put_buffers-Writes none_left = λ b front back a h. (b, refl, rw append-nil a)
put_buffers-Writes (one_more {b} {c} {bs} {cs} a hold) =
    then-Writes (Buffer.put_buffer b) (put_buffers bs) (encode_srv c) (encode_servers cs)
      (put_buffer-Writes b [] (encode_srv c) a) (put_buffers-Writes hold)

put_cluster_config-Writes :
    (c : ClusterConfig) (bs : List Buffer)
    → Hold bs c.servers
    → Writes (put_cluster_config c bs) (encode_cluster c)
unfolding put_cluster_config encode_cluster
put_cluster_config-Writes c bs hold = then-Writes _ _ _ _ (put_ulong-Writes c.log_idx) (
    then-Writes _ _ _ _ (put_ulong-Writes c.prev_log_idx) (
      then-Writes _ _ _ _ (put_byte-Writes (bool_byte c.async_replication)) (
        then-Writes _ _ _ _ (put_bytes-Writes c.user_ctx)
          (then-Writes _ _ _ _ (put_int-Writes (length c.servers)) (put_buffers-Writes hold)))))

length-encode_cluster :
    (c : ClusterConfig)
    → length (encode_cluster c) ≡ 25 + length c.user_ctx + length (encode_servers c.servers)
unfolding encode_cluster shifted_bytes
length-encode_cluster c =
    omega
      (arith, length-append c.user_ctx (int_bytes (length c.servers) ++ encode_servers c.servers))

-- `cluster_config::serialize` writes exactly the format, whatever the memory held before.
pub serialize-encode_cluster :
    (heap : ℕ → ℕ) (c : ClusterConfig)
    → length (encode_cluster c) < 2 ^ 31
    → (b : Buffer) × (serialize_cluster_config heap c ≡ ok b) × At b [] (encode_cluster c)
unfolding serialize_cluster_config cluster_config_size
serialize-encode_cluster heap c h =
    let (bs, e, hold) =
      serialize_servers-Hold heap c.servers (omega (arith, length-encode_cluster c)) in
    let (b, e', a) =
      filled_lem heap (put_cluster_config c bs) (encode_cluster c)
        (put_cluster_config-Writes c bs hold) h in
    let same_size : cluster_config_size c bs ≡ length (encode_cluster c) =
      omega (arith, length-encode_cluster c, Hold-sum_sizes hold) in
    (b, rw e (ap (filled heap (put_cluster_config c bs)) same_size ∙ e'), a)
