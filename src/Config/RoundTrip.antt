-- ===== src/Config/RoundTrip.antt =====
-- What src/cluster_config.cxx writes, it reads back.
use nu_raft.Common.{
  ℕ, ◌^◌, ◌<◌, ◌≡◌, refl, ap, ◌∙◌, arith, Bool, true, false, not, List, [], ◌∷◌, length, ok,
  append-nil, ◌==◌, lt→ltb,
}
use nu_raft.Buffer
use nu_raft.Buffer.{Buffer, shifted_bytes}
use nu_raft.Buffer.Cursor.{size-At}
use nu_raft.Serializer.{Serializer, little, open_buffer, put_bytes_of}
use nu_raft.Serializer.Gets.{
  Reads, IsCstr, open_buffer-At, then-Reads, last-Reads, done-Reads, get_i32-Reads, get_u8-Reads,
  get_u64-Reads, get_cstr-Reads, get_bytes-Reads,
}
use nu_raft.Config.{
  SrvConfig, ClusterConfig, bool_byte, deserialize_srv_config, deserialize_servers, rounds,
  deserialize_cluster_config, serialize_cluster_config,
}
use nu_raft.Config.Format.{encode_srv, encode_servers, encode_cluster, serialize-encode_cluster}

-- The fields fit their machine types, and the texts hold no zero.
pub record IsSrv (c : SrvConfig) : Type 0 where
  pub id_fits : c.id < 2 ^ 32
  pub dc_id_fits : c.dc_id < 2 ^ 32
  pub priority_fits : c.priority < 2 ^ 32
  pub endpoint_text : IsCstr c.endpoint
  pub aux_text : IsCstr c.aux

abbrev pub AllSrv : List SrvConfig → Type 0
AllSrv [] = Unit {0}
AllSrv (c ∷ cs) = IsSrv c × AllSrv cs

pub record IsCluster (c : ClusterConfig) : Type 0 where
  pub log_idx_fits : c.log_idx < 2 ^ 64
  pub prev_log_idx_fits : c.prev_log_idx < 2 ^ 64
  pub servers_fit : AllSrv c.servers
  pub small : length (encode_cluster c) < 2 ^ 31
  pub count_fits : length c.servers < 2 ^ 31
  pub ctx_fits : length c.user_ctx < 2 ^ 32

bool_round_trip : (b : Bool) → not (bool_byte b == 0) ≡ b
unfolding bool_byte
bool_round_trip true = refl
bool_round_trip false = refl

bool_byte_fits : (b : Bool) → bool_byte b < 2 ^ 8
unfolding bool_byte
bool_byte_fits true = omega arith
bool_byte_fits false = omega arith

deserialize_srv_config-Reads :
    (c : SrvConfig) → IsSrv c → Reads little deserialize_srv_config c (encode_srv c)
unfolding deserialize_srv_config encode_srv put_bytes_of
deserialize_srv_config-Reads c v s front back order at =
    let (s', e, a, same) = parts s front back order at in
    (
      s',
      e ∙ ap (λ (l : Bool). ok (record c { learner = l }, s')) (bool_round_trip c.learner),
      a,
      same,
    )
  where
    parts :
        Reads little deserialize_srv_config
          (record c { learner = not (bool_byte c.learner == 0) })
          (encode_srv c)
    parts = then-Reads little _ _ c.id _ _ _ (get_i32-Reads little c.id v.id_fits) (
        then-Reads little _ _ c.dc_id _ _ _ (get_i32-Reads little c.dc_id v.dc_id_fits) (
          then-Reads little _ _ c.endpoint _ _ _ (get_cstr-Reads little c.endpoint v.endpoint_text)
            (then-Reads little _ _ c.aux _ _ _ (get_cstr-Reads little c.aux v.aux_text) (
              then-Reads little _ _ (bool_byte c.learner) _ _ _
                (get_u8-Reads little (bool_byte c.learner) (bool_byte_fits c.learner))
                (last-Reads little _ _ c.priority _
                  (get_i32-Reads little c.priority v.priority_fits))))))

deserialize_servers-Reads :
    (cs : List SrvConfig)
    → AllSrv cs
    → Reads little (deserialize_servers (length cs)) cs (encode_servers cs)
unfolding deserialize_servers encode_servers
deserialize_servers-Reads [] v = done-Reads little []
deserialize_servers-Reads (c ∷ cs) (v, vs) =
    then-Reads little deserialize_srv_config _ c (c ∷ cs) (encode_srv c) (encode_servers cs)
      (deserialize_srv_config-Reads c v)
      (last-Reads little (deserialize_servers (length cs)) _ cs (encode_servers cs)
        (deserialize_servers-Reads cs vs))

pub deserialize_cluster_config-Reads :
    (c : ClusterConfig) → IsCluster c → Reads little deserialize_cluster_config c (encode_cluster c)
unfolding deserialize_cluster_config encode_cluster put_bytes_of
deserialize_cluster_config-Reads c v s front back order at =
    let (s', e, a, same) = parts s front back order at in
    (
      s',
      e
          ∙ ap (λ (r : Bool). ok (record c { async_replication = r }, s'))
              (bool_round_trip c.async_replication),
      a,
      same,
    )
  where
    all_rounds : rounds (length c.servers) ≡ length c.servers
    all_rounds = rw (lt→ltb _ _ v.count_fits, rounds)

    servers-Reads :
        Reads little
          (deserialize_servers (rounds (length c.servers)))
          c.servers
          (encode_servers c.servers)
    servers-Reads = rw all_rounds (deserialize_servers-Reads c.servers v.servers_fit)

    parts :
        Reads little deserialize_cluster_config
          (record c { async_replication = not (bool_byte c.async_replication == 0) })
          (encode_cluster c)
    parts = then-Reads little _ _ c.log_idx _ _ _ (get_u64-Reads little c.log_idx v.log_idx_fits) (
        then-Reads little _ _ c.prev_log_idx _ _ _
          (get_u64-Reads little c.prev_log_idx v.prev_log_idx_fits)
          (then-Reads little _ _ (bool_byte c.async_replication) _ _ _
            (get_u8-Reads little (bool_byte c.async_replication)
              (bool_byte_fits c.async_replication))
            (then-Reads little _ _ c.user_ctx _ _ _ (get_bytes-Reads little c.user_ctx v.ctx_fits) (
              then-Reads little _ _ (length c.servers) _ _ _
                (get_i32-Reads little (length c.servers) (omega (arith, v.count_fits)))
                (last-Reads little _ _ c.servers _ servers-Reads)))))

-- Serializing a configuration whose fields fit their types, and whose texts hold no zero byte,
-- succeeds, and deserializing the buffer gives the configuration back and consumes the whole
-- buffer. It does not depend on what the allocated memory held before.
pub deserialize-serialize_cluster :
    (heap : ℕ → ℕ) (c : ClusterConfig)
    → IsCluster c
    → (b : Buffer) × (serialize_cluster_config heap c ≡ ok b)
      × ((s : Serializer) × (deserialize_cluster_config (open_buffer little b) ≡ ok (c, s))
          × (s.cursor ≡ Buffer.size b))
deserialize-serialize_cluster heap c v =
    let (b, e, a) = serialize-encode_cluster heap c v.small in
    let opened = open_buffer-At little b (encode_cluster c) a in
    let (s, r, at, same) =
      deserialize_cluster_config-Reads c v (open_buffer little b) [] [] opened.1
        (rw append-nil opened.0) in
    (b, e, (s, r, omega (arith, at.here, size-At b [] (encode_cluster c) a)))
