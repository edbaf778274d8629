-- ===== src/Config/Tests.antt =====
-- A two-member configuration, and the theorems of the configuration at it.
use nu_raft.Common.{◌≡◌, arith, true, false, [], ◌∷◌, ok}
use nu_raft.Buffer
use nu_raft.Buffer.{Buffer}
use nu_raft.Serializer.{Serializer, little, open_buffer}
use nu_raft.Config.{SrvConfig, ClusterConfig, serialize_cluster_config, deserialize_cluster_config}
use nu_raft.Config.Format.{encode_cluster, encode_servers, encode_srv}
use nu_raft.Config.RoundTrip.{IsSrv, IsCluster, deserialize-serialize_cluster}

abbrev first_server : SrvConfig
first_server = record {
  id = 1;
  dc_id = 0;
  endpoint = 104 ∷ 58 ∷ 49 ∷ [];
  aux = [];
  learner = false;
  priority = 100;
}

abbrev second_server : SrvConfig
second_server = record {
  id = 2;
  dc_id = 7;
  endpoint = 104 ∷ 58 ∷ 50 ∷ [];
  aux = 120 ∷ [];
  learner = true;
  priority = 0;
}

abbrev pub two_servers : ClusterConfig
two_servers = record {
  log_idx = 300;
  prev_log_idx = 5;
  async_replication = true;
  user_ctx = 0 ∷ 255 ∷ [];
  servers = first_server ∷ second_server ∷ [];
}

first_server-IsSrv : IsSrv first_server
first_server-IsSrv = record {
  id_fits = omega arith;
  dc_id_fits = omega arith;
  priority_fits = omega arith;
  endpoint_text = (omega arith, (omega arith, (omega arith, tt)));
  aux_text = tt;
}

second_server-IsSrv : IsSrv second_server
second_server-IsSrv = record {
  id_fits = omega arith;
  dc_id_fits = omega arith;
  priority_fits = omega arith;
  endpoint_text = (omega arith, (omega arith, (omega arith, tt)));
  aux_text = (omega arith, tt);
}

pub two_servers-IsCluster : IsCluster two_servers
unfolding encode_cluster encode_servers encode_srv Buffer.shifted_bytes
two_servers-IsCluster = record {
  log_idx_fits = omega arith;
  prev_log_idx_fits = omega arith;
  servers_fit = (first_server-IsSrv, (second_server-IsSrv, tt));
  small = omega arith;
  count_fits = omega arith;
  ctx_fits = omega arith;
}

deserialize-serialize_cluster_example :
    (b : Buffer) × (serialize_cluster_config (λ i. i) two_servers ≡ ok b)
    × ((s : Serializer) × (deserialize_cluster_config (open_buffer little b) ≡ ok (two_servers, s))
        × (s.cursor ≡ Buffer.size b))
deserialize-serialize_cluster_example =
    deserialize-serialize_cluster (λ i. i) two_servers two_servers-IsCluster
