-- ===== src/Raft/Leader/Become.antt =====
-- Winning an election: `raft_server::become_leader` of src/raft_server.cxx, with
-- `enable_hb_for_peer` of handle_timeout.cxx.
use nu_raft.Common.{
  ℕ, zero, suc, ◌+◌, ◌-◌, true, false, ◌&&◌, none, List, [], ◌∷◌, length, map, ltb, ◌==◌,
  if◌then◌else◌, Result, ok, throw, ◌>>=◌,
}
use nu_raft.Buffer
use nu_raft.Buffer.Put.{filled}
use nu_raft.Serializer.{little, open_buffer}
use nu_raft.Config.{ClusterConfig, deserialize_cluster_config}
use nu_raft.Config.Format.{encode_cluster}
use nu_raft.Raft.Types.{leader, LogEntry, conf, no_server}
use nu_raft.Raft.LogStore.{LogStore}
use nu_raft.Raft.Server.{
  Server, Peer, emit, stop_election_timer, become_leader_callback, enable_heartbeat,
}
use nu_raft.Raft.Leadership.{yield_leadership}
use nu_raft.Raft.Quorum.{get_num_voting_members}
use nu_raft.Raft.Follower.{store_log_entry}
use nu_raft.Raft.Leader.{Surroundings, request_append_entries_to_all}

-- The buffer of an entry, deserialized.
unfoldable pub config_of : List ℕ → Result ClusterConfig
config_of bytes = do
  b ← filled (λ i. 0) (Buffer.put_raw bytes) (length bytes)
  (config, s) ← deserialize_cluster_config (open_buffer little b)
  ok config

-- Entries of the type `conf` hold configurations; of other bytes the exception is not followed.
unfoldable pub latest_config : LogEntry → ClusterConfig → ClusterConfig
unfolding config_of
latest_config entry last = elim entry.value_type [
  | conf ↦ elim (config_of entry.buff) [ ok config ↦ config | throw e ↦ last ]
  | _ ↦ last
]

lead_peer : ℕ → Peer → Peer
lead_peer slot p = record p {
  snapshot_in_sync = false;
  next_log_idx = slot;
  hb_enabled = if p.abandoned then p.hb_enabled else true;
}

module _ {S : Type 0} where
  unfoldable pub start_heartbeats : List Peer → Server S → Server S
  unfolding emit
  start_heartbeats [] s = s
  start_heartbeats (p ∷ ps) s = start_heartbeats ps (emit (enable_heartbeat p.id) s)

module _ (L : LogStore) where
  open L use {Store, next_slot, entry_at}

  -- The last configuration among `n` entries from `idx` on.
  find_config : ℕ → ℕ → ClusterConfig → Server Store → ClusterConfig
  unfolding latest_config
  find_config zero idx last s = last
  find_config (suc n) idx last s =
      find_config n (idx + 1) (latest_config (entry_at s.log_store idx) last) s

  unfoldable pub config_entry : Server Store → LogEntry
  unfolding find_config encode_cluster
  config_entry s =
      let slot = next_slot s.log_store in
      let last = find_config (slot - (s.sm_commit_index + 1)) (s.sm_commit_index + 1) s.config s in
      record {
        term = s.state.term;
        value_type = conf;
        buff = encode_cluster (record last { log_idx = slot });
      }

  unfoldable pub as_leader : Server Store → Server Store
  unfolding lead_peer start_heartbeats emit
  as_leader s = record (start_heartbeats s.peers (emit stop_election_timer s)) {
    role = leader;
    leader_id = s.id;
    srv_to_join = none;
    precommit_index = next_slot s.log_store - 1;
    peers = map (lead_peer (next_slot s.log_store)) s.peers;
  }

  -- The log ends with the configuration of the new leader.
  unfoldable pub take_over : Server Store → Server Store
  unfolding as_leader config_entry store_log_entry emit
  take_over s =
      let leading = as_leader s in
      let (stored, index) = store_log_entry L (config_entry leading) 0 leading in
      record (emit become_leader_callback stored) {
        index_at_becoming_leader = index;
        config_changing = true;
        write_paused = false;
        next_leader_candidate = no_server;
        initialized = true;
        pre_vote = record (s.pre_vote) { quorum_reject_count = 0; failure_count = 0 };
        data_fresh = true;
      }

  -- A leader of priority 0 gives its place away soon.
  unfoldable pub become_leader : Surroundings → Server Store → Server Store
  unfolding take_over request_append_entries_to_all yield_leadership
  become_leader env s =
      let led = request_append_entries_to_all L env (take_over s) in
      if led.my_priority == 0 && ltb 1 (get_num_voting_members led)
      then yield_leadership env false no_server led
      else led
