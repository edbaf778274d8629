-- ===== src/Raft/Membership.antt =====
-- Adding and removing servers: src/handle_join_leave.cxx. A configuration change goes through the
-- log like an entry: the leader appends the new configuration, and `reconfigure` puts it into
-- effect when it is committed. `use_bg_thread_for_snapshot_io_` is off.
pub mod Join
pub mod Leave
pub mod Overlap
pub mod Revote
pub mod Requests
pub mod Sent
pub mod State
pub mod Voters
pub mod Tests
use nu_raft.Common.{
  ℕ, zero, suc, ◌+◌, ◌-◌, ◌*◌, ◌%◌, ◌^◌, min, Bool, true, false, not, ◌&&◌, ◌||◌, Option, none,
  some, List, [], ◌∷◌, ◌++◌, length, ltb, leb, ◌==◌, if◌then◌else◌, Result, ok, throw, ◌>>=◌,
}
use nu_raft.Buffer
use nu_raft.Buffer.Put.{filled}
use nu_raft.Serializer.{little, open_buffer}
use nu_raft.Config.{ClusterConfig, SrvConfig, deserialize_srv_config}
use nu_raft.Config.Format.{encode_cluster}
use nu_raft.Raft.Types.{
  is_leader, follower, LogEntry, LogValType, conf, cluster_server, ReqMsg, join_cluster_request,
  leave_cluster_request, no_server, RespMsg, new_resp, accept, join_cluster_response,
  leave_cluster_response,
}
use nu_raft.Raft.LogStore.{LogStore}
use nu_raft.Raft.Server.{
  Server, Peer, emit, send, save_state, save_config, become_follower_callback,
  server_join_failed_callback, enable_heartbeat, sync_snapshot,
}
use nu_raft.Raft.Follower.{store_log_entry, is_some}
use nu_raft.Raft.Leader.{
  Surroundings, find_peer, update_peer, new_req, request_append_entries_to_all,
}
use nu_raft.Raft.Leader.Response.{drop_leaving, check_srv_to_leave_timeout}
use nu_raft.Raft.Leader.Become.{config_of}
use nu_raft.Raft.Reconfigure.{new_peer, reconfigure}

-- The result codes of a request for a change, and the index behind the log if it is taken.
pub data ChangeAnswer : Type 0 where
  bad_request not_leader server_already_exists config_changing server_is_joining : ChangeAnswer
  server_is_leaving cannot_remove_leader server_not_found : ChangeAnswer
  -- An exception leaves the handler.
  change_failed : ChangeAnswer
  change_accepted : ℕ → ChangeAnswer

-- The only entry of a request, of one type.
pub sole_entry : List LogEntry → Option LogEntry
sole_entry (e ∷ []) = some e
sole_entry _ = none

abbrev pub is_conf : LogValType → Bool
is_conf conf = true
is_conf _ = false

abbrev pub is_cluster_server : LogValType → Bool
is_cluster_server cluster_server = true
is_cluster_server _ = false

-- The buffer of an entry, deserialized.
pub srv_of : List ℕ → Result SrvConfig
srv_of bytes = do
  b ← filled (λ i. 0) (Buffer.put_raw bytes) (length bytes)
  (config, s) ← deserialize_srv_config (open_buffer little b)
  ok config

pub without_server : ℕ → List SrvConfig → List SrvConfig
without_server id [] = []
without_server id (c ∷ cs) = if c.id == id then without_server id cs else c ∷ without_server id cs

pub any_leave_flag : List Peer → Bool
any_leave_flag [] = false
any_leave_flag (p ∷ ps) = p.leave_flag || any_leave_flag ps

module _ {S : Type 0} where
  -- An uncommitted configuration is built upon.
  unfoldable pub latest_conf : Server S → ClusterConfig
  latest_conf s = elim s.uncommitted_config [ none ↦ s.config | some c ↦ c ]

  -- A configuration of the given servers behind the latest one, for the index `slot`.
  unfoldable pub next_conf : ℕ → List SrvConfig → Server S → ClusterConfig
  unfolding latest_conf
  next_conf slot servers s = record (latest_conf s) {
    log_idx = slot;
    prev_log_idx = (latest_conf s).log_idx;
    servers = servers;
  }

  -- `reset_srv_to_join`.
  unfoldable pub reset_srv_to_join : Server S → Server S
  reset_srv_to_join s = record s { srv_to_join = none }

module _ (L : LogStore) where
  open L use {Store, next_slot}

  -- The new configuration is appended, and it is the latest one until it is committed.
  unfoldable pub propose : ClusterConfig → Server Store → Server Store
  unfolding store_log_entry encode_cluster
  propose new s =
      record ((store_log_entry L
        (record { term = s.state.term; value_type = conf; buff = encode_cluster new }) 0 s).0) {
          config_changing = true;
          uncommitted_config = some new;
        }

  -- The configuration of the leader goes to the server that is asked to join.
  unfoldable pub invite : Peer → Server Store → Server Store
  unfolding emit encode_cluster
  invite j s =
      emit
        (send (
          new_req s.state.term join_cluster_request s.id j.id 0 (next_slot s.log_store - 1)
            s.quick_commit_index
            (record { term = s.state.term; value_type = conf; buff = encode_cluster s.config }
              ∷ [])))
        s

  unfoldable pub start_join : SrvConfig → Server Store → Server Store × ChangeAnswer
  unfolding new_peer invite
  start_join c s =
      let j : Peer = new_peer c 0 in
      (
        invite j (record s { conf_to_add = some c; srv_to_join = some j }),
        change_accepted (next_slot s.log_store),
      )

  -- A server that is joining and shows no activity is given up for the new one.
  unfoldable pub replace_join : SrvConfig → Server Store → Server Store × ChangeAnswer
  unfolding start_join reset_srv_to_join emit
  replace_join c s = elim s.srv_to_join [
    | none ↦ start_join c s
    | some j ↦
        if leb j.active_elapsed_ms (s.params.response_limit * s.params.heart_beat_interval)
        then (s, server_is_joining)
        else start_join c (reset_srv_to_join (emit (server_join_failed_callback j.id) s))
  ]

  unfoldable pub add_srv : SrvConfig → Server Store → Server Store × ChangeAnswer
  unfolding replace_join find_peer
  add_srv c s =
      if is_some (find_peer c.id s.peers) || s.id == c.id
      then (s, server_already_exists)
      else if s.config_changing
      then (s, config_changing)
      else replace_join c s

  pub add_srv_of : Result SrvConfig → Server Store → Server Store × ChangeAnswer
  unfolding add_srv
  add_srv_of (ok c) s = add_srv c s
  add_srv_of (throw e) s = (s, change_failed)

  unfoldable pub handle_add_srv_req : ReqMsg → Server Store → Server Store × ChangeAnswer
  unfolding add_srv_of check_srv_to_leave_timeout srv_of sole_entry
  handle_add_srv_req req s = elim (sole_entry req.log_entries) [
    | none ↦ (s, bad_request)
    | some e ↦
        if not (is_cluster_server e.value_type)
        then (s, bad_request)
        else if not (is_leader s.role) || s.write_paused
        then (s, not_leader)
        else add_srv_of (srv_of e.buff) (check_srv_to_leave_timeout L s)
  ]
